-- ===== src/Start/Tests.antt =====
-- Two queues, on a channel that refuses the second `Consume`.
use huma.Base.{List, Option, none, some, length, ◌==◌, if◌then◌else◌}
use huma.Go.Errors.{Error, external}
use huma.Config.Queue.{QueueConfig}
use huma.Start.{Call}

abbrev second_refused : List Call → QueueConfig → Option Error
second_refused l _ = if length l == 3 then some (external 2) else none
