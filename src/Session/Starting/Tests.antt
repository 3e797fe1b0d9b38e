-- ===== src/Session/Starting/Tests.antt =====
-- One queue, whose `Start` is overtaken by a reconnect.
use mathlib.Core.Path.{subst}
use huma.Base.{All, sym, ◌+◌, ◌≡◌, ◌≤◌, refl, Bool, true, List, [], ◌∷◌, Option, none, some}
use huma.Config.Tests.{orders}
use huma.Config.Queue.{QueueConfig, validate}
use huma.Start.{
  Call, start_with_store_queues_flag, check_queues, check_queue, start_checked, start_queues,
  start_queue, call_consume, start_workers,
}
use huma.Go.Errors.{Error, external}
use huma.Session.{validate_context}
use huma.Session.Tests.{live, live_valid, orders-AllStartable}
use huma.Session.Starting.{
  Pc, entering, finished, Shared, work, restart, System, step_of, move, moves, begin,
}
use huma.Session.Starting.Counts.{running, wanted}
use huma.Session.Starting.Workers.{IsFinished, moves-IsStaffed}
use huma.Session.Starting.Overtaken.{overtaken, IsDoubled, overtaken_start-IsDoubled}

abbrev any_queue : QueueConfig → Bool
any_queue _ = true

abbrev one_start : List Pc
one_start = entering live none (orders ∷ []) ∷ []

abbrev raced : System
raced = moves (begin one_start) (overtaken (orders ∷ []))

raced_replayed : raced.shared.is_replayed ≡ true
unfolding moves move step_of work restart validate_context start_with_store_queues_flag check_queues
    check_queue start_checked start_queues start_queue call_consume start_workers validate
raced_replayed = refl

raced_over : raced.starters ≡ finished ∷ []
unfolding moves move step_of work restart validate_context start_with_store_queues_flag check_queues
    check_queue start_checked start_queues start_queue call_consume start_workers validate
raced_over = refl

moves-IsStaffed_example :
    (wanted any_queue raced.shared.kept ≤ running any_queue raced.shared.calls)
    × (running any_queue raced.shared.calls
        ≤ wanted any_queue raced.shared.kept + wanted any_queue raced.shared.kept)
moves-IsStaffed_example =
    moves-IsStaffed any_queue one_start (overtaken (orders ∷ [])) (tt, tt) raced_replayed
      (subst (All IsFinished) (sym raced_over) (tt, tt))

abbrev kept_once : Shared
kept_once = record { kept = orders ∷ []; calls = []; is_replayed = true }

overtaken_start-IsDoubled_example :
    IsDoubled any_queue kept_once
      (orders ∷ [])
      (moves (record { shared = kept_once; starters = one_start }) (overtaken (orders ∷ [])))
overtaken_start-IsDoubled_example =
    overtaken_start-IsDoubled any_queue live (orders ∷ []) kept_once live_valid orders-AllStartable
      orders-AllStartable

abbrev all_refused : List Call → QueueConfig → Option Error
all_refused _ _ = some (external 2)
