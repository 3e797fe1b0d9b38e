-- ===== src/Topology/Tests.antt =====
-- A queue with a dead-letter queue and a delay queue, on a server that refuses the fifth call.
use huma.Base.{List, ◌≡◌, [], ◌∷◌, none, some, length, ◌==◌, if◌then◌else◌}
use huma.Go.Errors.{external}
use huma.Config.Tests.{orders, delayed}
use huma.Topology.Replayed.{topology_of, declares, replays, replays-declares}
use huma.Topology.{Server}
use huma.Config.Queue.{QueueConfig}

abbrev fifth_refused : Server
fifth_refused = record {
  context = λ _. none;
  refused = λ ds _. if length ds == 4 then some (external 1) else none;
}

-- The third declaration is refused.
abbrev refusing_third : Server
refusing_third = record {
  context = λ _. none;
  refused = λ l _. if length l == 2 then some (external 4) else none;
}

abbrev willing : Server
willing = record { context = λ _. none; refused = λ _ _. none }

abbrev two_calls : List (Server × List QueueConfig)
two_calls = (willing, orders ∷ []) ∷ (refusing_third, delayed ∷ []) ∷ []

replays-declares_example :
    topology_of (
      replays
        (refusing_third ∷ willing ∷ [])
        (declares two_calls ([], [])).0
        (declares two_calls ([], [])).1)
    ≡ topology_of (declares two_calls ([], [])).1
replays-declares_example = replays-declares two_calls (refusing_third ∷ willing ∷ [])
