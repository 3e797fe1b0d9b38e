-- ===== src/Examples/Completion.antt =====
-- With a broker that refuses nothing, every example comes to its end.
use huma.Base.{[], ◌∷◌, ◌≡◌, false, List, ◌++◌, Option, none, some}
use huma.Go.Errors.{Error}
use huma.Go.Result.{Result, ok, err}
use huma.Pool.{Pool}
use huma.Config.Queue.{QueueConfig}
use huma.Config.Sdk.{SdkConfig, new_sdk_settings}
use huma.Publish.{Client}
use huma.Topology.{call as server_call}
use huma.Session.{call}
use huma.Shutdown.{Move as ShutdownMove}
use huma.Shutdown.Orderly.{IsClosed}
use huma.Kit.{SdkState, Answers}
use huma.Examples.Host.{ToolCall, exporter_made, provider_set, propagator_set, Run}
use huma.Examples.{Ending, ended}

-- The context lives, and the broker accepts what is declared and consumed. What publishing meets,
-- and how the shutdown goes, is open.
abbrev pub willing : Client → List ShutdownMove → Answers
willing c ms = record {
  context = record { is_nil = false; error = none };
  qos = none;
  server = record { context = λ _. none; refused = λ _ _. none };
  live = none;
  consume_refused = λ _ _. none;
  client = c;
  shutdown = ms;
}

-- `NewSDK` on a broker that can be reached: the configuration decides.
abbrev pub connect : SdkConfig → SdkState → Option Error × SdkState
connect cfg s = elim (new_sdk_settings false cfg) [ err e ↦ (some e, s) | ok t ↦ (none, s) ]

-- What `initTracer` does, newest first.
abbrev pub tracer_set : List ToolCall
tracer_set = propagator_set ∷ provider_set ∷ exporter_made ∷ []

-- The program has come to its end, its queues are declared, started and kept for a reconnect, the
-- SDK is closed, with the pool `p`, and the calls besides the SDK are these.
abbrev pub Completes :
    Option Pool → List QueueConfig → List ToolCall → SdkState → Ending × Run → Type 0
Completes p queues calls s (e, r) =
    let y = r.state in
    (e ≡ ended)
    × (y.fixed.declared_queues ≡ s.fixed.declared_queues ++ queues)
    × (y.fixed.queues ≡ s.fixed.queues ++ queues)
    × IsClosed p y.sdk
    × (r.calls ≡ calls)
