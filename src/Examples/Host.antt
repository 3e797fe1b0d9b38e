-- ===== src/Examples/Host.antt =====
-- The SDK, and what the examples use besides it, as one state.
use huma.Base.{Bool, List, ◌∷◌, Option, none}
use huma.Go.Errors.{Error}
use huma.Config.Sdk.{SdkConfig}
use huma.Kit.{Kit, SdkState}
use huma.Examples.Settings.{HttpServer}
use huma.Examples.{Tools}

-- Whether the SDK had closed everything when the server, or the tracer, was stopped.
pub data ToolCall : Type 0 where
  exporter_made provider_set propagator_set : ToolCall
  server_started : HttpServer → ToolCall
  tracer_stopped server_stopped : Bool → ToolCall

pub record Run : Type 0 where
  pub state : SdkState
  pub calls : List ToolCall

abbrev of_sdk : List ToolCall → Option Error × SdkState → Option Error × Run
of_sdk calls (e, s) = (e, record { state = s; calls = calls })

-- The SDK's operations leave the other calls alone.
abbrev pub beside : Kit SdkState → Kit Run
beside kit = record {
  declare_queues = λ queues r. of_sdk r.calls (kit.declare_queues queues r.state);
  publish_one = λ exchange routing_key msg r.
      of_sdk r.calls (kit.publish_one exchange routing_key msg r.state);
  publish_batch = λ exchange routing_key msgs r.
      of_sdk r.calls (kit.publish_batch exchange routing_key msgs r.state);
  publish_delayed = λ queue_name msg r. of_sdk r.calls (kit.publish_delayed queue_name msg r.state);
  qos = λ q r. of_sdk r.calls (kit.qos q r.state);
  start_queues = λ queues r. of_sdk r.calls (kit.start_queues queues r.state);
  shut_down = λ r. of_sdk r.calls (kit.shut_down r.state);
  set_logger = λ l r. record r { state = kit.set_logger l r.state };
}

abbrev pub connect_beside :
    (SdkConfig → SdkState → Option Error × SdkState) → SdkConfig → Run → Option Error × Run
connect_beside connect cfg r = of_sdk r.calls (connect cfg r.state)

-- An exporter that can be made; the errors of stopping the tracer and the server are open.
abbrev pub tools_of : Option Error → Option Error → Tools Run
tools_of tracer server = record {
  new_exporter = λ r. (none, record r { calls = exporter_made ∷ r.calls });
  set_tracer_provider = λ r. record r { calls = provider_set ∷ r.calls };
  set_propagator = λ r. record r { calls = propagator_set ∷ r.calls };
  stop_tracer = λ r. (tracer, record r { calls = tracer_stopped r.state.sdk.close_once ∷ r.calls });
  serve = λ server r. record r { calls = server_started server ∷ r.calls };
  stop_server = λ r. (server, record r { calls = server_stopped r.state.sdk.close_once ∷ r.calls });
}
