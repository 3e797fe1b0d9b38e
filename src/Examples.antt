-- ===== src/Examples.antt =====
-- examples/basic, examples/dlq-and-delay, examples/metrics and examples/tracing: the `main` of each as
-- a program over the SDK's interface. log.Fatal ends a program at once, without what it has deferred;
-- other errors are only logged. What the handlers do and print is left out.
pub mod Settings
pub mod Host
pub mod Completion
pub mod Labels
mod Tests
use huma.Base.{ℕ, zero, suc, String, List, [], ◌∷◌, Option, none, some}
use huma.Go.Errors.{Error}
use huma.Go.Result.{Result}
use huma.Config.Sdk.{SdkConfig}
use huma.Message.{Message, new_message, with_body, with_json_body}
use huma.Kit.{Kit}
use huma.Examples.Settings.{
  basic_config, basic_queues, delay_config, delay_queues, metrics_config, metrics_queues,
  tracing_config, tracing_queues, HttpServer, metrics_server,
}

-- How a program ends: with log.Fatal, or at the end of `main`.
pub data Ending : Type 0 where
  exited : Error → Ending
  ended : Ending

-- What two of the programs use besides the SDK: OpenTelemetry's exporter, the two settings that are
-- global, and the provider's `Shutdown`; the goroutine of `ListenAndServe`, and the server's `Shutdown`.
pub record Tools (S : Type 0) : Type 0 where
  pub new_exporter : S → Option Error × S
  pub set_tracer_provider : S → S
  pub set_propagator : S → S
  pub stop_tracer : S → Option Error × S
  pub serve : HttpServer → S → S
  pub stop_server : S → Option Error × S

-- `bytes` is Go's conversion of a text, `marshalled` what json.Marshal returns for the order, `now` the
-- time at which the messages are made, and `connect` is `NewSDK`.
module _ {S : Type 0} (kit : Kit S) (connect : SdkConfig → S → Option Error × S) (tools : Tools S)
    (bytes : String → List ℕ) (marshalled : Result (List ℕ)) (now : ℕ) where
  -- if err := …; err != nil { log.Fatal(…) }, and the same with an error that is only logged.
  fatal : Option Error × S → (S → Ending × S) → Ending × S
  fatal (some e, s) go = (exited e, s)
  fatal (none, s) go = go s

  logged : Option Error × S → (S → Ending × S) → Ending × S
  logged (e, s) go = go s

  text_message : String → Option Message
  text_message text = some (with_body (bytes text) (new_message now))

  -- The end of each `main`, after `<-ctx.Done()`.
  finish : S → Ending × S
  unfolding logged
  finish s = logged (kit.shut_down s) (λ s. (ended, s))

  init_tracer : S → (S → Ending × S) → Ending × S
  unfolding fatal
  init_tracer s go =
      fatal (tools.new_exporter s) λ s. go (tools.set_propagator (tools.set_tracer_provider s))

  -- defer func() { if err := shutdown(…); err != nil { log.Println(…) } }()
  deferred : (S → Option Error × S) → Ending × S → Ending × S
  deferred stop (exited e, s) = (exited e, s)
  deferred stop (ended, s) = (ended, (stop s).1)

  -- The `zap.NewDevelopment` of the basic example may fail; its logger is the first.
  pub basic : Option Error → S → Ending × S
  unfolding fatal logged finish text_message
  basic no_logger s =
      fatal (no_logger, s)
        λ s. fatal (connect basic_config s) λ s.
          fatal (kit.declare_queues basic_queues (kit.set_logger (some 1) s)) λ s.
            fatal (kit.start_queues basic_queues s) λ s.
              logged (kit.publish_one "" "huma.example" (text_message "hello from huma") s) finish

  pub dlq_and_delay : S → Ending × S
  unfolding fatal logged finish text_message
  dlq_and_delay s = fatal (connect delay_config s) λ s.
      fatal (kit.declare_queues delay_queues s) λ s. fatal (kit.start_queues delay_queues s) λ s.
        logged
          (kit.publish_one "" "huma.orders" (some (with_json_body marshalled (new_message now))) s)
          λ s.
            logged (kit.publish_delayed "huma.scheduled" (text_message "scheduled task") s) finish

  pub metrics : S → Ending × S
  unfolding fatal logged finish text_message
  metrics s = fatal (connect metrics_config s) λ s. fatal (kit.declare_queues metrics_queues s) λ s.
      fatal (kit.start_queues metrics_queues s) λ s.
        logged (kit.publish_one "" "huma.metrics.example" (text_message "metric example") s)
          λ s. logged (tools.stop_server (tools.serve metrics_server s)) finish

  -- for i := range 3
  publish_traced : ℕ → S → Ending × S
  unfolding logged finish text_message
  publish_traced zero s = finish s
  publish_traced (suc n) s =
      logged (kit.publish_one "" "huma.tracing.example" (text_message "traced message") s)
        (publish_traced n)

  pub tracing : S → Ending × S
  unfolding fatal init_tracer deferred publish_traced
  tracing s = init_tracer s λ s. deferred tools.stop_tracer (
      fatal (connect tracing_config s) λ s.
        fatal (kit.declare_queues tracing_queues s)
          λ s. fatal (kit.start_queues tracing_queues s) (publish_traced 3))
