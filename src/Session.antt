-- ===== src/Session.antt =====
-- rabbitmqsdk.go, what an application sets up on an SDK: `SetQos`, `DeclareQueues` and `Start`, and
-- what the SDK keeps of it for a reconnect. The mutex and logging are left out.
pub mod Tests
pub mod Replay
pub mod Retried
pub mod Starting
pub mod Slices
use huma.Base.{Bool, true, false, List, [], ◌∷◌, Option, none, some}
use huma.Go.Errors.{Error, context_nil}
use huma.Go.Result.{error_of}
use huma.Config.Queue.{QueueConfig}
use huma.Topology.{Server, declare_queues_locked}
use huma.Start.{Call, start_with_store_queues_flag}
use huma.Reconnect.{Qos, Fixed}

-- A context as a call reads it: whether it is nil, and its error.
pub record Context : Type 0 where
  pub is_nil : Bool
  pub error : Option Error

pub validate_context : Context → Option Error
validate_context ctx = elim ctx.is_nil [ true ↦ some context_nil | false ↦ ctx.error ]

-- A call of the application, with what the environment answers: the error of Qos on the channel;
-- the server; the error of the context when it is read again, and that of `Consume`.
pub data AppCall : Type 0 where
  qos_called : Context → Qos → Option Error → AppCall
  declare_called : Context → List QueueConfig → Server → AppCall
  start_called :
      Context → List QueueConfig → Option Error → (List Call → QueueConfig → Option Error) → AppCall

set_qos : Qos → Option Error → Fixed → Option Error × Fixed
set_qos q (some e) f = (some e, f)
set_qos q none f = (none, record f { qos_configured = true; qos = q })

declare_queues : List QueueConfig → Server → Fixed → Option Error × Fixed
declare_queues queues s f =
    let (r, declared, _) = declare_queues_locked s queues true f.declared_queues [] in
    (error_of r, record f { declared_queues = declared })

start :
    List QueueConfig
    → Option Error
    → (List Call → QueueConfig → Option Error)
    → Fixed
    → Option Error × Fixed
start queues context refused f =
    let (r, kept, _) = start_with_store_queues_flag refused context queues true f.queues [] in
    (error_of r, record f { queues = kept })

-- if err := validateContext(ctx); err != nil { return err }
guarded : Option Error → (Fixed → Option Error × Fixed) → Fixed → Option Error × Fixed
guarded (some e) m f = (some e, f)
guarded none m f = m f

unfoldable pub call : AppCall → Fixed → Option Error × Fixed
unfolding guarded set_qos declare_queues start validate_context
call (qos_called ctx q reply) f = guarded (validate_context ctx) (set_qos q reply) f
call (declare_called ctx queues s) f = guarded (validate_context ctx) (declare_queues queues s) f
call (start_called ctx queues context refused) f =
    guarded (validate_context ctx) (start queues context refused) f

-- The calls in their order.
pub calls : List AppCall → Fixed → Fixed
unfolding call
calls [] f = f
calls (c ∷ cs) f = calls cs (call c f).1
