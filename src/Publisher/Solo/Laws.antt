-- ===== src/Publisher/Solo/Laws.antt =====
-- What a call of `publishAMQP` does to the log, as the interfaces of Publish and Delivery ask it.
use huma.Base.{ap, ◌≡◌, refl, ◌∙◌, List, [], ◌∷◌, none, String, arith}
use huma.Amqp.{Publishing, Event}
use huma.Pool.{World}
use huma.Publish.{successes, failures}
use huma.Delivery.{settlements, handlings}
use huma.Publisher.{Reply, Job, Pc, act, entering, finished}
use huma.Publisher.Confirmation.{IsConfirmed, Honest, act-Honest, act-log}
use huma.Publisher.Progress.{drive}
use huma.Publisher.Solo.{Turns, all_replies, returned, job_of, call, publish_amqp}

-- What one step leaves alone: the publishes counted, the settlements and the handlers called.
act_counts :
    (r : Reply) (j : Job) (pc : Pc) (w : World)
    → (successes (act r j pc w).1.log ≡ successes w.log)
      × (failures (act r j pc w).1.log ≡ failures w.log)
      × (settlements (act r j pc w).1.log ≡ settlements w.log)
      × (handlings (act r j pc w).1.log ≡ handlings w.log)
unfolding act
act_counts r j entering w = ground arith
act_counts r j _ w = ground arith

module _ {A : Type 0} (f : List Event → A) where
  drive-keeps :
      ((r : Reply) (j : Job) (pc : Pc) (w : World) → f (act r j pc w).1.log ≡ f w.log)
      → (rs : List Reply) (j : Job) (pc : Pc) (w : World) → f (drive rs j pc w).1.log ≡ f w.log
  unfolding drive
  drive-keeps h [] j pc w = refl
  drive-keeps h (r ∷ rs) j pc w = drive-keeps h rs j (act r j pc w).0 (act r j pc w).1 ∙ h r j pc w

returned_log : (o : Pc × World) → (returned o).1 ≡ o.1.log
unfolding returned
returned_log (finished e, w) = refl
returned_log (_, w) = refl

-- So `publishAMQP` is what `Publish` and the consumer take it for.
pub counts_no_success :
    (t : Turns) (l : List Event) (x k : String) (p : Publishing)
    → successes (publish_amqp t l x k p).1 ≡ successes l
unfolding publish_amqp call
counts_no_success t l x k p =
    ap successes (returned_log (call t l (job_of x k p)))
    ∙ drive-keeps successes (λ r j pc w. (act_counts r j pc w).0) (all_replies t l) _ entering _

pub counts_no_failure :
    (t : Turns) (l : List Event) (x k : String) (p : Publishing)
    → failures (publish_amqp t l x k p).1 ≡ failures l
unfolding publish_amqp call
counts_no_failure t l x k p =
    ap failures (returned_log (call t l (job_of x k p)))
    ∙ drive-keeps failures (λ r j pc w. (act_counts r j pc w).1) (all_replies t l) _ entering _

pub settles_nothing :
    (t : Turns) (l : List Event) (x k : String) (p : Publishing)
    → settlements (publish_amqp t l x k p).1 ≡ settlements l
unfolding publish_amqp call
settles_nothing t l x k p =
    ap settlements (returned_log (call t l (job_of x k p)))
    ∙ drive-keeps settlements (λ r j pc w. (act_counts r j pc w).2) (all_replies t l) _ entering _

pub handles_nothing :
    (t : Turns) (l : List Event) (x k : String) (p : Publishing)
    → handlings (publish_amqp t l x k p).1 ≡ handlings l
unfolding publish_amqp call
handles_nothing t l x k p =
    ap handlings (returned_log (call t l (job_of x k p)))
    ∙ drive-keeps handlings (λ r j pc w. (act_counts r j pc w).3) (all_replies t l) _ entering _

drive-Honest :
    (rs : List Reply) (j : Job) (pc : Pc) (w : World)
    → Honest j pc w
    → Honest j (drive rs j pc w).0 (drive rs j pc w).1
unfolding drive
drive-Honest [] j pc w h = h
drive-Honest (r ∷ rs) j pc w h =
    drive-Honest rs j (act r j pc w).0 (act r j pc w).1 (act-Honest r j pc w h)

drive-log :
    (rs : List Reply) (j k : Job) (pc : Pc) (w : World)
    → IsConfirmed k w.log
    → IsConfirmed k (drive rs j pc w).1.log
unfolding drive
drive-log [] j k pc w h = h
drive-log (r ∷ rs) j k pc w h =
    drive-log rs j k (act r j pc w).0 (act r j pc w).1 (act-log r j k pc w h)

returned_nil :
    (j : Job) (o : Pc × World)
    → Honest j o.0 o.1
    → (returned o).0 ≡ none
    → IsConfirmed j (returned o).1
unfolding returned
returned_nil j (finished none, w) h e = h refl
returned_nil j (_, w) h e = cc e

-- A nil error means that the message was confirmed, and a call takes back no confirmation.
pub publish_amqp-IsConfirmed :
    (t : Turns) (l : List Event) (x k : String) (p : Publishing)
    → (publish_amqp t l x k p).0 ≡ none
    → IsConfirmed (job_of x k p) (publish_amqp t l x k p).1
unfolding publish_amqp call
publish_amqp-IsConfirmed t l x k p h =
    returned_nil (job_of x k p) (call t l (job_of x k p))
      (drive-Honest (all_replies t l) (job_of x k p) entering _ (λ e. cc)) h

pub publish_amqp-log :
    (t : Turns) (l : List Event) (x k : String) (p : Publishing) (j : Job)
    → IsConfirmed j l
    → IsConfirmed j (publish_amqp t l x k p).1
unfolding publish_amqp call
publish_amqp-log t l x k p j h =
    rw (returned_log (call t l (job_of x k p)))
      (drive-log (all_replies t l) (job_of x k p) j entering _ h)
