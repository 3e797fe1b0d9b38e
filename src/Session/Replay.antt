-- ===== src/Session/Replay.antt =====
-- What the application has set up is what a reconnect replays.
use mathlib.Core.Path.{subst}
use huma.Base.{
  sym, ◌∙◌, ◌≡◌, ◌≢◌, ◌⊎◌, inl, inr, refl, true, List, [], ◌∷◌, ◌++◌, Option, none, some,
  Option-cases, ap,
}
use huma.Go.Errors.{Error}
use huma.Go.Result.{Result, ok, err, error_of}
use huma.Config.Queue.{QueueConfig}
use huma.Topology.{Server}
use huma.Topology.Plan.{declare_queues_locked-Ran}
use huma.Start.{Call, start_with_store_queues_flag}
use huma.Start.Consumers.{AllStartable, start_with_store_queues_flag-Outcome}
use huma.Reconnect.{Qos, Fixed, State, Round, reconnect}
use huma.Reconnect.Resources.{IsHeld, Sound}
use huma.Reconnect.Stages.{IsReplayed}
use huma.Reconnect.Replay.{reconnect-Sound}
use huma.Session.{
  Context, validate_context, AppCall, qos_called, declare_called, start_called, set_qos,
  declare_queues, start, guarded, call, calls,
}

-- What a call asks to be kept.
abbrev pub ask : AppCall → Fixed → Fixed
ask (qos_called _ q _) f = record f { qos_configured = true; qos = q }
ask (declare_called _ queues _) f = record f { declared_queues = f.declared_queues ++ queues }
ask (start_called _ queues _ _) f = record f { queues = f.queues ++ queues }

-- The calls that returned nil.
abbrev pub asked : List AppCall → Fixed → Fixed
asked [] f = f
asked (c ∷ cs) f = elim (call c f).0 [ none ↦ asked cs (ask c f) | some _ ↦ asked cs f ]

-- A `Start` that fails was refused: it did not fail while it started its consumers, after which its
-- queues would be kept.
abbrev pub IsRefused : AppCall → Type 0
IsRefused (start_called ctx queues context _) =
    ¬ ((validate_context ctx ≡ none) × (context ≡ none) × AllStartable queues)
IsRefused _ = Unit {0}

abbrev pub IsSettled : List AppCall → Fixed → Type 0
IsSettled [] f = Unit {0}
IsSettled (c ∷ cs) f = (((call c f).0 ≡ none) ⊎ IsRefused c) × IsSettled cs (call c f).1

-- A call that returns nil keeps what it asks for, and one that does not keeps nothing.
abbrev Kept : AppCall → Fixed → Option Error × Fixed → Type 0
Kept c f (e, g) = ((e ≡ none) × (g ≡ ask c f)) ⊎ ((e ≢ none) × (IsRefused c → g ≡ f))

some-ne-none : (e : Error) → some e ≢ none
some-ne-none e h = cc

error_of_ok : (r : Result (Unit {0})) → r ≡ ok tt → error_of r ≡ none
error_of_ok r h = rw h refl

error_of_err : (r : Result (Unit {0})) → r ≢ ok tt → error_of r ≢ none
error_of_err (ok tt) h = absurd (h refl)
error_of_err (err e) h = some-ne-none e

set_qos-Kept :
    (ctx : Context) (q : Qos) (reply : Option Error) (f : Fixed)
    → Kept (qos_called ctx q reply) f (set_qos q reply f)
unfolding set_qos
set_qos-Kept ctx q none f = inl (refl, refl)
set_qos-Kept ctx q (some e) f = inr (some-ne-none e, λ _. refl)

declare-Kept :
    (ctx : Context) (queues : List QueueConfig) (s : Server) (f : Fixed)
    → Kept (declare_called ctx queues s) f (declare_queues queues s f)
unfolding declare_queues
declare-Kept ctx queues s f = elim (declare_queues_locked-Ran s queues f.declared_queues []).1 [
  | inl (fine, kept) ↦
      inl
        (error_of_ok _ fine, ap (λ (ds : List QueueConfig). record f { declared_queues = ds }) kept)
  | inr (bad, kept) ↦ inr (
    error_of_err _ bad,
    λ _. ap (λ (ds : List QueueConfig). record f { declared_queues = ds }) kept,
  )
]

start-Kept :
    (ctx : Context) (queues : List QueueConfig) (context : Option Error)
    (refused : List Call → QueueConfig → Option Error) (f : Fixed)
    → validate_context ctx ≡ none
    → Kept (start_called ctx queues context refused) f (start queues context refused f)
unfolding start
start-Kept ctx queues context refused f valid =
    let r = (start_with_store_queues_flag refused context queues true f.queues []).0 in
    elim (start_with_store_queues_flag-Outcome refused context queues true f.queues []) [
      | inl (bad, _, kept, _) ↦
          inr
            (error_of_err r bad, λ _. ap (λ (qs : List QueueConfig). record f { queues = qs }) kept)
      | inr (live, fit, kept, _) ↦ elim (Option-cases (error_of r)) [
        | inl fine ↦ inl (fine, ap (λ (qs : List QueueConfig). record f { queues = qs }) kept)
        | inr (e, failed) ↦ inr (
          λ fine. some-ne-none e (sym failed ∙ fine),
          λ refusal. absurd (refusal (valid, live, fit)),
        )
      ]
    ]

guarded-Kept :
    (c : AppCall) (v : Option Error) (m : Fixed → Option Error × Fixed) (f : Fixed)
    → (v ≡ none → Kept c f (m f))
    → Kept c f (guarded v m f)
unfolding guarded
guarded-Kept c none m f h = h refl
guarded-Kept c (some e) m f h = inr (some-ne-none e, λ _. refl)

call-Kept : (c : AppCall) (f : Fixed) → Kept c f (call c f)
unfolding call
call-Kept (qos_called ctx q reply) f =
    guarded-Kept (qos_called ctx q reply) (validate_context ctx) _ f
      (λ _. set_qos-Kept ctx q reply f)
call-Kept (declare_called ctx queues s) f =
    guarded-Kept (declare_called ctx queues s) (validate_context ctx) _ f
      (λ _. declare-Kept ctx queues s f)
call-Kept (start_called ctx queues context refused) f =
    guarded-Kept (start_called ctx queues context refused) (validate_context ctx) _ f
      (start-Kept ctx queues context refused f)

calls-asked : (cs : List AppCall) (f : Fixed) → IsSettled cs f → calls cs f ≡ asked cs f
unfolding calls
calls-asked [] f h = refl
calls-asked (c ∷ cs) f (settled, rest) = elim (call-Kept c f) [
  | inl (fine, kept) ↦ rw (asked, fine, calls-asked cs (call c f).1 rest) (ap (asked cs) kept)
  | inr (bad, kept) ↦ elim (Option-cases (call c f).0) [
    | inl fine ↦ absurd (bad fine)
    | inr (e, failed) ↦ elim settled [
      | inl fine ↦ absurd (bad fine)
      | inr refusal ↦
          rw (asked, failed, calls-asked cs (call c f).1 rest) (ap (asked cs) (kept refusal))
    ]
  ]
]

-- After any calls of the application, of which no `Start` failed while it started its consumers, a
-- `reconnect` that succeeds replays exactly what the calls that returned nil have set up: the Qos of
-- the last `SetQos`, the queues of all `DeclareQueues` and the consumers of all `Start`, in order.
pub reconnect-asked :
    (cs : List AppCall) (f : Fixed) (rounds : List Round) (s : State)
    → IsSettled cs f
    → IsHeld s
    → Sound (IsReplayed (asked cs f)) (reconnect (calls cs f) rounds s)
reconnect-asked cs f rounds s settled held =
    subst (λ g. Sound (IsReplayed g) (reconnect (calls cs f) rounds s)) (calls-asked cs f settled)
      (reconnect-Sound (calls cs f) rounds s held)
