-- ===== src/Topology/Plan.antt =====
-- `DeclareQueues` against a plan: a list of declarations that is written without the calls.
use mathlib.Core.List.{reverse}
use huma.Base.{
  ◌≡◌, ◌≢◌, ◌⊎◌, inl, inr, refl, String, Bool, true, false, ◌&&◌, List, [], ◌∷◌, ◌++◌, none, some,
  ◌==ℤ◌, if◌then◌else◌, Option-cases,
}
use huma.Go.Result.{Result, ok, err}
use huma.Go.Runs.{Ran, Ran-ok, Emits, err-ne-ok, Emits-pure, Emits-lift, Emits-bind, Emits-when}
use huma.Go.Exec.{nil_or}
use huma.Config.Queue.{QueueConfig, delay_dlx_ttl, validate}
use huma.Publish.{get_delay_queue_name}
use huma.Topology.{
  Declaration, exchange_declare, queue_declare, queue_bind, Server, dlx_name, dlq_name,
  effective_key, queue_args, delay_args, call, check_context, declare_dlq, declare_delay,
  declare_queue, declare_each, declare_queues_locked, keep_declared,
}

-- What a queue wants declared, in order.
abbrev pub dlq_plan : QueueConfig → List Declaration
dlq_plan q =
    exchange_declare (dlx_name q)
    ∷ queue_declare (dlq_name q) true false false false none
    ∷ queue_bind (dlq_name q) (dlq_name q) (dlx_name q)
    ∷ []

abbrev pub delay_plan : QueueConfig → List Declaration
delay_plan q =
    exchange_declare q.exchange
    ∷ queue_declare (get_delay_queue_name q.name) true false false false (some (delay_args q))
    ∷ []

abbrev pub plan : QueueConfig → List Declaration
plan q =
    (if q.enable_dlq then dlq_plan q else [])
    ++ ((if q.is_delay_queue && q.delay_strategy ==ℤ delay_dlx_ttl then delay_plan q else [])
        ++ (queue_declare q.name q.durable q.auto_delete q.exclusive q.no_wait (queue_args q)
            ∷ (if q.is_delay_queue
                then queue_bind q.name (effective_key q) q.exchange ∷ []
                else [])))

abbrev pub plans : List QueueConfig → List Declaration
plans [] = []
plans (q ∷ qs) = plan q ++ plans qs

kept_cases :
    (queues declared : List QueueConfig) (r : Result (Unit {0}))
    → let kept = keep_declared true queues declared r in
      ((r ≡ ok tt) × (kept ≡ declared ++ queues)) ⊎ ((r ≢ ok tt) × (kept ≡ declared))
unfolding keep_declared
kept_cases queues declared (ok tt) = inl (refl, refl)
kept_cases queues declared (err e) = inr (err-ne-ok, refl)

module _ (s : Server) where
  Emits-call : (text : String) (d : Declaration) → Emits (call s text d) (d ∷ [])
  unfolding call
  Emits-call text d = record {
    at = λ ds. elim (Option-cases (s.refused ds d)) [
      | inl fine ↦ rw (fine, call) (inl (refl, refl))
      | inr (e, bad) ↦ rw (bad, call) (inr (err-ne-ok, (d ∷ [], [], refl, refl)))
    ];
  }

  Emits-check : Emits (check_context s) []
  unfolding check_context
  Emits-check = record { at = λ ds. (Emits-lift (nil_or (s.context ds))).at ds }

  Emits-queue : (q : QueueConfig) → Emits (declare_queue s q) (plan q)
  unfolding declare_queue declare_dlq declare_delay
  Emits-queue q = Emits-bind _ _ [] _ Emits-check (
      Emits-bind _ _ [] _ (Emits-lift (validate q)) (
        Emits-bind _ _ _ _
          (Emits-when q.enable_dlq _ (dlq_plan q) (
            Emits-bind _ _ (_ ∷ []) _ (Emits-call _ _)
              (Emits-bind _ _ (_ ∷ []) _ (Emits-call _ _) (Emits-call _ _))))
          (Emits-bind _ _ _ _
            (Emits-when (q.is_delay_queue && q.delay_strategy ==ℤ delay_dlx_ttl) _ (delay_plan q)
              (Emits-bind _ _ (_ ∷ []) _ (Emits-call _ _) (Emits-call _ _)))
            (Emits-bind _ _ (_ ∷ []) _ (Emits-call _ _)
              (Emits-when q.is_delay_queue _ _ (Emits-call _ _))))))

  pub Emits-each : (qs : List QueueConfig) → Emits (declare_each s qs) (plans qs)
  unfolding declare_each
  Emits-each [] = Emits-pure
  Emits-each (q ∷ qs) = Emits-bind _ _ _ _ (Emits-queue q) (Emits-each qs)

  -- A success, whether the queues are kept or not, has made all the calls.
  pub declare_queues_locked-planned :
      (queues : List QueueConfig) (store : Bool) (declared : List QueueConfig)
      → (declare_queues_locked s queues store declared []).0 ≡ ok tt
      → (declare_queues_locked s queues store declared []).2 ≡ reverse (plans queues)
  unfolding declare_queues_locked
  declare_queues_locked-planned queues store declared h =
      Ran-ok (plans queues) (declare_each s queues []) h ((Emits-each queues).at [])

  pub declare_queues_locked-Ran :
      (queues declared : List QueueConfig) (ds : List Declaration)
      → let (r, kept, w) = declare_queues_locked s queues true declared ds in
        Ran (plans queues) ds (r, w)
        × (((r ≡ ok tt) × (kept ≡ declared ++ queues)) ⊎ ((r ≢ ok tt) × (kept ≡ declared)))
  unfolding declare_queues_locked
  declare_queues_locked-Ran queues declared ds =
      ((Emits-each queues).at ds, kept_cases queues declared (declare_each s queues ds).0)
