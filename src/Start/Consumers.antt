-- ===== src/Start/Consumers.antt =====
-- `Start` against what it is to do: all queues are checked before anything happens, and the
-- consumers are started in order.
use mathlib.Core.List.{reverse}
use huma.Base.{
  ℕ, zero, suc, ◌≡◌, ◌≢◌, ◌↔◌, ◌⊎◌, inl, inr, refl, Bool, List, [], ◌∷◌, ◌++◌, Option, none, some,
  pos, ◌<ℤ◌, pos_part, replicate, Option-cases, arith, if◌then◌else◌,
}
use huma.Go.Errors.{Error}
use huma.Go.Result.{Result, ok, then_iff, Result-cases}
use huma.Go.Runs.{Ran, Ran-ok, Emits, err-ne-ok, Emits-pure, Ran-bind}
use huma.Config.Queue.{QueueConfig}
use huma.Config.Queue.Validity.{IsWellFormed, validate_iff}
use huma.Start.{
  Call, consume_called, worker_started, check_queue, check_queues, with_frequency, start_workers,
  call_consume, start_queue, start_queues, start_checked, start_with_store_queues_flag,
}

pub record IsStartable (q : QueueConfig) : Type 0 where
  pub well_formed : IsWellFormed q
  pub handled : q.handler ≢ none
  pub staffed : pos 0 <ℤ q.num_workers

abbrev pub AllStartable : List QueueConfig → Type 0
AllStartable [] = Unit
AllStartable (q ∷ qs) = IsStartable q × AllStartable qs

-- The calls for a queue: `Consume`, then as many workers as the queue asks for.
abbrev pub start_plan : QueueConfig → List Call
start_plan q =
    let r = with_frequency q in
    consume_called r.name r.consumer_tag r.exclusive r.no_wait
    ∷ replicate (pos_part r.num_workers) (worker_started r)

abbrev pub start_plans : List QueueConfig → List Call
start_plans [] = []
start_plans (q ∷ qs) = start_plan q ++ start_plans qs

check_queue_iff : (q : QueueConfig) → (check_queue q ≡ ok tt) ↔ IsStartable q
unfolding check_queue
check_queue_iff q = (
  λ h. record {
    well_formed = (validate_iff q).0 (ground arith);
    handled = ground arith;
    staffed = ground arith;
  },
  λ h. rw ((validate_iff q).1 h.well_formed) (ground (arith, h.handled, h.staffed)),
)

pub check_queues_iff : (qs : List QueueConfig) → (check_queues qs ≡ ok tt) ↔ AllStartable qs
unfolding check_queues
check_queues_iff [] = (λ h. tt, λ h. refl)
check_queues_iff (q ∷ qs) =
    let t = then_iff (check_queue q) (check_queues qs) tt in
    (
      λ h. ((check_queue_iff q).0 (t.0 h).0, (check_queues_iff qs).0 (t.0 h).1),
      λ h. t.1 ((check_queue_iff q).1 h.0, (check_queues_iff qs).1 h.1),
    )

Emits-workers :
    (n : ℕ) (q : QueueConfig) → Emits (start_workers n q) (replicate n (worker_started q))
unfolding start_workers
Emits-workers zero q = Emits-pure
Emits-workers (suc n) q = record {
  at = λ l. Ran-bind _ (_ ∷ []) _ l (ok tt, _) (inl (refl, refl)) (Emits-workers n q);
}

-- Refused before anything happens, or all queues are fit, kept, and started in their order.
abbrev pub Outcome :
    Option Error
    → List QueueConfig
    → Bool
    → List QueueConfig
    → List Call
    → Result (Unit {0}) × List QueueConfig × List Call
    → Type 0
Outcome context qs store kept l (r, kept', l') =
    ((r ≢ ok tt) × ¬ ((context ≡ none) × AllStartable qs) × (kept' ≡ kept) × (l' ≡ l))
    ⊎ ((context ≡ none)
        × AllStartable qs
        × (kept' ≡ (if store then kept ++ qs else kept))
        × Ran (start_plans qs) l (r, l'))

module _ (refused : List Call → QueueConfig → Option Error) where
  Emits-consume :
      (q : QueueConfig)
      → Emits
          (call_consume refused q)
          (consume_called q.name q.consumer_tag q.exclusive q.no_wait ∷ [])
  unfolding call_consume
  Emits-consume q = record {
    at = λ l. elim (Option-cases (refused l q)) [
      | inl fine ↦ rw (fine, call_consume) (inl (refl, refl))
      | inr (e, bad) ↦ rw (bad, call_consume) (inr (err-ne-ok, (_ ∷ [], [], refl, refl)))
    ];
  }

  Emits-queue : (q : QueueConfig) → Emits (start_queue refused q) (start_plan q)
  unfolding start_queue
  Emits-queue q = record {
    at = λ l.
        Ran-bind _ (_ ∷ []) _ l _ ((Emits-consume (with_frequency q)).at l)
          (Emits-workers _ (with_frequency q));
  }

  Emits-queues : (qs : List QueueConfig) → Emits (start_queues refused qs) (start_plans qs)
  unfolding start_queues
  Emits-queues [] = Emits-pure
  Emits-queues (q ∷ qs) = record {
    at = λ l. Ran-bind _ _ _ l _ ((Emits-queue q).at l) (Emits-queues qs);
  }

  pub start_with_store_queues_flag-Outcome :
      (context : Option Error) (qs : List QueueConfig) (store : Bool) (kept : List QueueConfig)
      (l : List Call)
      → Outcome context qs store kept l
          (start_with_store_queues_flag refused context qs store kept l)
  unfolding start_with_store_queues_flag start_checked
  start_with_store_queues_flag-Outcome (some e) qs store kept l =
      inl (err-ne-ok, λ h. cc h.0, refl, refl)
  start_with_store_queues_flag-Outcome none qs store kept l =
      elim (Result-cases (check_queues qs)) [
        | inl (_, fine) ↦
            rw (fine, start_checked)
              (inr (refl, (check_queues_iff qs).0 fine, refl, (Emits-queues qs).at l))
        | inr (e, bad) ↦
            rw (bad, start_checked)
              (inl (
                err-ne-ok,
                λ h. let t : check_queues qs ≡ ok tt = (check_queues_iff qs).1 h.1 in cc,
                refl,
                refl,
              ))
      ]

  -- A success has made all the calls.
  pub start_with_store_queues_flag-planned :
      (context : Option Error) (qs : List QueueConfig) (store : Bool) (kept : List QueueConfig)
      → (start_with_store_queues_flag refused context qs store kept []).0 ≡ ok tt
      → (start_with_store_queues_flag refused context qs store kept []).2 ≡ reverse (start_plans qs)
  start_with_store_queues_flag-planned context qs store kept h =
      elim (start_with_store_queues_flag-Outcome context qs store kept []) [
        | inl (bad, _, _, _) ↦ absurd (bad h)
        | inr (_, _, _, ran) ↦ Ran-ok (start_plans qs) _ h ran
      ]
