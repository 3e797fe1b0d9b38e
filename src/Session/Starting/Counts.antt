-- ===== src/Session/Starting/Counts.antt =====
-- The workers that calls start on a channel, and those that queues ask for.
use mathlib.Core.List.{reverse, reverse-append}
use huma.Base.{
  ◌⊎◌, ℕ, zero, suc, ◌+◌, ◌≤◌, ◌≡◌, ◌≢◌, refl, ◌∙◌, ap, inl, inr, Bool, true, false, List, [], ◌∷◌,
  ◌++◌, Option, none, arith, total, total-append, Option-cases, if◌then◌else◌, pos_part, replicate,
}
use huma.Go.Errors.{Error}
use huma.Go.Result.{Result, ok, err}
use huma.Go.Runs.{Ran}
use huma.Config.Queue.{QueueConfig}
use huma.Start.{
  Call, consume_called, worker_started, with_frequency, start_workers, start_queue, call_consume,
  start_with_store_queues_flag,
}
use huma.Start.Consumers.{start_plan, start_plans, start_with_store_queues_flag-Outcome}
use huma.Session.Starting.{Pc, starting, failed, is_ok, restart}

module _ (p : QueueConfig → Bool) where
  -- Whether a call starts a worker for a queue of the kind `p`.
  abbrev pub weight : Call → ℕ
  weight (worker_started q) = if p q then 1 else 0
  weight (consume_called _ _ _ _) = 0

  -- The workers on the channel, and those that the queues ask for.
  abbrev pub running : List Call → ℕ
  running = total weight

  abbrev pub wanted : List QueueConfig → ℕ
  wanted qs = total weight (start_plans qs)

  -- Those that a call of `Start` has yet to start, or failed to.
  abbrev pub owed : Pc → ℕ
  owed (starting qs) = wanted qs
  owed (failed _ qs) = wanted qs
  owed _ = 0

  running-reverse : (l : List Call) → running (reverse l) ≡ running l
  running-reverse [] = refl
  running-reverse (c ∷ l) =
      ap running (reverse-append (c ∷ []) l)
      ∙ omega (arith, total-append weight (reverse l) (reverse (c ∷ [])), running-reverse l)

  pub wanted-append : (qs rs : List QueueConfig) → wanted (qs ++ rs) ≡ wanted qs + wanted rs
  wanted-append [] rs = omega arith
  wanted-append (q ∷ qs) rs = omega (
    arith,
    wanted-append qs rs,
    total-append weight (start_plan q) (start_plans qs),
    total-append weight (start_plan q) (start_plans (qs ++ rs)),
  )

  running-workers :
      (n : ℕ) (q : QueueConfig) (l : List Call)
      → ((start_workers n q l).0 ≡ ok tt)
        × (running (start_workers n q l).1
            ≡ total weight (replicate n (worker_started q)) + running l)
  unfolding start_workers
  running-workers zero q l = (refl, omega arith)
  running-workers (suc n) q l =
      let (fine, more) = running-workers n q (worker_started q ∷ l) in (fine, omega (arith, more))

  -- Either `Consume` fails and no worker is started, or all workers of the queue are.
  pub start_queue-running :
      (refused : List Call → QueueConfig → Option Error) (q : QueueConfig) (l : List Call)
      → let (r, l') = start_queue refused q l in
        ((refused l (with_frequency q) ≢ none)
          × ((e : Error) × (r ≡ err e))
          × (running l' ≡ running l))
        ⊎ ((r ≡ ok tt) × (running l' ≡ total weight (start_plan q) + running l))
  unfolding start_queue call_consume
  start_queue-running refused q l =
      let r = with_frequency q in
      elim (Option-cases (refused l r)) [
        | inr (e, bad) ↦ rw (bad, start_queue, call_consume) (inl (λ h. cc, (_, refl), omega arith))
        | inl fine ↦
            let (all, more) =
              running-workers (pos_part r.num_workers) r
                (consume_called r.name r.consumer_tag r.exclusive r.no_wait ∷ l) in
            rw (fine, start_queue, call_consume) (inr (all, omega (arith, more)))
      ]

  -- What a run adds is a part of what its calls ask for.
  Ran-running :
      (plan : List Call) (y : Result (Unit {0}) × List Call)
      → Ran plan [] y
      → (running y.1 ≤ running plan) × (y.0 ≡ ok tt → running y.1 ≡ running plan)
  Ran-running plan (r, l) (inl (fine, all)) =
      let same : running l ≡ running plan =
        ap running all
        ∙ omega (arith, total-append weight (reverse plan) [], running-reverse plan) in
      (omega (arith, same), λ _. same)
  Ran-running plan (r, l) (inr (bad, (made, left, parts, e))) = (
    omega (
      arith,
      ap running e,
      ap running parts,
      total-append weight (reverse made) [],
      total-append weight made left,
      running-reverse made,
    ),
    λ fine. absurd (bad fine),
  )

  is_ok_lem : (r : Result (Unit {0})) → is_ok r ≡ true → r ≡ ok tt
  is_ok_lem (ok tt) h = refl
  is_ok_lem (err e) h = cc

  pub restart-running :
      (context : Option Error) (refused : List Call → QueueConfig → Option Error)
      (kept : List QueueConfig)
      → let (fine, l) = restart context refused kept in
        (running l ≤ wanted kept) × (fine ≡ true → running l ≡ wanted kept)
  unfolding restart
  restart-running context refused [] = (omega arith, λ _. refl)
  restart-running context refused (q ∷ rest) =
      let qs = q ∷ rest in
      let r = (start_with_store_queues_flag refused context qs false qs []).0 in
      elim (start_with_store_queues_flag-Outcome refused context qs false qs []) [
        | inl (bad, _, _, none_made) ↦
            (omega (arith, ap running none_made), λ fine. absurd (bad (is_ok_lem r fine)))
        | inr (_, _, _, ran) ↦
            let (part, all) = Ran-running (start_plans qs) _ ran in
            (part, λ fine. all (is_ok_lem r fine))
      ]
