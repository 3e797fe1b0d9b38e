-- ===== src/Session/Starting/Overtaken.antt =====
-- A reconnect between the two critical sections of `Start`.
use huma.Base.{
  ◌+◌, ◌≡◌, refl, sym, ◌∙◌, ap, inl, inr, Bool, List, [], ◌∷◌, ◌++◌, Option, none, arith, total,
  total-append,
}
use mathlib.Core.Path.{subst}
use huma.Go.Errors.{Error}
use huma.Go.Result.{Result, ok, err, ◌>>◌}
use huma.Go.Exec.{Exec, nil_or, continue}
use huma.Config.Queue.{QueueConfig}
use huma.Start.{
  Call, check_queues, start_queue, start_queues, start_checked, start_with_store_queues_flag,
}
use huma.Start.Consumers.{start_plan, start_plans, AllStartable, check_queues_iff}
use huma.Session.{Context, validate_context}
use huma.Session.Starting.{
  entering, starting, finished, Shared, checked, consumed, work, restart, Move, worked, reconnected,
  System, step_of, move, moves,
}
use huma.Session.Starting.Counts.{weight, running, wanted, wanted-append, start_queue-running}

-- `Consume` refuses nothing.
abbrev pub granting : List Call → QueueConfig → Option Error
granting _ _ = none

-- The rest of a call of `Start`, from its loop on.
abbrev pub loop_steps : List QueueConfig → List Move
loop_steps [] = worked 0 granting ∷ []
loop_steps (q ∷ qs) = worked 0 granting ∷ loop_steps qs

-- A call of `Start` that checks and keeps its queues, and is overtaken by a reconnect before it
-- starts their consumers.
abbrev pub overtaken : List QueueConfig → List Move
overtaken queues =
    worked 0 granting ∷ worked 0 granting ∷ reconnected none granting ∷ loop_steps queues

continued :
    (y : Result (Unit {0}) × List Call) (m : Exec (List Call) (Unit {0}))
    → y.0 ≡ ok tt
    → continue y (λ _. m) ≡ m y.1
continued (ok tt, l) m h = refl
continued (err e, l) m h = cc

AllStartable-append :
    (qs rs : List QueueConfig) → AllStartable qs → AllStartable rs → AllStartable (qs ++ rs)
AllStartable-append [] rs h k = k
AllStartable-append (q ∷ qs) rs h k = (h.0, AllStartable-append qs rs h.1 k)

module _ (p : QueueConfig → Bool) where
  granted :
      (q : QueueConfig) (l : List Call)
      → ((start_queue granting q l).0 ≡ ok tt)
        × (running p (start_queue granting q l).1 ≡ total (weight p) (start_plan q) + running p l)
  granted q l = elim (start_queue-running p granting q l) [
    | inl (bad, _, _) ↦ absurd (bad refl)
    | inr all ↦ all
  ]

  granted_all :
      (qs : List QueueConfig) (l : List Call)
      → ((start_queues granting qs l).0 ≡ ok tt)
        × (running p (start_queues granting qs l).1 ≡ wanted p qs + running p l)
  unfolding start_queues
  granted_all [] l = (refl, omega arith)
  granted_all (q ∷ qs) l =
      let (fine, more) = granted q l in
      let (rest, more_rest) = granted_all qs (start_queue granting q l).1 in
      subst (λ y. (y.0 ≡ ok tt) × (running p y.1 ≡ wanted p (q ∷ qs) + running p l))
        (sym (continued (start_queue granting q l) (start_queues granting qs) fine))
        (
          rest,
          omega (arith, more, more_rest, total-append (weight p) (start_plan q) (start_plans qs)),
        )

  restart_granted :
      (kept : List QueueConfig)
      → AllStartable kept
      → running p (restart none granting kept).1 ≡ wanted p kept
  unfolding restart start_with_store_queues_flag
  restart_granted [] fit = refl
  restart_granted (q ∷ rest) fit =
      let qs = q ∷ rest in
      rw ((check_queues_iff qs).1 fit, start_with_store_queues_flag, start_checked)
        (omega (arith, (granted_all qs []).1))

  abbrev Done : Shared → List QueueConfig → System → Type 0
  Done w qs y =
      (y.starters ≡ finished ∷ [])
      × (y.shared.kept ≡ w.kept)
      × (running p y.shared.calls ≡ wanted p qs + running p w.calls)

  loop-Done :
      (qs : List QueueConfig) (w : Shared)
      → Done w qs (moves (record { shared = w; starters = starting qs ∷ [] }) (loop_steps qs))
  unfolding moves move step_of work
  loop-Done [] w = (refl, refl, omega arith)
  loop-Done (q ∷ qs) w =
      let (fine, more) = granted q w.calls in
      let (over, kept, all) =
        loop-Done qs (record w { calls = (start_queue granting q w.calls).1 }) in
      subst
        (λ r. Done w (q ∷ qs) (
          moves
            (record {
              shared = record w { calls = (start_queue granting q w.calls).1 };
              starters = consumed q qs r ∷ [];
            })
            (loop_steps qs)))
        (sym fine)
        (
          over,
          kept,
          omega (arith, all, more, total-append (weight p) (start_plan q) (start_plans qs)),
        )

  -- The call has returned nil with its queues kept once, and the channel has the workers of those
  -- kept before, and of its own queues twice as many as they ask for.
  abbrev pub IsDoubled : Shared → List QueueConfig → System → Type 0
  IsDoubled w queues y =
      (y.starters ≡ finished ∷ [])
      × (y.shared.kept ≡ w.kept ++ queues)
      × (running p y.shared.calls ≡ wanted p w.kept + (wanted p queues + wanted p queues))

  -- `Start` with a live context and fit queues, on an SDK that keeps fit queues, when a reconnect comes
  -- in after the queues are kept and before their consumers are started, and `Consume` refuses
  -- nothing: `Start` returns nil, the SDK keeps its queues once, and the consume channel has the workers
  -- of the queues kept before once, and those of the queues of this call twice.
  pub overtaken_start-IsDoubled :
      (ctx : Context) (queues : List QueueConfig) (w : Shared)
      → validate_context ctx ≡ none
      → AllStartable queues
      → AllStartable w.kept
      → IsDoubled w queues (
          moves
            (record { shared = w; starters = entering ctx none queues ∷ [] })
            (overtaken queues))
  unfolding moves move step_of work
  overtaken_start-IsDoubled ctx queues w valid fit kept_fit =
      let all = w.kept ++ queues in
      let w' : Shared = record {
        kept = all;
        calls = (restart none granting all).1;
        is_replayed = (restart none granting all).0;
      } in
      let (over, kept, more) = loop-Done queues w' in
      subst
        (λ r. IsDoubled w queues (
          moves (record { shared = w; starters = checked queues r ∷ [] })
            (worked 0 granting ∷ reconnected none granting ∷ loop_steps queues)))
        (sym (ap (λ v. nil_or v >> check_queues queues) valid ∙ (check_queues_iff queues).1 fit))
        (
          over,
          kept,
          omega (
            arith,
            more,
            restart_granted all (AllStartable-append w.kept queues kept_fit fit),
            wanted-append p w.kept queues,
          ),
        )
