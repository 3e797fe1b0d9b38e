-- ===== src/Go/Runs.antt =====
-- A chain of calls against the list of calls that it is to make.
use mathlib.Core.List.{reverse, reverse-append, append_assoc, append-nil}
use huma.Base.{◌≡◌, ◌≢◌, ◌⊎◌, inl, inr, refl, ◌∙◌, Bool, true, false, List, [], ◌++◌, if◌then◌else◌}
use huma.Go.Errors.{Error}
use huma.Go.Result.{Result, ok, err}
use huma.Go.Exec.{Exec, pure, lift, when, continue, ◌>>◌}

pub err-ne-ok : {e : Error} → ◌≢◌ {A = Result (Unit {0})} (err e) (ok tt)
err-ne-ok h = cc

module _ {A : Type 0} where
  -- A run from the log `ds` that makes the calls `p`, all of them if it succeeds, and a first part of
  -- them if it fails.
  abbrev pub Ran : List A → List A → Result (Unit {0}) × List A → Type 0
  Ran p ds (r, w) =
      ((r ≡ ok tt) × (w ≡ reverse p ++ ds))
      ⊎ ((r ≢ ok tt)
          × ((made : List A) × (left : List A) × (p ≡ made ++ left) × (w ≡ reverse made ++ ds)))

  pub record Emits (m : Exec (List A) (Unit {0})) (p : List A) : Type 0 where
    pub at : (ds : List A) → Ran p ds (m ds)

  pub Emits-pure : Emits (pure tt) []
  Emits-pure = record { at = λ ds. inl (refl, refl) }

  pub Emits-lift : (r : Result (Unit {0})) → Emits (lift r) []
  Emits-lift (ok tt) = record { at = λ ds. inl (refl, refl) }
  Emits-lift (err e) = record { at = λ ds. inr (err-ne-ok, ([], [], refl, refl)) }

  Ran-after :
      (p t ds w : List A) (r : Result (Unit {0}) × List A)
      → w ≡ reverse p ++ ds
      → Ran t w r
      → Ran (p ++ t) ds r
  Ran-after p t ds w (r, v) e (inl (fine, all)) =
      inl (fine, all ∙ rw (e, reverse-append p t, append_assoc))
  Ran-after p t ds w (r, v) e (inr (bad, (made, left, parts, some_made))) = inr (
    bad,
    (
      p ++ made,
      left,
      rw (parts, append_assoc),
      some_made ∙ rw (e, reverse-append p made, append_assoc),
    ),
  )

  pub Ran-bind :
      (k : Exec (List A) (Unit {0})) (p t ds : List A) (r : Result (Unit {0}) × List A)
      → Ran p ds r
      → Emits k t
      → Ran (p ++ t) ds (continue r (λ _. k))
  Ran-bind k p t ds (ok tt, w) (inl (_, e)) b = Ran-after p t ds w (k w) e (b.at w)
  Ran-bind k p t ds (ok tt, w) (inr (bad, _)) b = absurd (bad refl)
  Ran-bind k p t ds (err x, w) (inl (bad, _)) b = absurd (err-ne-ok bad)
  Ran-bind k p t ds (err x, w) (inr (bad, (made, left, parts, e))) b =
      inr (bad, (made, left ++ t, rw (parts, append_assoc), e))

  pub Emits-bind :
      (m k : Exec (List A) (Unit {0})) (p t : List A)
      → Emits m p
      → Emits k t
      → Emits (m >> k) (p ++ t)
  Emits-bind m k p t a b = record { at = λ ds. Ran-bind k p t ds (m ds) (a.at ds) b }

  pub Emits-when :
      (b : Bool) (m : Exec (List A) (Unit {0})) (p : List A)
      → Emits m p
      → Emits (when b m) (if b then p else [])
  Emits-when true m p a = a
  Emits-when false m p a = Emits-pure

  -- A success from an empty log leaves the calls, newest first.
  pub Ran-ok :
      (p : List A) (r : Result (Unit {0}) × List A) → r.0 ≡ ok tt → Ran p [] r → r.1 ≡ reverse p
  Ran-ok p (r, w) h (inl (_, all)) = rw (all, append-nil)
  Ran-ok p (r, w) h (inr (bad, _)) = absurd (bad h)
