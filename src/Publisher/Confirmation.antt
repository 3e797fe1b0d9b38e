-- ===== src/Publisher/Confirmation.antt =====
-- `publishAMQP` returns nil only after the broker has acknowledged the very message that it was
-- called with, under every schedule.
use mathlib.Core.Path.{subst}
use huma.Publisher.Accounting.{AllStart, is_start}
use huma.Base.{
  ap, ℕ, ◌⊎◌, zero, suc, ◌≡◌, Bool, true, false, List, [], ◌∷◌, Option, none, some, arith,
  get_elem?, set, Option-cases, inl, inr,
}
use huma.Amqp.{Event, confirmed}
use huma.Pool.{World}
use huma.Publisher.{
  Reply, Job, Pc, Goroutine, System, act, step, run, entering, checking, confirming, returning,
  finished,
}

-- The log holds a positive confirmation of the message of a job, published as the job asks.
abbrev pub IsConfirmed : Job → List Event → Type 0
IsConfirmed j [] = ⊥
IsConfirmed j (confirmed ch x k p ∷ l) =
    ((x ≡ j.exchange) × (k ≡ j.routing_key) × (p ≡ j.publishing)) ⊎ IsConfirmed j l
IsConfirmed j (_ ∷ l) = IsConfirmed j l

-- Where a nil error is about to be returned, or was.
abbrev pub succeeds : Pc → Bool
succeeds (returning _ none) = true
succeeds (finished none) = true
succeeds _ = false

abbrev pub Honest : Job → Pc → World → Type 0
Honest j pc w = succeeds pc ≡ true → IsConfirmed j w.log

pub act-log :
    (r : Reply) (j k : Job) (pc : Pc) (w : World)
    → IsConfirmed k w.log
    → IsConfirmed k (act r j pc w).1.log
unfolding act
act-log r j k entering w h = h
act-log r j k checking w h = ground arith
act-log r j k _ w h = ground arith

pub act-Honest :
    (r : Reply) (j : Job) (pc : Pc) (w : World)
    → Honest j pc w
    → Honest j (act r j pc w).0 (act r j pc w).1
unfolding act
act-Honest r j entering w h = ground arith
act-Honest r j (confirming ch) w h = ground arith
act-Honest r j _ w h = ground arith

abbrev AllHonest : World → List Goroutine → Type 0
AllHonest w [] = Unit {0}
AllHonest w (g ∷ gs) = Honest g.job g.pc w × AllHonest w gs

AllHonest-act :
    (r : Reply) (j : Job) (pc : Pc) (w : World) (gs : List Goroutine)
    → AllHonest w gs
    → AllHonest (act r j pc w).1 gs
AllHonest-act r j pc w [] h = tt
AllHonest-act r j pc w (g ∷ gs) h =
    (λ e. act-log r j g.job pc w (h.0 e), AllHonest-act r j pc w gs h.1)

AllHonest-set :
    (w : World) (gs : List Goroutine) (i : ℕ) (g : Goroutine)
    → AllHonest w gs
    → Honest g.job g.pc w
    → AllHonest w (set gs i g)
AllHonest-set w [] i g h k = tt
AllHonest-set w (x ∷ xs) zero g h k = (k, h.1)
AllHonest-set w (x ∷ xs) (suc i) g h k = (h.0, AllHonest-set w xs i g h.1 k)

AllHonest-get :
    (w : World) (gs : List Goroutine) (i : ℕ) (g : Goroutine)
    → get_elem? gs i ≡ some g
    → AllHonest w gs
    → Honest g.job g.pc w
AllHonest-get w [] i g e h = λ _. cc
AllHonest-get w (x ∷ xs) zero g e h =
    subst (λ (y : Option Goroutine). elim y [ none ↦ Unit {0} | some z ↦ Honest z.job z.pc w ]) e
      h.0
AllHonest-get w (x ∷ xs) (suc i) g e h = AllHonest-get w xs i g e h.1

step-AllHonest :
    (s : System) (c : ℕ × Reply)
    → AllHonest s.world s.goroutines
    → AllHonest (step s c).world (step s c).goroutines
unfolding step
step-AllHonest s (i, r) h = elim (Option-cases (get_elem? s.goroutines i)) [
  | inl missing ↦ rw (missing, step) h
  | inr (g, found) ↦
      rw (found, step)
        (AllHonest-set (act r g.job g.pc s.world).1 s.goroutines i _
          (AllHonest-act r g.job g.pc s.world s.goroutines h)
          (act-Honest r g.job g.pc s.world (AllHonest-get s.world s.goroutines i g found h)))
]

run-AllHonest :
    (s : System) (cs : List (ℕ × Reply))
    → AllHonest s.world s.goroutines
    → AllHonest (run s cs).world (run s cs).goroutines
unfolding run
run-AllHonest s [] h = h
run-AllHonest s (c ∷ cs) h = run-AllHonest (step s c) cs (step-AllHonest s c h)

not_both : (pc : Pc) → is_start pc ≡ true → succeeds pc ≡ true → ⊥
not_both entering h k = cc
not_both _ h k = ground arith

AllStart-AllHonest : (w : World) (gs : List Goroutine) → AllStart gs → AllHonest w gs
AllStart-AllHonest w [] h = tt
AllStart-AllHonest w (g ∷ gs) h = (λ e. ground (arith, not_both g.pc), AllStart-AllHonest w gs h.1)

-- Goroutines that begin with an empty log, under any schedule: one that has returned nil from
-- `publishAMQP` has had its own message, with its exchange and routing key, confirmed.
pub finished-IsConfirmed :
    (s : System) (cs : List (ℕ × Reply)) (i : ℕ) (g : Goroutine)
    → AllStart s.goroutines
    → s.world.log ≡ []
    → get_elem? (run s cs).goroutines i ≡ some g
    → g.pc ≡ finished none
    → IsConfirmed g.job (run s cs).world.log
finished-IsConfirmed s cs i g start fresh found done =
    AllHonest-get (run s cs).world (run s cs).goroutines i g found
      (run-AllHonest s cs (AllStart-AllHonest s.world s.goroutines start)) (ap succeeds done)
