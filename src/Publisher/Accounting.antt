-- ===== src/Publisher/Accounting.antt =====
-- Under every schedule: the counter of the pool counts the channels that exist, it stays within the
-- configured maximum, the buffer within its capacity, the mutex has one holder, and no goroutine
-- sends on or closes a closed channel.
use huma.Base.{
  int32_of, ℕ, zero, suc, ◌+◌, ◌≤◌, ◌≡◌, ◌≢◌, refl, Bool, true, false, List, [], ◌∷◌, none, some, ℤ,
  pos, ◌≤ℤ◌, arith, length, length-append, total, set, get_elem?, Option-cases, inl, inr,
}
use huma.Pool.{Pool, World, Broker, new_publisher_channel_pool}
use huma.Pool.Opening.{Outcome, new_publisher_channel_pool-Outcome}
use huma.Publisher.{
  Reply, Job, Pc, Goroutine, System, act, step, run, entering, checking, taking, testing, dropping,
  opening, retesting, redropping, validating, publishing, confirming, returning, closing,
  discarding, panicked,
}

-- 1 for a goroutine that has taken a channel out of the buffer and has not discounted it.
abbrev pub holds : Pc → ℕ
holds (testing _) = 1
holds (dropping _) = 1
holds (retesting _) = 1
holds (redropping _) = 1
holds (validating _) = 1
holds (publishing _) = 1
holds (confirming _) = 1
holds (returning _ _) = 1
holds (discarding _ _) = 1
holds _ = 0

-- 1 for the goroutine that holds the mutex between two steps.
abbrev pub holds_lock : Pc → ℕ
holds_lock opening = 1
holds_lock _ = 0

abbrev pub panics : Pc → ℕ
panics panicked = 1
panics _ = 0

abbrev pub bit : Bool → ℕ
bit true = 1
bit false = 0

-- The pool, seen with the channels that goroutines hold, those about to be opened and the panics.
pub record IsSound (p : Pool) (held locks panicking : ℕ) : Type 0 where
  pub counted : p.current_pool_size ≡ pos (length p.channels + held)
  pub bounded : pos (length p.channels + held + locks) ≤ℤ p.max_pool_size
  pub exclusive : locks ≡ bit p.locked
  pub buffered : length p.channels ≤ p.size
  pub same_close : p.closed ≡ p.chan_closed
  pub calm : panicking ≡ 0

pub act-IsSound :
    (r : Reply) (j : Job) (pc : Pc) (w : World) (held locks panicking : ℕ)
    → IsSound w.pool (held + holds pc) (locks + holds_lock pc) (panicking + panics pc)
    → let (pc', w') = act r j pc w in
      IsSound w'.pool (held + holds pc') (locks + holds_lock pc') (panicking + panics pc')
unfolding act
act-IsSound r j entering w held locks panicking h = ground arith
act-IsSound r j checking w held locks panicking h = ground arith
act-IsSound r j taking w held locks panicking h = ground arith
act-IsSound r j (returning ch e) w held locks panicking h =
    ground (arith, length-append w.pool.channels (ch ∷ []))
act-IsSound r j _ w held locks panicking h = ground arith

none-ne-some : {A : Type 0} {a : A} → none ≢ some a
none-ne-some h = cc

abbrev pub pcs : (Pc → ℕ) → List Goroutine → ℕ
pcs f = total λ g. f g.pc

-- The invariant of the whole system.
abbrev pub IsConsistent : System → Type 0
IsConsistent s =
    IsSound s.world.pool (pcs holds s.goroutines) (pcs holds_lock s.goroutines)
      (pcs panics s.goroutines)

pub without :
    (f : Pc → ℕ) (gs : List Goroutine) (i : ℕ) (g : Goroutine)
    → get_elem? gs i ≡ some g
    → (rest : ℕ) × (pcs f gs ≡ rest + f g.pc)
      × ((pc : Pc) → pcs f (set gs i (record g { pc = pc })) ≡ rest + f pc)
without f [] i g h = absurd (none-ne-some h)
without f (x ∷ xs) zero g h = (pcs f xs, ground arith, λ pc. omega arith)
without f (x ∷ xs) (suc i) g h =
    let (rest, e, k) = without f xs i g h in
    (f x.pc + rest, omega (arith, e), λ pc. omega (arith, k pc))

-- One step of any goroutine, with any reply, keeps the invariant.
pub step-IsConsistent : (s : System) (c : ℕ × Reply) → IsConsistent s → IsConsistent (step s c)
unfolding step
step-IsConsistent s (i, r) h = elim (Option-cases (get_elem? s.goroutines i)) [
  | inl missing ↦ rw (missing, step) h
  | inr (g, found) ↦
      let (held, held_e, held_k) = without holds s.goroutines i g found in
      let (locks, locks_e, locks_k) = without holds_lock s.goroutines i g found in
      let (panicking, panicking_e, panicking_k) = without panics s.goroutines i g found in
      rw (found, step)
        (rw (held_k, locks_k, panicking_k)
          (act-IsSound r g.job g.pc s.world held locks panicking
            (rw (held_e, locks_e, panicking_e) at h)))
]

-- From a sound system, every schedule leads to a sound system: the counter of the pool is the
-- number of channels that are in the buffer or in the hands of a goroutine, it is within the
-- maximum, the buffer is within its capacity, and nobody has sent on or closed a closed channel.
pub run-IsConsistent :
    (s : System) (cs : List (ℕ × Reply)) → IsConsistent s → IsConsistent (run s cs)
unfolding run
run-IsConsistent s [] h = h
run-IsConsistent s (c ∷ cs) h = run-IsConsistent (step s c) cs (step-IsConsistent s c h)

abbrev pub is_start : Pc → Bool
is_start entering = true
is_start closing = true
is_start _ = false

-- Goroutines that have not begun.
abbrev pub AllStart : List Goroutine → Type 0
AllStart [] = Unit {0}
AllStart (g ∷ gs) = (is_start g.pc ≡ true) × AllStart gs

start_holds_nothing :
    (pc : Pc) → is_start pc ≡ true → (holds pc ≡ 0) × (holds_lock pc ≡ 0) × (panics pc ≡ 0)
start_holds_nothing entering h = (refl, refl, refl)
start_holds_nothing _ h = ground arith

pub starts_hold_nothing :
    (gs : List Goroutine)
    → AllStart gs
    → (pcs holds gs ≡ 0) × (pcs holds_lock gs ≡ 0) × (pcs panics gs ≡ 0)
starts_hold_nothing [] h = (refl, refl, refl)
starts_hold_nothing (g ∷ gs) h =
    let (a, b, c) = starts_hold_nothing gs h.1 in
    let (x, y, z) = start_holds_nothing g.pc h.0 in (omega arith, omega arith, omega arith)

-- The pool that the constructor returned, its size within the maximum, whatever goroutines begin on
-- it and however they are scheduled: the counter never passes the maximum and counts the channels
-- in the buffer and in use, the buffer never passes its capacity, and nobody sends on or closes a
-- closed channel.
pub new_pool_run-IsConsistent :
    (b : Broker) (size : ℕ) (max : ℤ) (gs : List Goroutine) (cs : List (ℕ × Reply))
    → (new_publisher_channel_pool b size max []).0 ≡ none
    → pos size ≤ℤ int32_of max
    → AllStart gs
    → IsConsistent
        (run (record { world = (new_publisher_channel_pool b size max []).1; goroutines = gs }) cs)
new_pool_run-IsConsistent b size max gs cs built room start =
    run-IsConsistent _ cs (start-IsConsistent (new_publisher_channel_pool-Outcome b size max []))
  where
    start-IsConsistent :
        Outcome [] size size (int32_of max) (new_publisher_channel_pool b size max [])
        → IsConsistent
            (record { world = (new_publisher_channel_pool b size max []).1; goroutines = gs })
    start-IsConsistent (inl (refused, _, _)) = absurd (refused built)
    start-IsConsistent (inr (_, f)) =
        let (none_held, none_locked, none_panicked) = starts_hold_nothing gs start in
        rw (none_held, none_locked, none_panicked)
          (record {
            counted = ground (arith, f);
            bounded = ground (arith, f);
            exclusive = ground (arith, f);
            buffered = ground (arith, f);
            same_close = ground (arith, f);
            calm = refl;
          })
