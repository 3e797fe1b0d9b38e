-- ===== src/Connection/Interrupts.antt =====
-- A shutdown and a dial that run at once: no socket stays open.
use mathlib.Core.Path.{subst}
use huma.Go.Errors.{Error}
use huma.Base.{
  Option-cases, ℕ, ◌≡◌, ◌⊎◌, inl, inr, refl, Bool, true, false, List, [], ◌∷◌, Option, some, arith,
  ◌==◌, ◌||◌,
}
use huma.Go.Result.{Result, ok, err}
use huma.Connection.{
  SocketCall, dialed, socket_closed, deadline_set, ConnectionState, Reply, Dialer, dialing,
  limiting, storing, checking, interrupting, closing, returned, Stopper, canceling, breaking,
  broken, dial_step, stop_step, Turn, dial_turn, stop_turn, context_done, Threads, turn, turns,
  interrupt,
}

-- Whether Close was called on a socket.
abbrev pub was_closed : ℕ → List SocketCall → Bool
was_closed c [] = false
was_closed c (socket_closed d ∷ l) = (d == c) || was_closed c l
was_closed c (_ ∷ l) = was_closed c l

-- The shutdown has interrupted what there was to interrupt.
abbrev pub is_broken : Stopper → Bool
is_broken (broken _) = true
is_broken _ = false

-- The sockets that were dialed.
abbrev pub dials : List SocketCall → List ℕ
dials [] = []
dials (dialed c ∷ l) = c ∷ dials l
dials (_ ∷ l) = dials l

abbrev pub AllClosed : List ℕ → List SocketCall → Type 0
AllClosed [] l = Unit {0}
AllClosed (c ∷ cs) l = (was_closed c l ≡ true) × AllClosed cs l

-- The socket that the dialer has: it is the one dialed, from a place on it is the one stored, and
-- once the dialer has returned it, a shutdown that is over has closed it.
abbrev IsCovered : Dialer → Stopper → ConnectionState → Type 0
IsCovered dialing p s = dials s.log ≡ []
IsCovered (limiting c) p s = dials s.log ≡ c ∷ []
IsCovered (storing c) p s = dials s.log ≡ c ∷ []
IsCovered (checking c) p s = (dials s.log ≡ c ∷ []) × (s.conn ≡ some c)
IsCovered (interrupting c) p s = (dials s.log ≡ c ∷ []) × (s.conn ≡ some c)
IsCovered (closing c) p s = (dials s.log ≡ c ∷ []) × (s.conn ≡ some c) × (was_closed c s.log ≡ true)
IsCovered (returned (ok c)) p s =
    (dials s.log ≡ c ∷ []) × (s.conn ≡ some c) × (is_broken p ≡ true → was_closed c s.log ≡ true)
IsCovered (returned (err e)) p s = AllClosed (dials s.log) s.log

-- Past its first step the shutdown has canceled the context.
abbrev IsCanceled : Stopper → ConnectionState → Type 0
IsCanceled p s = (p ≡ canceling) ⊎ (s.canceled ≡ true)

dial_step-IsCovered :
    (timeout : ℕ) (r : Reply) (d : Dialer) (p : Stopper) (s : ConnectionState)
    → IsCovered d p s
    → IsCanceled p s
    → IsCovered (dial_step timeout r d s).0 p (dial_step timeout r d s).1
unfolding dial_step
dial_step-IsCovered timeout r dialing p s h k = ground arith
dial_step-IsCovered timeout r (limiting c) p s h k = ground arith
dial_step-IsCovered timeout r (storing c) p s h k = ground arith
dial_step-IsCovered timeout r (checking c) p s h k = ground arith
dial_step-IsCovered timeout r (interrupting c) p s h k = ground arith
dial_step-IsCovered timeout r (closing c) p s h k = ground arith
dial_step-IsCovered timeout r (returned x) p s h k = h

AllClosed-more :
    (cs : List ℕ) (x : SocketCall) (l : List SocketCall) → AllClosed cs l → AllClosed cs (x ∷ l)
AllClosed-more [] x l h = tt
AllClosed-more (c ∷ cs) (dialed d) l h = (h.0, AllClosed-more cs (dialed d) l h.1)
AllClosed-more (c ∷ cs) (socket_closed d) l h =
    (ground arith, AllClosed-more cs (socket_closed d) l h.1)
AllClosed-more (c ∷ cs) (deadline_set d t) l h = (h.0, AllClosed-more cs (deadline_set d t) l h.1)

interrupt-AllClosed :
    (r : Reply) (s : ConnectionState)
    → AllClosed (dials s.log) s.log
    → AllClosed (dials (interrupt r s).1.log) (interrupt r s).1.log
unfolding interrupt
interrupt-AllClosed r s h = elim (Option-cases s.conn) [
  | inl no_conn ↦ simp (interrupt, no_conn) h
  | inr (c, held) ↦
      simp (interrupt, held) (AllClosed-more (dials s.log) _ _ (AllClosed-more (dials s.log) _ _ h))
]

stop_step-IsCovered :
    (r : Reply) (d : Dialer) (p : Stopper) (s : ConnectionState)
    → IsCovered d p s
    → IsCovered d (stop_step r p s).0 (stop_step r p s).1
unfolding stop_step
stop_step-IsCovered r dialing p s h = ground arith
stop_step-IsCovered r (limiting c) p s h = ground arith
stop_step-IsCovered r (storing c) p s h = ground arith
stop_step-IsCovered r (checking c) p s h = ground arith
stop_step-IsCovered r (interrupting c) p s h = ground arith
stop_step-IsCovered r (closing c) p s h = ground arith
stop_step-IsCovered r (returned (ok c)) canceling s h = (h.0, h.1, λ e. cc)
stop_step-IsCovered r (returned (ok c)) breaking s h = ground arith
stop_step-IsCovered r (returned (ok c)) (broken e) s h = h
stop_step-IsCovered r (returned (err e)) canceling s h = h
stop_step-IsCovered r (returned (err e)) breaking s h = interrupt-AllClosed r s h
stop_step-IsCovered r (returned (err e)) (broken x) s h = h

stop_step-IsCanceled :
    (r : Reply) (p : Stopper) (s : ConnectionState)
    → IsCanceled p s
    → IsCanceled (stop_step r p s).0 (stop_step r p s).1
unfolding stop_step
stop_step-IsCanceled r canceling s h = inr refl
stop_step-IsCanceled r breaking s h = ground arith
stop_step-IsCanceled r (broken e) s h = ground arith

dial_step-IsCanceled :
    (timeout : ℕ) (r : Reply) (d : Dialer) (p : Stopper) (s : ConnectionState)
    → IsCanceled p s
    → IsCanceled p (dial_step timeout r d s).1
unfolding dial_step
dial_step-IsCanceled timeout r dialing p s h = ground arith
dial_step-IsCanceled timeout r _ p s h = ground arith

abbrev IsSafe : Threads → Type 0
IsSafe t = IsCovered t.dialer t.stopper t.state × IsCanceled t.stopper t.state

canceled-IsCovered :
    (d : Dialer) (p : Stopper) (s : ConnectionState)
    → IsCovered d p s
    → IsCovered d p (record s { canceled = true })
canceled-IsCovered dialing p s h = h
canceled-IsCovered (limiting c) p s h = h
canceled-IsCovered (storing c) p s h = h
canceled-IsCovered (checking c) p s h = h
canceled-IsCovered (interrupting c) p s h = h
canceled-IsCovered (closing c) p s h = h
canceled-IsCovered (returned (ok c)) p s h = h
canceled-IsCovered (returned (err e)) p s h = h

turn-IsSafe : (timeout : ℕ) (t : Threads) (x : Turn) → IsSafe t → IsSafe (turn timeout t x)
unfolding turn
turn-IsSafe timeout t (dial_turn r) (h, k) = (
  dial_step-IsCovered timeout r t.dialer t.stopper t.state h k,
  dial_step-IsCanceled timeout r t.dialer t.stopper t.state k,
)
turn-IsSafe timeout t (stop_turn r) (h, k) =
    (stop_step-IsCovered r t.dialer t.stopper t.state h, stop_step-IsCanceled r t.stopper t.state k)
turn-IsSafe timeout t context_done (h, k) =
    (canceled-IsCovered t.dialer t.stopper t.state h, inr refl)

turns-IsSafe : (timeout : ℕ) (t : Threads) (xs : List Turn) → IsSafe t → IsSafe (turns timeout t xs)
unfolding turns
turns-IsSafe timeout t [] h = h
turns-IsSafe timeout t (x ∷ xs) h =
    turns-IsSafe timeout (turn timeout t x) xs (turn-IsSafe timeout t x h)

covered-AllClosed :
    (x : Result ℕ) (e : Option Error) (s : ConnectionState)
    → IsCovered (returned x) (broken e) s
    → AllClosed (dials s.log) s.log
covered-AllClosed (ok c) e s (one, held, h) = rw one (h refl, tt)
covered-AllClosed (err _) e s h = h

-- A dial and the first shutdown that run at once, under every schedule of their steps and wherever
-- the application's own context ends: when both have come to their end, Close was called on every
-- socket that was dialed, whether the dial returned it or failed.
pub turns-AllClosed :
    (timeout : ℕ) (s : ConnectionState) (xs : List Turn) (x : Result ℕ) (e : Option Error)
    → dials s.log ≡ []
    → let t = turns timeout (record { dialer = dialing; stopper = canceling; state = s }) xs in
      t.dialer ≡ returned x → t.stopper ≡ broken e → AllClosed (dials t.state.log) t.state.log
turns-AllClosed timeout s xs x e fresh over stopped =
    let t = turns timeout (record { dialer = dialing; stopper = canceling; state = s }) xs in
    let safe : IsSafe t = turns-IsSafe timeout _ xs (fresh, inl refl) in
    covered-AllClosed x e t.state (
      subst (λ d. IsCovered d (broken e) t.state) over
        (subst (λ p. IsCovered t.dialer p t.state) stopped safe.0))

-- An interrupt leaves the context alone.
pub canceled-interrupt : (r : Reply) (s : ConnectionState) → (interrupt r s).1.canceled ≡ s.canceled
unfolding interrupt
canceled-interrupt r s = ground arith
