-- ===== src/Connection/Raw/Owned.antt =====
-- A pool interrupts the socket of its own connection, and no other.
use mathlib.Core.Path.{subst}
use huma.Base.{
  ℕ, zero, suc, ◌+◌, ◌≤◌, ◌<◌, ◌≡◌, ◌⊎◌, refl, sym, ap, inl, inr, List, [], ◌∷◌, ◌++◌, none, some,
  arith, length, get_elem?, get_elem?-append, Option-cases, ◌==◌, if◌then◌else◌, false,
}
use huma.Connection.{SocketCall, deadline_set, socket_closed, Reply}
use huma.Connection.Raw.{
  RawPool, current, interrupt_pool, Attempt, unreached, refused, established, Sockets, stored,
  dial_config, add_pool, Move, connects, gives_up, interrupted, move, moves,
}

-- How often a socket was closed, and how often a pool was interrupted.
abbrev pub closes : ℕ → List SocketCall → ℕ
closes k [] = 0
closes k (socket_closed c ∷ l) = (if c == k then 1 else 0) + closes k l
closes k (_ ∷ l) = closes k l

abbrev pub interrupts : ℕ → List Move → ℕ
interrupts i [] = 0
interrupts i (gives_up j _ ∷ ms) = (if j == i then 1 else 0) + interrupts i ms
interrupts i (_ ∷ ms) = interrupts i ms

interrupts-cons :
    (i : ℕ) (m : Move) (ms : List Move)
    → interrupts i (m ∷ ms) ≡ interrupts i (m ∷ []) + interrupts i ms
interrupts-cons i (connects a) ms = omega arith
interrupts-cons i (gives_up j r) ms = omega arith

-- Every pool has the socket of its connection, which was dialed before and is no other pool's.
record IsOwned (y : Sockets) : Type 0 where
  own :
      (i : ℕ) (p : RawPool)
      → get_elem? y.pools i ≡ some p
      → (p.raw_conn ≡ some p.conn.socket) × (p.conn.socket < y.dials)
  apart :
      (i j : ℕ) (p q : RawPool)
      → get_elem? y.pools i ≡ some p
      → get_elem? y.pools j ≡ some q
      → p.conn.socket ≡ q.conn.socket
      → i ≡ j
  unused : (k : ℕ) → y.dials ≤ k → closes k y.state.log ≡ 0

-- At the end of a list.
last_cases :
    {A : Type 0} (xs : List A) (x a : A) (i : ℕ)
    → get_elem? (xs ++ x ∷ []) i ≡ some a
    → (get_elem? xs i ≡ some a) ⊎ ((i ≡ length xs) × (a ≡ x))
last_cases [] x a zero h = inr (refl, cc)
last_cases [] x a (suc i) h = cc
last_cases (y ∷ xs) x a zero h = inl h
last_cases (y ∷ xs) x a (suc i) h = elim (last_cases xs x a i h) [
  | inl there ↦ inl there
  | inr (at_end, same) ↦ inr (ap (λ (n : ℕ). suc n) at_end, same)
]

stored-IsOwned : (y : Sockets) → IsOwned y → IsOwned (stored y)
unfolding stored
stored-IsOwned y h = record {
  own = λ i p found. let (raw, bound) = h.own i p found in (raw, omega (arith, bound));
  apart = h.apart;
  unused = λ k bound. h.unused k (omega (arith, bound));
}

connects-IsOwned : (a : Attempt) (y : Sockets) → IsOwned y → IsOwned (move y (connects a))
unfolding move add_pool dial_config stored current
connects-IsOwned (unreached e) y h = h
connects-IsOwned (refused e) y h = stored-IsOwned y h
connects-IsOwned (established c) y h =
    let new : RawPool = record {
      conn = record { number = c; socket = y.dials };
      raw_conn = some y.dials;
    } in
    record {
      own = λ i p found. elim (last_cases y.pools new p i found) [
        | inl there ↦ let (raw, bound) = h.own i p there in (raw, omega (arith, bound))
        | inr (_, same) ↦ rw same (refl, omega arith)
      ];
      apart = λ i j p q at_i at_j same. elim (last_cases y.pools new p i at_i) [
        | inl there ↦ elim (last_cases y.pools new q j at_j) [
          | inl there_too ↦ h.apart i j p q there there_too same
          | inr (_, is_new) ↦
              absurd (
                omega
                  (arith, (h.own i p there).1, same, ap (λ (x : RawPool). x.conn.socket) is_new))
        ]
        | inr (end_i, is_new) ↦ elim (last_cases y.pools new q j at_j) [
          | inl there_too ↦ absurd (
              omega
                (arith, (h.own j q there_too).1, same, ap (λ (x : RawPool). x.conn.socket) is_new))
          | inr (end_j, _) ↦ omega (arith, end_i, end_j)
        ]
      ];
      unused = λ k bound. h.unused k (omega (arith, bound));
    }

-- A publish that gives up closes the socket of its pool's connection.
gives_up_lem :
    (i : ℕ) (r : Reply) (y : Sockets) (p : RawPool)
    → get_elem? y.pools i ≡ some p
    → p.raw_conn ≡ some p.conn.socket
    → move y (gives_up i r) ≡ record y {
      state = record y.state {
        log = socket_closed p.conn.socket ∷ deadline_set p.conn.socket r.now ∷ y.state.log;
      };
    }
unfolding move interrupted interrupt_pool
gives_up_lem i r y p found raw = simp (move, interrupted, interrupt_pool, found, raw)

gives_up-IsOwned : (i : ℕ) (r : Reply) (y : Sockets) → IsOwned y → IsOwned (move y (gives_up i r))
unfolding move interrupted
gives_up-IsOwned i r y h = elim (Option-cases (get_elem? y.pools i)) [
  | inl missing ↦ rw (missing, move) h
  | inr (p, found) ↦
      let (raw, bound) = h.own i p found in
      subst IsOwned (sym (gives_up_lem i r y p found raw)) (record {
        own = h.own;
        apart = h.apart;
        unused = λ k after. ground (arith, h.unused k after, bound, after);
      })
]

move-IsOwned : (y : Sockets) (m : Move) → IsOwned y → IsOwned (move y m)
move-IsOwned y (connects a) h = connects-IsOwned a y h
move-IsOwned y (gives_up i r) h = gives_up-IsOwned i r y h

moves-IsOwned : (y : Sockets) (ms : List Move) → IsOwned y → IsOwned (moves y ms)
unfolding moves
moves-IsOwned y [] h = h
moves-IsOwned y (m ∷ ms) h = moves-IsOwned (move y m) ms (move-IsOwned y m h)

-- Pools are only added.
move-stays :
    (y : Sockets) (m : Move) (i : ℕ) (p : RawPool)
    → get_elem? y.pools i ≡ some p
    → get_elem? (move y m).pools i ≡ some p
unfolding move add_pool dial_config stored interrupted
move-stays y (connects (unreached e)) i p h = h
move-stays y (connects (refused e)) i p h = h
move-stays y (connects (established c)) i p h = get_elem?-append y.pools _ i p h
move-stays y (gives_up j r) i p h = elim (Option-cases (get_elem? y.pools j)) [
  | inl missing ↦ rw (missing, move) h
  | inr (q, found) ↦ rw (found, move, interrupted) h
]

moves-stays :
    (y : Sockets) (ms : List Move) (i : ℕ) (p : RawPool)
    → get_elem? y.pools i ≡ some p
    → get_elem? (moves y ms).pools i ≡ some p
unfolding moves
moves-stays y [] i p h = h
moves-stays y (m ∷ ms) i p h = moves-stays (move y m) ms i p (move-stays y m i p h)

-- A move closes a socket once at most, and only if it interrupts the pool that has the socket.
move-closes :
    (y : Sockets) (m : Move) (i k : ℕ)
    → IsOwned y
    → ((j : ℕ) (q : RawPool) → get_elem? y.pools j ≡ some q → q.conn.socket ≡ k → j ≡ i)
    → closes k (move y m).state.log ≤ closes k y.state.log + interrupts i (m ∷ [])
unfolding move add_pool dial_config stored interrupted
move-closes y (connects (unreached e)) i k h only = omega arith
move-closes y (connects (refused e)) i k h only = omega arith
move-closes y (connects (established c)) i k h only = omega arith
move-closes y (gives_up j r) i k h only = elim (Option-cases (get_elem? y.pools j)) [
  | inl missing ↦ rw (missing, move) (omega arith)
  | inr (q, found) ↦
      subst (λ z. closes k z.state.log ≤ closes k y.state.log + interrupts i (gives_up j r ∷ []))
        (sym (gives_up_lem j r y q found (h.own j q found).0)) (ground (arith, only j q found))
]

moves-closes :
    (y : Sockets) (ms : List Move) (i : ℕ) (p : RawPool)
    → IsOwned y
    → get_elem? (moves y ms).pools i ≡ some p
    → closes p.conn.socket (moves y ms).state.log
      ≤ closes p.conn.socket y.state.log + interrupts i ms
unfolding moves
moves-closes y [] i p h found = omega arith
moves-closes y (m ∷ ms) i p h found =
    let only : (j : ℕ) (q : RawPool)
        → get_elem? y.pools j ≡ some q
        → q.conn.socket ≡ p.conn.socket
        → j ≡ i =
      λ j q at_j same.
        (moves-IsOwned (move y m) ms (move-IsOwned y m h)).apart j i q p
          (moves-stays (move y m) ms j q (move-stays y m j q at_j)) found same in
    omega (
      arith,
      moves-closes (move y m) ms i p (move-IsOwned y m h) found,
      move-closes y m i p.conn.socket h only,
      interrupts-cons i m ms,
    )

abbrev pub none_dialed : Sockets
none_dialed = record {
  state = record { conn = none; canceled = false; log = [] };
  pools = [];
  dials = 0;
}

-- Whatever NewSDK and reconnects meet when they dial, and whenever publishes that hold a pool, be it of
-- an earlier connection, give up: the socket that a pool interrupts is that of its own connection,
-- and this socket is closed by publishes at most as often as one that holds this pool gives up.
pub moves-AreOwned :
    (ms : List Move) (i : ℕ) (p : RawPool)
    → let y = moves none_dialed ms in
      get_elem? y.pools i ≡ some p
      → (p.raw_conn ≡ some p.conn.socket) × (closes p.conn.socket y.state.log ≤ interrupts i ms)
moves-AreOwned ms i p found =
    let start : IsOwned none_dialed = record {
      own = λ i p h. cc;
      apart = λ i j p q h k e. cc;
      unused = λ k h. refl;
    } in
    (
      ((moves-IsOwned none_dialed ms start).own i p found).0,
      omega (arith, moves-closes none_dialed ms i p start found),
    )
