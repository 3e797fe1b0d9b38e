-- ===== src/Shutdown/Orderly.antt =====
-- The invariant of a shutdown, kept by every step of a caller and of the goroutines.
use huma.Base.{
  ℕ, suc, ◌≡◌, ◌≢◌, ◌⊎◌, inl, inr, refl, ◌∙◌, sym, true, false, List, [], ◌∷◌, ◌++◌, Option, none,
  some, arith, ℕ-cases, Option-cases, Bool-cases, if◌then◌else◌,
}
use huma.Connection.Interrupts.{canceled-interrupt}
use huma.Pool.{Pool}
use huma.Pool.Draining.{closings, close_pool_log}
use huma.Shutdown.{
  Teardown, pool_closed, channel_closed, conn_closed, Sdk, Reply, Pc, entering, signalling, waiting,
  closing, gave_up, finished, signal, wait, close_publisher_pool, close_consume_channel,
  close_connection, close_all, act, Move, stepped, goroutine_ended, goroutine_started, worker_added,
  reconnected, pool_moved, goroutines_move,
}

-- All that is to be closed, each once, newest first.
abbrev pub pool_steps : Option Pool → List Teardown
pool_steps none = []
pool_steps (some p) = pool_closed (closings p) ∷ []

abbrev pub channel_steps : Option ℕ → List Teardown
channel_steps none = []
channel_steps (some ch) = channel_closed ch ∷ []

abbrev pub conn_steps : Option ℕ → List Teardown
conn_steps none = []
conn_steps (some c) = conn_closed c ∷ []

abbrev pub teardown : Option ℕ → Option ℕ → Option Pool → List Teardown
teardown c ch p = conn_steps c ++ (channel_steps ch ++ (pool_steps p ++ []))

-- Nothing was closed yet, or everything was, once.
abbrev pub IsOpen : Sdk → Type 0
IsOpen s = (s.close_once ≡ false) × (s.log ≡ []) × (s.close_err ≡ none)

-- With the pool `p` that the SDK held before: it holds none any more.
abbrev pub IsClosed : Option Pool → Sdk → Type 0
IsClosed p s =
    (s.close_once ≡ true)
    × (s.running ≡ 0)
    × (s.connection_state.canceled ≡ true)
    × (s.publisher_pool ≡ none)
    × (s.log ≡ teardown s.conn s.channel p)

-- The pool that the SDK holds as long as nothing was closed, and the one it held last after that.
abbrev pub held_pool : Option Pool → Sdk → Option Pool
held_pool p s = if s.close_once then p else s.publisher_pool

pub record IsOrderly (p : Option Pool) (s : Sdk) : Type 0 where
  pub stage : IsOpen s ⊎ IsClosed p s
  pub signalled : s.shutdown_once ≡ true → s.connection_state.canceled ≡ true

-- What a caller may rely on where it stands.
abbrev pub Fits : Pc → Sdk → Type 0
Fits waiting s = s.shutdown_once ≡ true
Fits closing s = (s.shutdown_once ≡ true) × (s.running ≡ 0)
Fits (finished e) s = (s.close_once ≡ true) × (e ≡ s.close_err)
Fits _ s = Unit {0}

-- What no step of anyone undoes.
pub record Extends (s t : Sdk) : Type 0 where
  pub once : s.shutdown_once ≡ true → t.shutdown_once ≡ true
  pub quiet : s.running ≡ 0 → t.running ≡ 0
  pub still_closed : s.close_once ≡ true → t.close_once ≡ true
  pub same_error : s.close_once ≡ true → s.close_err ≡ t.close_err

pub Fits-Extends : (pc : Pc) (s t : Sdk) → Extends s t → Fits pc s → Fits pc t
Fits-Extends entering s t x h = tt
Fits-Extends signalling s t x h = tt
Fits-Extends waiting s t x h = x.once h
Fits-Extends closing s t x h = (x.once h.0, x.quiet h.1)
Fits-Extends (gave_up e) s t x h = tt
Fits-Extends (finished e) s t x h = (x.still_closed h.0, h.1 ∙ x.same_error h.0)

pool_lem : (r : Reply) (p : Option Pool) → (close_publisher_pool r p).1 ≡ pool_steps p
unfolding close_publisher_pool
pool_lem r none = refl
pool_lem r (some p) = rw (close_pool_log r.broker p) refl

channel_lem : (r : Reply) (ch : Option ℕ) → (close_consume_channel r ch).1 ≡ channel_steps ch
unfolding close_consume_channel
channel_lem r none = refl
channel_lem r (some ch) = refl

conn_lem : (r : Reply) (c : Option ℕ) → (close_connection r c).1 ≡ conn_steps c
unfolding close_connection
conn_lem r none = refl
conn_lem r (some c) = refl

close_all_log :
    (r : Reply) (s : Sdk)
    → s.log ≡ []
    → (close_all r s).log ≡ teardown s.conn s.channel s.publisher_pool
unfolding close_all
close_all_log r s h =
    simp (pool_lem r s.publisher_pool, channel_lem r s.channel, conn_lem r s.conn, h)

pub held_pool-IsOrderly : (p : Option Pool) (s : Sdk) → IsOrderly p s → IsOrderly (held_pool p s) s
held_pool-IsOrderly p s h = elim (Bool-cases s.close_once) [
  | inl over ↦ simp (held_pool, over) h
  | inr new ↦ elim h.stage [
    | inl open_yet ↦ record { stage = inl open_yet; signalled = h.signalled }
    | inr (over, _, _, _, _) ↦ absurd (ground arith)
  ]
]

signal-IsOrderly :
    (r : Reply) {p : Option Pool} (s : Sdk)
    → IsOrderly p s
    → s.shutdown_once ≡ false
    → IsOrderly p (signal r s)
unfolding signal
signal-IsOrderly r s h new =
    let canceled : (signal r s).connection_state.canceled ≡ true = canceled-interrupt r.socket _ in
    record {
      stage = elim h.stage [
        | inl open_yet ↦ inl open_yet
        | inr (over, quiet, _, no_pool, everything) ↦
            inr (over, quiet, canceled, no_pool, everything)
      ];
      signalled = λ _. canceled;
    }

close_all-IsOrderly :
    (r : Reply) {p : Option Pool} (s : Sdk)
    → IsOrderly p s
    → s.close_once ≡ false
    → s.shutdown_once ≡ true
    → s.running ≡ 0
    → IsOrderly s.publisher_pool (close_all r s)
unfolding close_all
close_all-IsOrderly r s h new shut quiet = elim h.stage [
  | inr (over, _, _, _, _) ↦ absurd (ground arith)
  | inl (_, empty, _) ↦ record {
    stage = inr (refl, quiet, h.signalled shut, refl, close_all_log r s empty);
    signalled = h.signalled;
  }
]

act_lem :
    (r : Reply) (pc : Pc) (p : Option Pool) (s : Sdk)
    → Fits pc s
    → (s.close_once ≡ false → p ≡ s.publisher_pool)
    → IsOrderly p s
    → IsOrderly p (act r pc s).1
unfolding act
act_lem r entering p s f held h = h
act_lem r signalling p s f held h = elim (Bool-cases s.shutdown_once) [
  | inl over ↦ simp (act, over) h
  | inr new ↦ simp (act, new) (signal-IsOrderly r s h new)
]
act_lem r waiting p s f held h = h
act_lem r closing p s f held h = elim (Bool-cases s.close_once) [
  | inl over ↦ simp (act, over) h
  | inr new ↦ simp (act, new) (rw (held new) (close_all-IsOrderly r s h new f.0 f.1))
]
act_lem r (gave_up e) p s f held h = h
act_lem r (finished e) p s f held h = h

held_lem : (p : Option Pool) (s : Sdk) → s.close_once ≡ false → held_pool p s ≡ s.publisher_pool
held_lem p s new = rw new refl

-- A step keeps the order, with the pool that is held before it.
pub act-IsOrderly :
    (r : Reply) (pc : Pc) (p : Option Pool) (s : Sdk)
    → Fits pc s
    → IsOrderly p s
    → IsOrderly (held_pool p s) (act r pc s).1
act-IsOrderly r pc p s f h =
    act_lem r pc (held_pool p s) s f (held_lem p s) (held_pool-IsOrderly p s h)

pub act-Extends : (r : Reply) (pc : Pc) (s : Sdk) → Extends s (act r pc s).1
unfolding act signal close_all
act-Extends r entering s = ground arith
act-Extends r _ s = ground arith

pub act-Fits : (r : Reply) (pc : Pc) (s : Sdk) → Fits pc s → Fits (act r pc s).0 (act r pc s).1
unfolding act signal wait close_all
act-Fits r entering s h = ground arith
act-Fits r _ s h = ground arith

-- `Start` starts no worker when no goroutine runs any more.
abbrev pub IsTimely : Move → Sdk → Type 0
IsTimely worker_added s = s.running ≢ 0
IsTimely _ s = Unit {0}

pub goroutines-Extends : (m : Move) (s : Sdk) → IsTimely m s → Extends s (goroutines_move m s)
unfolding goroutines_move
goroutines-Extends goroutine_ended s timely = ground arith
goroutines-Extends worker_added s timely = ground (arith, timely)
goroutines-Extends _ s timely = ground arith

-- While a goroutine runs nothing was closed, and what the goroutines do closes nothing.
still_open :
    {p : Option Pool} (s t : Sdk) {n : ℕ}
    → IsOrderly p s
    → s.running ≡ suc n
    → t.close_once ≡ s.close_once
    → t.log ≡ s.log
    → t.close_err ≡ s.close_err
    → (t.shutdown_once ≡ s.shutdown_once) × (t.connection_state ≡ s.connection_state)
    → IsOrderly p t
still_open s t h more a b c (d, e) = elim h.stage [
  | inr (_, quiet, _, _, _) ↦ absurd (ground arith)
  | inl (x, y, z) ↦ record {
    stage = inl (a ∙ x, b ∙ y, c ∙ z);
    signalled = λ k. rw e (h.signalled (sym d ∙ k));
  }
]

pub goroutines-IsOrderly :
    {p : Option Pool} (m : Move) (s : Sdk)
    → IsTimely m s
    → IsOrderly p s
    → IsOrderly p (goroutines_move m s)
unfolding goroutines_move
goroutines-IsOrderly (stepped i r) s timely h = h
goroutines-IsOrderly goroutine_ended s timely h = elim (ℕ-cases s.running) [
  | inl none_left ↦ simp (goroutines_move, none_left) h
  | inr (n, more) ↦ simp (goroutines_move, more) (still_open s _ h more refl refl refl (refl, refl))
]
goroutines-IsOrderly goroutine_started s timely h = elim (ℕ-cases s.running) [
  | inl none_left ↦ simp (goroutines_move, none_left) h
  | inr (n, more) ↦ simp (goroutines_move, more) (still_open s _ h more refl refl refl (refl, refl))
]
goroutines-IsOrderly worker_added s timely h = elim (ℕ-cases s.running) [
  | inl none_left ↦ absurd (timely none_left)
  | inr (n, more) ↦ still_open s _ h more refl refl refl (refl, refl)
]
goroutines-IsOrderly (reconnected c ch p) s timely h = elim (ℕ-cases s.running) [
  | inl none_left ↦ simp (goroutines_move, none_left) h
  | inr (n, more) ↦ simp (goroutines_move, more) (still_open s _ h more refl refl refl (refl, refl))
]
goroutines-IsOrderly (pool_moved p) s timely h = elim (Option-cases s.publisher_pool) [
  | inl no_pool ↦ simp (goroutines_move, no_pool) h
  | inr (_, held) ↦ elim h.stage [
    | inl open_yet ↦
        simp (goroutines_move, held) (record { stage = inl open_yet; signalled = h.signalled })
    | inr (_, _, _, no_pool, _) ↦ absurd (ground arith)
  ]
]
