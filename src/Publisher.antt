-- ===== src/Publisher.antt =====
-- `publishAMQP` (rabbitmqsdk.go) and `get`, `put` and `close` of publisher_pool.go, as goroutines
-- that share one pool. A program counter stands at each place where another goroutine may act
-- between two accesses to what is shared; `act` is one step of one goroutine. A section under the
-- mutex that makes one access is one step; `get` makes several, and holds `locked` between them.
-- A goroutine that waits for the mutex or for a channel stays where it is.
mod Tests
mod State
pub mod Accounting
pub mod Confirmation
pub mod Progress
pub mod Overflow
pub mod Solo
pub use State.*
use huma.Base.{
  ℕ, Bool, true, false, ◌||◌, List, [], ◌∷◌, ◌++◌, Option, none, some, String, length, set,
  get_elem?, ltb, ltb_ℤ, if◌then◌else◌,
}
use huma.Go.Errors.{
  Error, context_nil, pool_unavailable, pool_closed, negatively_acknowledged, wrap, join_with,
}
use huma.Go.Result.{Result, ok, err}
use huma.Amqp.{Publishing, Event, opened, closed, published, confirmed, interrupted}
use huma.Pool.{Pool, World, add_one, drop_one, note_close}

abbrev get_failed : Error → Pc
get_failed e = finished (some (wrap "get publisher channel" e))

-- <-p.channels: the oldest entry and the rest.
abbrev pub receive : List ℕ → Option (ℕ × List ℕ)
receive [] = none
receive (ch ∷ rest) = some (ch, rest)

-- A non-blocking receive (`default` is `sizing`), and the blocking one of the select, where the
-- context may be done as well.
take_channel : Pool → World → Pc × World
take_channel p w = elim (receive p.channels) [
  | some (ch, rest) ↦ (testing ch, record w { pool = record p { channels = rest } })
  | none ↦ (if p.chan_closed then get_failed pool_closed else sizing, w)
]

abbrev stop_waiting : Option Error → Pc
stop_waiting none = waiting
stop_waiting (some e) = get_failed (wrap "wait for available publisher channel" e)

wait_channel : Reply → Pool → World → Pc × World
wait_channel r p w = elim (receive p.channels) [
  | some (ch, rest) ↦ elim r.wait_ctx [
    | none ↦ (retesting ch, record w { pool = record p { channels = rest } })
    | some e ↦
        if r.receives
        then (retesting ch, record w { pool = record p { channels = rest } })
        else (stop_waiting (some e), w)
  ]
  | none ↦
      if p.chan_closed
      then elim r.wait_ctx [
        | none ↦ (get_failed pool_closed, w)
        | some e ↦ (if r.receives then get_failed pool_closed else stop_waiting (some e), w)
      ]
      else (stop_waiting r.wait_ctx, w)
]

-- The section under the mutex, up to the second test of the size.
lock_pool : Pool → World → Pc × World
lock_pool p w =
    if p.locked
    then (locking, w)
    else if p.closed
    then (get_failed pool_closed, w)
    else if ltb_ℤ p.current_pool_size p.max_pool_size
    then (opening, record w { pool = record p { locked = true } })
    else (waiting, w)

-- The rest of that section: open a channel, put it in confirm mode, count it, unlock.
open_channel : Reply → Pool → World → Pc × World
open_channel r p w =
    let free = record p { locked = false } in
    elim r.channel [
      | err e ↦ (get_failed e, record w { pool = free })
      | ok ch ↦ elim r.confirm_mode [
        | some e ↦ (
          get_failed (join_with e r.close_channel),
          record { pool = free; log = closed ch ∷ opened ch ∷ w.log },
        )
        | none ↦ (validating ch, record { pool = add_one free; log = opened ch ∷ w.log })
      ]
    ]

-- publishAMQP between `get` and `put`: the write, which the select may give up waiting for, and
-- the confirmation of the broker.
publish_message : Reply → Job → ℕ → World → Pc × World
publish_message r j ch w =
    let sent = published ch j.exchange j.routing_key j.publishing ∷ w.log in
    let answer : Pc = elim r.publish [
      | some e ↦ returning ch (some (wrap "publish message" e))
      | none ↦ confirming ch
    ] in
    elim r.ctx [
      | none ↦ (answer, record w { log = sent })
      | some e ↦ if r.receives then (answer, record w { log = sent }) else (
        returning ch (some (wrap "publish message" e)),
        record w { log = interrupted ∷ sent },
      )
    ]

await_confirmation : Reply → Job → ℕ → World → Pc × World
await_confirmation r j ch w = elim r.wait_confirmation [
  | some e ↦ (returning ch (some (wrap "wait for publisher confirmation" e)), w)
  | none ↦
      if r.acknowledged
      then (
        returning ch none,
        record w { log = confirmed ch j.exchange j.routing_key j.publishing ∷ w.log },
      )
      else (returning ch (some negatively_acknowledged), w)
]

-- put, whose own error is only logged by its caller.
put_channel : Reply → ℕ → Option Error → Pool → World → Pc × World
put_channel r ch result p w =
    if p.locked
    then (returning ch result, w)
    else if p.closed || r.is_closed
    then (
      finished result,
      record { pool = drop_one p; log = if r.is_closed then w.log else closed ch ∷ w.log },
    )
    else if p.chan_closed
    then (panicked, w)
    else if ltb (length p.channels) p.size
    then (finished result, record w { pool = record p { channels = p.channels ++ ch ∷ [] } })
    else (finished result, record { pool = drop_one p; log = closed ch ∷ w.log })

close_channels : Pool → World → Pc × World
close_channels p w =
    if p.locked
    then (closing, w)
    else if p.closed
    then (stopped none, w)
    else if p.chan_closed
    then (panicked, w)
    else (draining none, record w { pool = record p { closed = true; chan_closed = true } })

drain_channel : Option Error → Pool → World → Pc × World
drain_channel errs p w = elim (receive p.channels) [
  | some (ch, rest) ↦ (discarding ch errs, record w { pool = record p { channels = rest } })
  | none ↦ (if p.chan_closed then stopped errs else draining errs, w)
]

enter : Reply → Pc
enter r = elim r.ctx [
  | some e ↦ finished (some e)
  | none ↦ if r.pool_is_nil then finished (some pool_unavailable) else checking
]

-- One step of a goroutine.
unfoldable pub act : Reply → Job → Pc → World → Pc × World
unfolding take_channel wait_channel lock_pool open_channel publish_message await_confirmation
    put_channel close_channels drain_channel enter
act r j entering w = (enter r, w)
act r j checking w = elim r.wait_ctx [
  | some e ↦ (get_failed (wrap "get publisher channel" e), w)
  | none ↦ (taking, w)
]
act r j taking w = take_channel w.pool w
act r j (testing ch) w = (if r.is_closed then dropping ch else validating ch, w)
act r j (dropping ch) w = (sizing, record w { pool = drop_one w.pool })
act r j sizing w =
    (if ltb_ℤ w.pool.current_pool_size w.pool.max_pool_size then locking else waiting, w)
act r j locking w = lock_pool w.pool w
act r j opening w = open_channel r w.pool w
act r j waiting w = wait_channel r w.pool w
act r j (retesting ch) w = (if r.is_closed then redropping ch else validating ch, w)
act r j (redropping ch) w = (checking, record w { pool = drop_one w.pool })
act r j (validating ch) w = elim r.ctx [
  | some e ↦ (returning ch (some e), w)
  | none ↦ (publishing ch, w)
]
act r j (publishing ch) w = publish_message r j ch w
act r j (confirming ch) w = await_confirmation r j ch w
act r j (returning ch result) w = put_channel r ch result w.pool w
act r j (finished result) w = (finished result, w)
act r j closing w = close_channels w.pool w
act r j (draining errs) w = drain_channel errs w.pool w
act r j (discarding ch errs) w = (
  draining (note_close r.close_channel errs),
  record { pool = drop_one w.pool; log = closed ch ∷ w.log },
)
act r j (stopped errs) w = (stopped errs, w)
act r j panicked w = (panicked, w)

-- The goroutines over one pool, and a schedule of their steps: which one goes on, with what reply.
pub record Goroutine : Type 0 where
  pub job : Job
  pub pc : Pc

pub record System : Type 0 where
  pub world : World
  pub goroutines : List Goroutine

step_of : Reply → ℕ → System → Option Goroutine → System
unfolding act
step_of r i s none = s
step_of r i s (some g) =
    let (pc, w) = act r g.job g.pc s.world in
    record { world = w; goroutines = set s.goroutines i (record g { pc = pc }) }

pub step : System → ℕ × Reply → System
unfolding step_of
step s (i, r) = step_of r i s (get_elem? s.goroutines i)

pub run : System → List (ℕ × Reply) → System
run s [] = s
run s (c ∷ cs) = run (step s c) cs
