-- ===== src/Delivery/Workers/Sharing.antt =====
-- However the goroutines of a queue are scheduled, no delivery is lost and none is settled twice.
use huma.Base.{
  replicate, ap, ℕ, zero, suc, ◌+◌, ◌≡◌, refl, ◌∙◌, inl, inr, Bool, true, false, List, [], ◌∷◌,
  ◌++◌, none, some, arith, total, total-set, get_elem?, Option-cases, List-cases, Bool-cases, map,
  ◌==◌, if◌then◌else◌,
}
use huma.Amqp.{processing_observed, Delivery, Event, heart_beat_msg}
use huma.Config.Queue.{QueueConfig}
use huma.Delivery.{returned, panicked, Services, settle, retry_publishing}
use huma.Delivery.Verdicts.{tags}
use huma.Delivery.Workers.{
  Shared, Pc, selecting, stopped, handling, judging, settling, Verdict, succeeded, Case,
  context_done, message_received, heartbeat_ticked, call_of, metric_of, failure_verdict, receive,
  fail, work, Move, worked, arrived, channel_closed, System, step_of, move, moves,
}

-- How often a tag is in a list.
abbrev pub count : ℕ → List ℕ → ℕ
count t [] = 0
count t (x ∷ xs) = (if x == t then 1 else 0) + count t xs

abbrev pub tags_of : List Delivery → List ℕ
tags_of = map (λ d. d.delivery_tag)

-- Whether a goroutine works on the delivery of a tag.
abbrev pub holds : ℕ → Pc → ℕ
holds t selecting = 0
holds t stopped = 0
holds t (handling d) = count t (d.delivery_tag ∷ [])
holds t (judging d _) = count t (d.delivery_tag ∷ [])
holds t (settling d _ _) = count t (d.delivery_tag ∷ [])

-- How often a tag is settled, or still in the channel.
abbrev pub known : ℕ → Shared → ℕ
known t w = count t (tags w.log) + count t (tags_of w.messages)

-- The deliveries that come over the channel: those before it is closed.
abbrev pub arrivals : Bool → List Move → List ℕ
arrivals true ms = []
arrivals false [] = []
arrivals false (arrived d ∷ ms) = d.delivery_tag ∷ arrivals false ms
arrivals false (channel_closed ∷ ms) = []
arrivals false (worked _ _ ∷ ms) = arrivals false ms

arrivals-worked :
    (b : Bool) (i : ℕ) (c : Case) (ms : List Move) → arrivals b (worked i c ∷ ms) ≡ arrivals b ms
arrivals-worked true i c ms = refl
arrivals-worked false i c ms = refl

count-arrived :
    (t : ℕ) (ds : List Delivery) (d : Delivery)
    → count t (tags_of (ds ++ d ∷ [])) ≡ count t (tags_of ds) + count t (d.delivery_tag ∷ [])
count-arrived t [] d = omega arith
count-arrived t (e ∷ ds) d = omega (arith, count-arrived t ds d)

module _ (s : Services) (handler : ℕ) (q : QueueConfig) (t : ℕ) where
  tags-settle :
      (d : Delivery) (v : Verdict) (l : List Event)
      → tags (settle s (call_of d v) (metric_of q v) l) ≡ d.delivery_tag ∷ tags l
  unfolding settle
  tags-settle d succeeded l = ground arith
  tags-settle d _ l = ground arith

  tags-failure : (d : Delivery) (l : List Event) → tags (failure_verdict s d q l).1 ≡ tags l
  unfolding failure_verdict
  tags-failure d l =
      ground
        (arith, s.settles_nothing l d.delivery_exchange d.delivery_routing_key (retry_publishing d))

  fail-known :
      (d : Delivery) (observe : Bool) (w : Shared)
      → known t (fail s handler q d observe w).1 + holds t (fail s handler q d observe w).0
        ≡ known t w + count t (d.delivery_tag ∷ [])
  unfolding fail
  fail-known d observe w = ground (arith, tags-failure d w.log)

  work-known :
      (c : Case) (pc : Pc) (w : Shared)
      → known t (work s handler q c pc w).1 + holds t (work s handler q c pc w).0
        ≡ known t w + holds t pc
  unfolding work receive fail
  work-known context_done selecting w = refl
  work-known message_received selecting w = elim (List-cases w.messages) [
    | inl empty ↦ ground (arith, empty)
    | inr (d, rest, full) ↦ ground (arith, full)
  ]
  work-known heartbeat_ticked selecting w =
      ground (arith, s.settles_nothing w.log "" q.name heart_beat_msg)
  work-known c stopped w = refl
  work-known c (handling d) w = refl
  work-known c (judging d (returned none)) w = refl
  work-known c (judging d (returned (some e))) w = fail-known d true w
  work-known c (judging d panicked) w =
      fail-known d false (record w { log = processing_observed q.name ∷ w.log })
  work-known c (settling d v observe) w = ground (arith, tags-settle d v w.log)

  -- In all: settled, in the channel or in the hands of a goroutine.
  abbrev pub accounted : System → ℕ
  accounted y = known t y.shared + total (holds t) y.workers

  step-accounted :
      (y : System) (i : ℕ) (c : Case) → accounted (move s handler q y (worked i c)) ≡ accounted y
  unfolding move step_of
  step-accounted y i c = elim (Option-cases (get_elem? y.workers i)) [
    | inl missing ↦ rw (missing, move) refl
    | inr (pc, found) ↦
        let o = work s handler q c pc y.shared in
        rw (found, move, step_of)
          (omega (arith, work-known c pc y.shared, total-set (holds t) y.workers i pc o.0 found))
  ]

  pub work-closed :
      (c : Case) (pc : Pc) (w : Shared) → (work s handler q c pc w).1.closed ≡ w.closed
  unfolding work receive fail
  work-closed context_done selecting w = refl
  work-closed message_received selecting w = elim (List-cases w.messages) [
    | inl empty ↦ ground (arith, empty)
    | inr (d, rest, full) ↦ ground (arith, full)
  ]
  work-closed heartbeat_ticked selecting w = ground arith
  work-closed c stopped w = refl
  work-closed c (handling d) w = refl
  work-closed c (judging d (returned none)) w = refl
  work-closed c (judging d (returned (some e))) w = refl
  work-closed c (judging d panicked) w = refl
  work-closed c (settling d v observe) w = refl

  pub step-closed :
      (y : System) (i : ℕ) (c : Case)
      → (move s handler q y (worked i c)).shared.closed ≡ y.shared.closed
  unfolding move step_of
  step-closed y i c = elim (Option-cases (get_elem? y.workers i)) [
    | inl missing ↦ rw (missing, move) refl
    | inr (pc, found) ↦ rw (found, move, step_of) (work-closed c pc y.shared)
  ]

  -- What one move adds to the account is what it lets arrive.
  move-accounted :
      (y : System) (m : Move) (ms : List Move)
      → accounted (move s handler q y m)
          + count t (arrivals (move s handler q y m).shared.closed ms)
        ≡ accounted y + count t (arrivals y.shared.closed (m ∷ ms))
  unfolding move
  move-accounted y (worked i c) ms = omega (
    arith,
    step-accounted y i c,
    ap (λ b. count t (arrivals b ms)) (step-closed y i c),
    ap (count t) (arrivals-worked y.shared.closed i c ms),
  )
  move-accounted y (arrived d) ms =
      ground (arith, Bool-cases y.shared.closed, count-arrived t y.shared.messages d)
  move-accounted y channel_closed ms = ground (arith, Bool-cases y.shared.closed)

  moves-accounted :
      (y : System) (ms : List Move)
      → accounted (moves s handler q y ms) ≡ accounted y + count t (arrivals y.shared.closed ms)
  unfolding moves
  moves-accounted y [] = ground (arith, Bool-cases y.shared.closed)
  moves-accounted y (m ∷ ms) = moves-accounted (move s handler q y m) ms ∙ move-accounted y m ms

-- `n` goroutines, with nothing delivered yet.
abbrev pub start : ℕ → System
start n = record {
  shared = record { messages = []; closed = false; log = [] };
  workers = replicate n selecting;
}

none_held : (t n : ℕ) → total (holds t) (replicate n selecting) ≡ 0
none_held t zero = refl
none_held t (suc n) = omega (arith, none_held t n)

-- Any number of goroutines of one queue, under every schedule of their steps and of what the client
-- delivers: a delivery that has come over the channel has been settled, is in the hands of one
-- goroutine or waits in the channel, counted by its tag; none is lost and none is settled twice.
pub moves_settle_each :
    (s : Services) (handler : ℕ) (q : QueueConfig) (n : ℕ) (ms : List Move) (t : ℕ)
    → let y = moves s handler q (start n) ms in
      count t (tags y.shared.log) + count t (tags_of y.shared.messages) + total (holds t) y.workers
      ≡ count t (arrivals false ms)
moves_settle_each s handler q n ms t = moves-accounted s handler q t (start n) ms ∙ none_held-plus
  where
    none_held-plus :
        accounted s handler q t (start n) + count t (arrivals false ms)
        ≡ count t (arrivals false ms)
    none_held-plus = omega (arith, none_held t n)
