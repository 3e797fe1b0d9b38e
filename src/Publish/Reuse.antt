-- ===== src/Publish/Reuse.antt =====
-- `Publish` works on the message of its caller: what a second `Publish` of it sends.
use huma.Base.{ℕ, eq_iff, ◌≡◌, refl, ◌∙◌, ap, true, false, List, Option, none, some, arith, ◌&&◌}
use huma.Go.Result.{ok}
use huma.Go.Table.{Table}
use huma.Amqp.{Publishing, Event}
use huma.Message.{Message, validate, table_of}
use huma.Message.Building.{validate-IsReady, IsReady}
use huma.Publish.{Client, traced_headers, sent_headers, publishing_of, message_after}

-- No propagator writes at this point of the log.
abbrev pub Untraced : Client → List Event → Type 0
Untraced c l = (c.enable_tracing && c.has_span l) ≡ false

-- The message is accepted at a point of the log, and this is what is published of it.
abbrev pub IsPublished : Client → Option Message → List Event → Publishing → Type 0
IsPublished c msg l p =
    (m : Message) × (c.context l ≡ none)
    × (validate (c.now l) msg ≡ ok m)
    × (p ≡ publishing_of c l m)

ready_again : (now : ℕ) (m : Message) → IsReady m → validate now (some m) ≡ ok m
unfolding validate
ready_again now m h =
    ground (arith, h.no_error, h.has_headers, h.has_type, h.has_time, eq_iff m.content_type "")

abbrev traced : Client → List Event → Message → Message
traced c l m = record m { headers = some (traced_headers c l (table_of m.headers)) }

traced-IsReady : (c : Client) (l : List Event) (m : Message) → IsReady m → IsReady (traced c l m)
traced-IsReady c l m h = record {
  no_error = h.no_error;
  has_headers = λ e. cc e;
  has_type = h.has_type;
  has_time = h.has_time;
}

accepted-IsReady :
    (now : ℕ) (msg : Option Message) (m : Message) → validate now msg ≡ ok m → IsReady m
unfolding validate
accepted-IsReady now none m h = cc
accepted-IsReady now (some o) m h = (validate-IsReady now now o h).0

after_lem :
    (c : Client) (msg : Option Message) (l : List Event) (m : Message)
    → c.context l ≡ none
    → validate (c.now l) msg ≡ ok m
    → message_after c msg l ≡ some (traced c l m)
unfolding message_after
after_lem c msg l m live good = simp (message_after, live, good)

same_publishing :
    (c : Client) (l l' : List Event) (m : Message)
    → c.inject_headers ≡ none
    → Untraced c l'
    → publishing_of c l m ≡ publishing_of c l' (traced c l m)
unfolding publishing_of sent_headers traced_headers
same_publishing c l l' m plain untraced = rw (plain, untraced) refl

-- A message that `Publish` has sent, sent again from a context without a span, by an SDK without a
-- hook for headers: it is accepted, and exactly what was published of it first is published again,
-- the time and the trace of the first publication included.
pub message_after-IsPublished :
    (c : Client) (msg : Option Message) (l l' : List Event) (p : Publishing)
    → c.inject_headers ≡ none
    → IsPublished c msg l p
    → c.context l' ≡ none
    → Untraced c l'
    → IsPublished c (message_after c msg l) l' p
message_after-IsPublished c msg l l' p plain (m, live, good, same) live' untraced = (
  traced c l m,
  live',
  ap (validate (c.now l')) (after_lem c msg l m live good)
      ∙ ready_again (c.now l') (traced c l m)
          (traced-IsReady c l m (accepted-IsReady (c.now l) msg m good)),
  same ∙ same_publishing c l l' m plain untraced,
)

-- In a span, and without a hook, the headers are those that the propagator has written into.
pub headers-publishing_of :
    (c : Client) (l : List Event) (m : Message)
    → c.inject_headers ≡ none
    → (c.enable_tracing && c.has_span l) ≡ true
    → (publishing_of c l m).headers ≡ c.inject l (table_of m.headers)
unfolding publishing_of sent_headers traced_headers
headers-publishing_of c l m plain traced_now = rw (plain, traced_now) refl

-- With a hook, they are what it returns.
pub headers-hooked :
    (c : Client) (l : List Event) (m : Message) (hook : List Event → Table → Option Table)
    → c.inject_headers ≡ some hook
    → (t : Table) × ((publishing_of c l m).headers ≡ table_of (hook l t))
unfolding publishing_of sent_headers
headers-hooked c l m hook h = (traced_headers c l (table_of m.headers), rw h refl)
