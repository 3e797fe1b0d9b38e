-- ===== src/Message/Building.antt =====
-- What the builder of messages guarantees.
use huma.Base.{
  ℕ, zero, suc, ◌∷◌, ◌<◌, ◌/◌, String, ◌≡◌, ◌≢◌, ◌⊎◌, List, [], none, some, ℤ, pos, arith, str_eq,
  eq_iff, if◌then◌else◌,
}
use huma.Go.Errors.{Error}
use huma.Go.Result.{Result, ok, err}
use huma.Go.Table.{Value, lookup, lookup-insert}
use huma.Go.Duration.{milliseconds}
use huma.Go.Decimal.{decimal_zero}
use huma.Message.{
  Message, with_body, with_json_body, with_header, with_expiration, with_content_type,
  with_priority, with_message_id, validate, format_duration_to_expiration, table_of,
}

-- A message that can be published.
pub record IsReady (m : Message) : Type 0 where
  pub no_error : m.build_error ≡ none
  pub has_headers : m.headers ≢ none
  pub has_type : m.content_type ≢ ""
  pub has_time : m.timestamp ≢ none

-- What an accepted message has of what its builder may leave out: the headers, the content type
-- and the time that were set, or else no header, plain text and the present time.
pub record IsFilled (now : ℕ) (m r : Message) : Type 0 where
  pub headers_kept :
      ((m.headers ≢ none) × (r.headers ≡ m.headers)) ⊎ ((m.headers ≡ none) × (r.headers ≡ some []))
  pub type_kept :
      ((m.content_type ≢ "") × (r.content_type ≡ m.content_type))
      ⊎ ((m.content_type ≡ "") × (r.content_type ≡ "text/plain"))
  pub time_kept :
      ((m.timestamp ≢ none) × (r.timestamp ≡ m.timestamp))
      ⊎ ((m.timestamp ≡ none) × (r.timestamp ≡ some now))

validate-IsFilled :
    (now : ℕ) (m : Message) {r : Message} → validate now (some m) ≡ ok r → IsFilled now m r
unfolding validate
validate-IsFilled now m h = record {
  headers_kept = ground arith;
  type_kept = ground (arith, eq_iff m.content_type "");
  time_kept = ground arith;
}

-- What `validate` accepts is ready, with the body, the priority, the expiration and the id that it
-- had, and with its headers, its content type and its time where it had them, else with no header,
-- plain text and the present time; and validating it again, at any later time, changes nothing.
pub validate-IsReady :
    (now later : ℕ) (m : Message) {r : Message}
    → validate now (some m) ≡ ok r
    → IsReady r
      × (r.body ≡ m.body)
      × (r.expiration ≡ m.expiration)
      × (r.priority ≡ m.priority)
      × (r.message_id ≡ m.message_id)
      × (validate later (some r) ≡ ok r)
      × IsFilled now m r
unfolding validate
validate-IsReady now later m h = (
  record {
    no_error = ground arith;
    has_headers = λ e. ground arith;
    has_type = λ e. ground (arith, eq_iff m.content_type "", eq_iff "text/plain" "");
    has_time = λ e. ground arith;
  },
  ground arith,
  ground arith,
  ground arith,
  ground arith,
  ground (arith, eq_iff m.content_type "", eq_iff "text/plain" ""),
  validate-IsFilled now m h,
)

-- The steps of the builder.
pub data Change : Type 0 where
  body : List ℕ → Change
  json : Result (List ℕ) → Change
  header : String → Value → Change
  expiration : ℤ → Change
  content_type message_id : String → Change
  priority : ℕ → Change

abbrev pub apply : Change → Message → Message
apply (body b) m = with_body b m
apply (json r) m = with_json_body r m
apply (header k v) m = with_header k v m
apply (expiration d) m = with_expiration d m
apply (content_type t) m = with_content_type t m
apply (message_id i) m = with_message_id i m
apply (priority p) m = with_priority p m

abbrev pub build : Message → List Change → Message
build m [] = m
build m (c ∷ cs) = build (apply c m) cs

apply_keeps_error :
    (c : Change) (m : Message) → m.build_error ≢ none → (apply c m).build_error ≢ none
unfolding with_body with_json_body with_header with_expiration with_content_type with_priority
    with_message_id
apply_keeps_error c m h = ground arith

build_keeps_error :
    (cs : List Change) (m : Message) → m.build_error ≢ none → (build m cs).build_error ≢ none
build_keeps_error [] m h = h
build_keeps_error (c ∷ cs) m h = build_keeps_error cs (apply c m) (apply_keeps_error c m h)

json_failed : (e : Error) (m : Message) → (with_json_body (err e) m).build_error ≢ none
unfolding with_json_body
json_failed e m h = cc

refused_with_error :
    (now : ℕ) (m : Message) → m.build_error ≢ none → (r : Message) → validate now (some m) ≢ ok r
unfolding validate
refused_with_error now m h r e = ground arith

-- A body that could not be encoded is never published: whatever is built before and after it, the
-- message is refused.
pub validate_after_failed_json :
    (now : ℕ) (m : Message) (before after : List Change) (e : Error) (r : Message)
    → validate now (some (build (with_json_body (err e) (build m before)) after)) ≢ ok r
validate_after_failed_json now m before after e r =
    refused_with_error now _ (build_keeps_error after _ (json_failed e (build m before))) r

-- A header that is set reads back, other headers are as they were, and this holds from a message
-- with nil headers too.
pub lookup-with_header :
    (k j : String) (v : Value) (m : Message)
    → lookup j (table_of (with_header k v m).headers)
      ≡ (if str_eq k j then some v else lookup j (table_of m.headers))
unfolding with_header
lookup-with_header k j v m = lookup-insert k j v (table_of m.headers)

-- A duration below one millisecond is sent as the expiration "0", which expires at once.
pub expiration_below_millisecond :
    (n : ℕ) → 0 < n → n < 1000000 → format_duration_to_expiration (pos n) ≡ "0"
unfolding format_duration_to_expiration milliseconds
expiration_below_millisecond zero h k = elim h [ ]
expiration_below_millisecond (suc n) h k =
    let e : suc n / 1000000 ≡ 0 = omega arith in ground (arith, e, decimal_zero)
