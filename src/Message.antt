-- ===== src/Message.antt =====
-- message.go: a message to publish and its builder. The methods change the message that they are
-- called on and return it; here they return the new one. A nil table and the zero time are `none`.
mod Tests
pub mod Building
use huma.Base.{
  ℕ, String, Bool, true, false, List, [], Option, none, some, ℤ, pos, str_eq, ltb_ℤ, pos_part,
  if◌then◌else◌,
}
use huma.Go.Errors.{Error, message_nil, wrap}
use huma.Go.Result.{Result, ok, err, error_of}
use huma.Go.Table.{Table, Value, insert}
use huma.Go.Duration.{milliseconds}
use huma.Go.Decimal.{decimal}

pub record Message : Type 0 where
  pub body : List ℕ
  pub headers : Option Table
  pub content_type : String
  pub expiration : ℤ
  pub priority : ℕ
  pub message_id : String
  pub timestamp : Option ℕ
  pub build_error : Option Error

-- &Message{}
abbrev pub zero_message : Message
zero_message = record {
  body = [];
  headers = none;
  content_type = "";
  expiration = pos 0;
  priority = 0;
  message_id = "";
  timestamp = none;
  build_error = none;
}

-- `now` is the time of the call.
pub new_message : ℕ → Message
new_message now = record zero_message { headers = some []; timestamp = some now }

pub with_body : List ℕ → Message → Message
with_body b m = record m { body = b }

-- The argument is what `json.Marshal` returned.
pub with_json_body : Result (List ℕ) → Message → Message
with_json_body (ok b) m = record m { body = b; content_type = "application/json" }
with_json_body (err e) m = record m { build_error = some (wrap "marshal message body" e) }

abbrev pub table_of : Option Table → Table
table_of none = []
table_of (some t) = t

pub with_header : String → Value → Message → Message
with_header key value m = record m { headers = some (insert key value (table_of m.headers)) }

pub with_expiration : ℤ → Message → Message
with_expiration d m = record m { expiration = d }

pub with_content_type : String → Message → Message
with_content_type t m = record m { content_type = t }

pub with_priority : ℕ → Message → Message
with_priority p m = record m { priority = p }

pub with_message_id : String → Message → Message
with_message_id id m = record m { message_id = id }

-- The end of `validate`, which fills in what is missing.
fill_in : ℕ → Message → Message
fill_in now m = record m {
  headers = some (table_of m.headers);
  content_type = if str_eq m.content_type "" then "text/plain" else m.content_type;
  timestamp = elim m.timestamp [ none ↦ some now | some t ↦ some t ];
}

-- `none` is a nil message. An error leaves the message as it is.
unfoldable pub validate : ℕ → Option Message → Result Message
unfolding fill_in
validate now none = err message_nil
validate now (some m) = elim m.build_error [ some e ↦ err e | none ↦ ok (fill_in now m) ]

unfoldable pub format_duration_to_expiration : ℤ → String
format_duration_to_expiration d =
    if ltb_ℤ (pos 0) d then decimal (pos_part (milliseconds d)) else ""
