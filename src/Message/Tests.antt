-- ===== src/Message/Tests.antt =====
-- A message as an application builds it.
use huma.Base.{◌≡◌, refl, [], ◌∷◌, some, pos}
use huma.Go.Result.{ok}
use huma.Message.{Message, zero_message, validate}
use huma.Message.Building.{IsReady, IsFilled, validate-IsReady}

abbrev filled : Message
filled = record zero_message {
  body = b'h' ∷ b'i' ∷ [];
  headers = some [];
  content_type = "text/plain";
  timestamp = some 9;
}

validate-IsReady_example :
    IsReady filled
    × (filled.body ≡ b'h' ∷ b'i' ∷ [])
    × (filled.expiration ≡ pos 0)
    × (filled.priority ≡ 0)
    × (filled.message_id ≡ "")
    × (validate 10 (some filled) ≡ ok filled)
    × IsFilled 9 (record zero_message { body = b'h' ∷ b'i' ∷ [] }) filled
unfolding validate
validate-IsReady_example =
    validate-IsReady 9 10 (record zero_message { body = b'h' ∷ b'i' ∷ [] }) refl
