-- ===== src/Trace.antt =====
-- trace.go: AMQP headers as the text map of OpenTelemetry's propagators.
mod Tests
use huma.Base.{String, ◌≡◌, refl, Option, none, some, List, [], ◌∷◌, arith, str_eq, if◌then◌else◌}
use huma.Go.Table.{Table, Value, str, lookup, insert, lookup-insert}

string_or_empty : Option Value → String
string_or_empty (some (str s)) = s
string_or_empty _ = ""

-- A missing header, and one of another type, read as the empty text.
pub get : Table → String → String
unfolding string_or_empty
get c key = string_or_empty (lookup key c)

pub set : String → String → Table → Table
set key value c = insert key (str value) c

pub keys : Table → List String
keys [] = []
keys ((k, v) ∷ c) = k ∷ keys c

-- What a propagator sets it reads back, over any value that stood there; every other key reads as
-- before.
pub get-set :
    (c : Table) (k j value : String)
    → get (set k value c) j ≡ (if str_eq k j then value else get c j)
unfolding get set
get-set c k j value = ground (arith, lookup-insert k j (str value) c)
