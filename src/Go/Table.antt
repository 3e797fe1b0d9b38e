-- ===== src/Go/Table.antt =====
-- `amqp091.Table`, a Go map from text to any value, as an association list. The program never
-- relies on the order of a map. A nil map reads like the empty one.
use huma.Base.{
  String, ◌≡◌, refl, Option, none, some, List, [], ◌∷◌, arith, str_eq, eq_iff, ℤ, if◌then◌else◌, ℕ,
}

-- The dynamic types of header values that the program tells apart; `other` is any further value.
pub data Value : Type 0 where
  int int32 int64 : ℤ → Value
  str : String → Value
  other : ℕ → Value

abbrev pub Table : Type 0
Table = List (String × Value)

-- value, ok := table[key]
unfoldable pub lookup : String → Table → Option Value
lookup key [] = none
lookup key ((head, value) ∷ rest) = if str_eq head key then some value else lookup key rest

-- table[key] = value
unfoldable pub insert : String → Value → Table → Table
insert key value [] = (key, value) ∷ []
insert key value ((head, old) ∷ rest) =
    if str_eq head key then (key, value) ∷ rest else (head, old) ∷ insert key value rest

pub lookup-insert :
    (key wanted : String) (value : Value) (table : Table)
    → lookup wanted (insert key value table)
      ≡ (if str_eq key wanted then some value else lookup wanted table)
unfolding lookup insert
lookup-insert key wanted value [] = refl
lookup-insert key wanted value ((head, old) ∷ rest) = ground (
  arith,
  eq_iff key wanted,
  eq_iff head key,
  eq_iff head wanted,
  lookup-insert key wanted value rest,
)
