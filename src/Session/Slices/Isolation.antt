-- ===== src/Session/Slices/Isolation.antt =====
-- Slices of the SDK, in arrays of its own.
use huma.Base.{
  ℕ, ◌+◌, ◌≤◌, ◌<◌, ◌≡◌, ◌⊎◌, inl, inr, refl, ap, ◌∙◌, false, List, [], ◌∷◌, ◌++◌, some, arith,
  length, length-append, get_elem?, take, drop, take-length, take_zero, no_length, drop_zero,
  ℕ-cases, get_elem?-append, get_elem?-last, get_elem?-set_other, Option-cases, Bool-cases,
}
use huma.Config.Queue.{QueueConfig}
use huma.Session.Slices.{Array, Memory, Slice, read, write}

-- The entries of a slice, at the front of an array that the application has not made.
pub record IsStored (m : Memory) (s : Slice) (xs : List QueueConfig) : Type 0 where
  pub holder : Array
  pub found : get_elem? m s.array ≡ some holder
  pub own : holder.is_app ≡ false
  pub rest : List QueueConfig
  pub contents : holder.items ≡ xs ++ rest
  pub first : s.from ≡ 0
  pub size : s.len ≡ length xs
  pub some_room : 0 < s.cap
  pub room : s.cap ≤ length holder.items

-- Or the slice has no room, and is empty.
abbrev pub Holds : Memory → Slice → List QueueConfig → Type 0
Holds m s xs = ((s.cap ≡ 0) × (s.len ≡ 0) × (xs ≡ [])) ⊎ IsStored m s xs

-- The arrays of the SDK that are read through a slice are as they were.
abbrev pub Keeps : Memory → Memory → Slice → Type 0
Keeps m m' s =
    (a : Array) → get_elem? m s.array ≡ some a → a.is_app ≡ false → get_elem? m' s.array ≡ some a

pub Holds-kept :
    (m m' : Memory) (s : Slice) (xs : List QueueConfig)
    → Keeps m m' s
    → Holds m s xs
    → Holds m' s xs
Holds-kept m m' s xs k (inl h) = inl h
Holds-kept m m' s xs k (inr h) = inr (record {
  holder = h.holder;
  found = k h.holder h.found h.own;
  own = h.own;
  rest = h.rest;
  contents = h.contents;
  first = h.first;
  size = h.size;
  some_room = h.some_room;
  room = h.room;
})

pub Keeps-new : (m : Memory) (a : Array) (s : Slice) → Keeps m (m ++ a ∷ []) s
Keeps-new m a s b h own = get_elem?-append m (a ∷ []) s.array b h

pub Keeps-write : (i j : ℕ) (q : QueueConfig) (m : Memory) (s : Slice) → Keeps m (write i j q m) s
unfolding write
Keeps-write i j q m s b h own = elim (Option-cases (get_elem? m i)) [
  | inl missing ↦ rw (missing, write) h
  | inr (c, found) ↦ elim (Bool-cases c.is_app) [
    | inl app ↦ rw (found, write, app) (get_elem?-set_other m i s.array _ (λ e. cc) ∙ h)
    | inr its_own ↦ rw (found, write, its_own) h
  ]
]

pub Holds-len : (m : Memory) (s : Slice) (xs : List QueueConfig) → Holds m s xs → s.len ≡ length xs
Holds-len m s xs (inl (_, empty, none_kept)) = rw none_kept empty
Holds-len m s xs (inr h) = h.size

pub Holds-read : (m : Memory) (s : Slice) (xs : List QueueConfig) → Holds m s xs → read m s ≡ xs
Holds-read m s xs (inl (_, empty, none_kept)) = rw (empty, none_kept) (take_zero _)
Holds-read m s xs (inr h) =
    rw (h.found, h.first, h.size)
      (ap (λ ys. take (length xs) (drop 0 ys)) h.contents
        ∙ ap (take (length xs)) (drop_zero (xs ++ h.rest))
        ∙ take-length xs h.rest)

-- A new array of the SDK, with room behind the entries.
pub new-Holds :
    (m : Memory) (xs spare : List QueueConfig) (n k : ℕ)
    → n ≡ length xs
    → k ≡ n + length spare
    → Holds
        (m ++ record { is_app = false; items = xs ++ spare } ∷ [])
        (record { array = length m; from = 0; len = n; cap = k })
        xs
new-Holds m xs spare n k size room = elim (ℕ-cases k) [
  | inl none_at_all ↦ inl (
    none_at_all,
    omega (arith, room, none_at_all),
    no_length xs (omega (arith, size, room, none_at_all)),
  )
  | inr (j, some_room) ↦ inr (record {
    holder = record { is_app = false; items = xs ++ spare };
    found = get_elem?-last m _;
    own = refl;
    rest = spare;
    contents = refl;
    first = refl;
    size = size;
    some_room = omega (arith, some_room);
    room = omega (arith, room, size, length-append xs spare);
  })
]
