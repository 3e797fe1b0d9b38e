-- ===== src/Session/Slices/Appending.antt =====
-- An `append` to one slice of the SDK, and what it leaves of another.
use mathlib.Core.Path.{subst}
use mathlib.Core.List.{append_assoc}
use huma.Base.{
  ℕ, ◌+◌, ◌≤◌, ◌≡◌, ◌≢◌, ◌⊎◌, inl, inr, refl, sym, ap, ◌∙◌, false, List, [], ◌∷◌, ◌++◌, some, arith,
  length, length-append, length-drop, get_elem?, set, take, drop, take-length, take-drop, set_same,
  no_length, get_elem?-set, get_elem?-set_other, get_elem?-bound, Option-cases, Bool-cases, leb,
}
use huma.Config.Queue.{QueueConfig}
use huma.Session.Slices.{Array, Memory, Slice, read, splice, overwrite, append_slice}
use huma.Session.Slices.Isolation.{
  IsStored, Holds, Holds-kept, Holds-read, Holds-len, Keeps-new, new-Holds,
}

-- Two slices that a write through one of them does not mix up.
abbrev pub Apart : Slice → Slice → Type 0
Apart s t = (s.cap ≡ 0) ⊎ ((t.cap ≡ 0) ⊎ (s.array ≢ t.array))

pub new-Apart :
    (m : Memory) (s t : Slice) (zs : List QueueConfig)
    → s.array ≡ length m
    → Holds m t zs
    → Apart s t
new-Apart m s t zs e (inl (none_at_all, _, _)) = inr (inl none_at_all)
new-Apart m s t zs e (inr h) =
    inr (inr (λ same. omega (arith, get_elem?-bound m t.array h.holder h.found, e, same)))

-- What an `append` leaves of its own slice and of another one.
pub record Appended (m : Memory) (s : Slice) (xs ys : List QueueConfig) (sm : Slice × Memory)
    : Type 0 where
  pub all : Holds sm.1 sm.0 (xs ++ ys)
  pub others :
      (t : Slice) (zs : List QueueConfig)
      → Apart s t
      → Holds m t zs
      → Holds sm.1 t zs × Apart sm.0 t

overwrite_found :
    (m : Memory) (a n : ℕ) (xs : List QueueConfig) (c : Array)
    → get_elem? m a ≡ some c
    → overwrite m a n xs ≡ set m a (record c { items = splice n xs c.items })
overwrite_found m a n xs c h = rw (h, overwrite) refl

overwrite_nothing : (m : Memory) (a n : ℕ) → overwrite m a n [] ≡ m
overwrite_nothing m a n = elim (Option-cases (get_elem? m a)) [
  | inl missing ↦ rw (missing, overwrite) refl
  | inr (c, found) ↦
      let same : n + 0 ≡ n = omega arith in
      overwrite_found m a n [] c found ∙ rw (same, take-drop) (set_same m a c found)
]

front_lem :
    (m : Memory) (s : Slice) (xs : List QueueConfig) (h : IsStored m s xs)
    → take (s.from + s.len) h.holder.items ≡ xs
front_lem m s xs h =
    let n : s.from + s.len ≡ length xs = omega (arith, h.first, h.size) in
    rw (n, h.contents) (take-length xs h.rest)

in_place :
    (m : Memory) (s : Slice) (xs ys : List QueueConfig)
    → Holds m s xs
    → s.len + length ys ≤ s.cap
    → Appended m s xs ys
        (record s { len = s.len + length ys }, overwrite m s.array (s.from + s.len) ys)
in_place m s xs ys (inl (none_at_all, no_entry, nothing)) fits =
    subst
      (λ zs.
        Appended m s xs zs
          (record s { len = s.len + length zs }, overwrite m s.array (s.from + s.len) zs))
      (sym (no_length ys (omega (arith, fits, none_at_all))))
      (record {
        all = inl (
          none_at_all,
          omega (arith, no_entry),
          ap (λ (zs : List QueueConfig). zs ++ []) nothing,
        );
        others = λ t zs apart h. (
          subst (λ m'. Holds m' t zs) (sym (overwrite_nothing m s.array (s.from + s.len))) h,
          inl none_at_all,
        );
      })
in_place m s xs ys (inr h) fits =
    let n = s.from + s.len in
    let after = drop (n + length ys) h.holder.items in
    let front : take n h.holder.items ≡ xs = front_lem m s xs h in
    let contents : splice n ys h.holder.items ≡ (xs ++ ys) ++ after =
      ap (λ (zs : List QueueConfig). zs ++ (ys ++ after)) front ∙ sym (append_assoc xs ys after) in
    record {
      all = inr (record {
        holder = record h.holder { items = splice n ys h.holder.items };
        found =
            ap (λ m'. get_elem? m' s.array) (overwrite_found m s.array n ys h.holder h.found)
            ∙ get_elem?-set m s.array h.holder _ h.found;
        own = h.own;
        rest = after;
        contents = contents;
        first = h.first;
        size = omega (arith, h.size, length-append xs ys);
        some_room = h.some_room;
        room = omega (
          arith,
          ap (λ (zs : List QueueConfig). length zs) contents,
          length-append (xs ++ ys) after,
          length-append xs ys,
          length-drop (n + length ys) h.holder.items,
          h.size,
          h.first,
          h.room,
          fits,
        );
      });
      others = λ t zs apart held. (
        elim apart [
          | inl none_at_all ↦ absurd (omega (arith, none_at_all, h.some_room))
          | inr (inl empty) ↦ elim held [
            | inl all_empty ↦ inl all_empty
            | inr k ↦ absurd (omega (arith, empty, k.some_room))
          ]
          | inr (inr differ) ↦
              Holds-kept m (overwrite m s.array n ys) t zs
                (λ b found own.
                  ap (λ m'. get_elem? m' t.array) (overwrite_found m s.array n ys h.holder h.found)
                  ∙ get_elem?-set_other m s.array t.array _ differ
                  ∙ found)
                held
        ],
        apart,
      );
    }

in_new :
    (m : Memory) (s : Slice) (xs ys spare : List QueueConfig)
    → Holds m s xs
    → let n = s.len + length ys in
      Appended m s xs ys (
        record { array = length m; from = 0; len = n; cap = n + length spare },
        m ++ record { is_app = false; items = read m s ++ (ys ++ spare) } ∷ [],
      )
in_new m s xs ys spare h = record {
  all =
      subst
        (λ items.
          Holds (m ++ record { is_app = false; items = items } ∷ [])
            (record {
              array = length m;
              from = 0;
              len = s.len + length ys;
              cap = s.len + length ys + length spare;
            })
            (xs ++ ys))
        (append_assoc xs ys spare
          ∙ ap (λ (zs : List QueueConfig). zs ++ (ys ++ spare)) (sym (Holds-read m s xs h)))
        (new-Holds m (xs ++ ys) spare _ _ (omega (arith, Holds-len m s xs h, length-append xs ys))
          refl);
  others = λ t zs apart held. (
    Holds-kept m _ t zs (Keeps-new m _ t) held,
    new-Apart m
        (record {
          array = length m;
          from = 0;
          len = s.len + length ys;
          cap = s.len + length ys + length spare;
        })
        t zs refl held,
  );
}

pub append-Appended :
    (spare : List QueueConfig) (m : Memory) (s : Slice) (xs ys : List QueueConfig)
    → Holds m s xs
    → Appended m s xs ys (append_slice spare m s ys)
append-Appended spare m s xs ys h = elim (Bool-cases (leb (s.len + length ys) s.cap)) [
  | inl fits ↦ rw fits (in_place m s xs ys h (ground arith))
  | inr full ↦ rw full (in_new m s xs ys spare h)
]
