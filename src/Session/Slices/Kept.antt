-- ===== src/Session/Slices/Kept.antt =====
-- What the SDK keeps, in slices, is what its callers gave it.
use mathlib.Core.Path.{subst}
use mathlib.Core.List.{append_assoc, append-nil}
use huma.Base.{
  ◌≡◌, inl, inr, refl, sym, false, List, [], ◌∷◌, ◌++◌, arith, length, no_length, Bool-cases, ltb,
}
use huma.Config.Queue.{QueueConfig}
use huma.Session.Slices.{
  Array, Memory, Slice, nil_slice, read, clone_queue_configs, append_slice, keep_queues,
  keep_declared_queues, Heap, Move, made, written, start_keeps, declare_keeps, move, moves,
}
use huma.Session.Slices.Isolation.{
  Holds, Holds-kept, Holds-read, Holds-len, Keeps-new, Keeps-write, new-Holds,
}
use huma.Session.Slices.Appending.{Apart, new-Apart, Appended, append-Appended}

-- The clone of a slice, and the store with it.
abbrev copy_of : Memory → Slice → Array
copy_of m s = record { is_app = false; items = read m s }

abbrev with_copy : Memory → Slice → Memory
with_copy m s = m ++ copy_of m s ∷ []

abbrev clone_of : Memory → Slice → Slice
clone_of m s = record {
  array = length m;
  from = 0;
  len = length (read m s);
  cap = length (read m s);
}

clone-Holds : (m : Memory) (s : Slice) → Holds (with_copy m s) (clone_of m s) (read m s)
clone-Holds m s =
    subst
      (λ items.
        Holds (m ++ record { is_app = false; items = items } ∷ []) (clone_of m s) (read m s))
      (append-nil (read m s)) (new-Holds m (read m s) [] _ _ refl (omega arith))

clone_append :
    (spare : List QueueConfig) (m : Memory) (s given : Slice) (xs : List QueueConfig)
    → Holds m s xs
    → Appended m s xs
        (read m given)
        (append_slice spare (with_copy m given) s (read (with_copy m given) (clone_of m given)))
clone_append spare m s given xs h =
    let m' = with_copy m given in
    let a =
      append-Appended spare m' s xs (read m given) (Holds-kept m m' s xs (Keeps-new m _ s) h) in
    subst (λ ys. Appended m s xs (read m given) (append_slice spare m' s ys))
      (sym (Holds-read m' (clone_of m given) (read m given) (clone-Holds m given)))
      (record {
        all = a.all;
        others =
            λ t zs apart held. a.others t zs apart (Holds-kept m m' t zs (Keeps-new m _ t) held);
      })

declared-Appended :
    (spare : List QueueConfig) (m : Memory) (s given : Slice) (xs : List QueueConfig)
    → Holds m s xs
    → Appended m s xs (read m given) (keep_declared_queues spare m s given)
unfolding keep_declared_queues clone_queue_configs
declared-Appended spare m s given xs h = clone_append spare m s given xs h

queues-Appended :
    (spare : List QueueConfig) (m : Memory) (s given : Slice) (xs : List QueueConfig)
    → Holds m s xs
    → Appended m s xs (read m given) (keep_queues spare m s given)
unfolding keep_queues clone_queue_configs
queues-Appended spare m s given xs h = elim (Bool-cases (ltb 0 s.len)) [
  | inl some_kept ↦ rw (some_kept, keep_queues) (clone_append spare m s given xs h)
  | inr none_kept ↦
      let nothing : xs ≡ [] = no_length xs (ground (arith, Holds-len m s xs h)) in
      rw (none_kept, keep_queues, nothing)
        (record {
          all = clone-Holds m given;
          others = λ t zs apart held. (
            Holds-kept m _ t zs (Keeps-new m _ t) held,
            new-Apart m (clone_of m given) t zs refl held,
          );
        })
]

-- The two fields, in arrays of the SDK that are not the same.
record Tracks (h : Heap) (qs ds : List QueueConfig) : Type 0 where
  queues_kept : Holds h.memory h.queues qs
  declared_kept : Holds h.memory h.declared_queues ds
  apart : Apart h.queues h.declared_queues

Apart-sym : (s t : Slice) → Apart s t → Apart t s
Apart-sym s t (inl a) = inr (inl a)
Apart-sym s t (inr (inl b)) = inl b
Apart-sym s t (inr (inr c)) = inr (inr (λ e. c (sym e)))

-- What a move gives to `Start`, and to `DeclareQueues`, as it reads at the time.
abbrev pub to_start : Heap → Move → List QueueConfig
to_start h (start_keeps given _) = read h.memory given
to_start h _ = []

abbrev pub to_declare : Heap → Move → List QueueConfig
to_declare h (declare_keeps given _) = read h.memory given
to_declare h _ = []

abbrev pub all_to_start : Heap → List Move → List QueueConfig
all_to_start h [] = []
all_to_start h (x ∷ xs) = to_start h x ++ all_to_start (move h x) xs

abbrev pub all_to_declare : Heap → List Move → List QueueConfig
all_to_declare h [] = []
all_to_declare h (x ∷ xs) = to_declare h x ++ all_to_declare (move h x) xs

nothing_more :
    (h : Heap) (qs ds : List QueueConfig) → Tracks h qs ds → Tracks h (qs ++ []) (ds ++ [])
nothing_more h qs ds k = rw (append-nil qs, append-nil ds) k

move-Tracks :
    (h : Heap) (x : Move) (qs ds : List QueueConfig)
    → Tracks h qs ds
    → Tracks (move h x) (qs ++ to_start h x) (ds ++ to_declare h x)
unfolding move
move-Tracks h (made items) qs ds k = nothing_more (move h (made items)) qs ds (record {
  queues_kept = Holds-kept h.memory _ h.queues qs (Keeps-new h.memory _ h.queues) k.queues_kept;
  declared_kept =
      Holds-kept h.memory _ h.declared_queues ds (Keeps-new h.memory _ h.declared_queues)
        k.declared_kept;
  apart = k.apart;
})
move-Tracks h (written a i q) qs ds k = nothing_more (move h (written a i q)) qs ds (record {
  queues_kept =
      Holds-kept h.memory _ h.queues qs (Keeps-write a i q h.memory h.queues) k.queues_kept;
  declared_kept =
      Holds-kept h.memory _ h.declared_queues ds (Keeps-write a i q h.memory h.declared_queues)
        k.declared_kept;
  apart = k.apart;
})
move-Tracks h (start_keeps given spare) qs ds k =
    let a = queues-Appended spare h.memory h.queues given qs k.queues_kept in
    let (declared, apart) = a.others h.declared_queues ds k.apart k.declared_kept in
    record { queues_kept = a.all; declared_kept = rw (append-nil ds) declared; apart = apart }
move-Tracks h (declare_keeps given spare) qs ds k =
    let a = declared-Appended spare h.memory h.declared_queues given ds k.declared_kept in
    let (queues, apart) =
      a.others h.queues qs (Apart-sym h.queues h.declared_queues k.apart) k.queues_kept in
    record {
      queues_kept = rw (append-nil qs) queues;
      declared_kept = a.all;
      apart =
          Apart-sym (keep_declared_queues spare h.memory h.declared_queues given).0 h.queues apart;
    }

moves-Tracks :
    (h : Heap) (xs : List Move) (qs ds : List QueueConfig)
    → Tracks h qs ds
    → Tracks (moves h xs) (qs ++ all_to_start h xs) (ds ++ all_to_declare h xs)
unfolding moves
moves-Tracks h [] qs ds k = nothing_more h qs ds k
moves-Tracks h (x ∷ xs) qs ds k =
    subst (λ zs. Tracks (moves (move h x) xs) zs (ds ++ all_to_declare h (x ∷ xs)))
      (append_assoc qs (to_start h x) (all_to_start (move h x) xs))
      (subst
        (λ zs. Tracks (moves (move h x) xs) ((qs ++ to_start h x) ++ all_to_start (move h x) xs) zs)
        (append_assoc ds (to_declare h x) (all_to_declare (move h x) xs))
        (moves-Tracks (move h x) xs _ _ (move-Tracks h x qs ds k)))

-- A new SDK, beside any arrays.
abbrev pub begin : Memory → Heap
begin m = record { memory = m; queues = nil_slice; declared_queues = nil_slice }

-- Whatever slices an application hands to `Start` and `DeclareQueues`, the same ones several times or
-- some that overlap, whatever it writes to its arrays in between, and whatever room the runtime adds
-- to a slice that grows: what the SDK keeps reads, in order, as each slice that it was given read at
-- the time.
pub moves-AreKept :
    (m : Memory) (xs : List Move)
    → let h = moves (begin m) xs in
      (read h.memory h.queues ≡ all_to_start (begin m) xs)
      × (read h.memory h.declared_queues ≡ all_to_declare (begin m) xs)
moves-AreKept m xs =
    let nil = inl (refl, refl, refl) in
    let k : Tracks (moves (begin m) xs) (all_to_start (begin m) xs) (all_to_declare (begin m) xs) =
      moves-Tracks (begin m) xs [] []
        (record { queues_kept = nil; declared_kept = nil; apart = inl refl }) in
    let h = moves (begin m) xs in
    (
      Holds-read h.memory h.queues _ k.queues_kept,
      Holds-read h.memory h.declared_queues _ k.declared_kept,
    )
