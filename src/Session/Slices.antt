-- ===== src/Session/Slices.antt =====
-- The slices behind what the SDK keeps for a reconnect (rabbitmqsdk.go, cloneQueueConfigs and where
-- `Start` and `DeclareQueues` call it), on a store of arrays that the application writes too.
pub mod Isolation
pub mod Appending
pub mod Kept
mod Tests
use huma.Base.{
  ℕ, ◌+◌, Bool, true, false, List, [], ◌∷◌, ◌++◌, Option, none, some, length, get_elem?, set, take,
  drop, ltb, leb, if◌then◌else◌,
}
use huma.Config.Queue.{QueueConfig}

-- An array, and whether the application has made it. Its address is its place in the store.
pub record Array : Type 0 where
  pub is_app : Bool
  pub items : List QueueConfig

abbrev pub Memory : Type 0
Memory = List Array

-- A slice: where it begins in its array, its length and its capacity.
pub record Slice : Type 0 where
  pub array : ℕ
  pub from : ℕ
  pub len : ℕ
  pub cap : ℕ

abbrev pub nil_slice : Slice
nil_slice = record { array = 0; from = 0; len = 0; cap = 0 }

abbrev pub items_of : Option Array → List QueueConfig
items_of none = []
items_of (some a) = a.items

abbrev pub read : Memory → Slice → List QueueConfig
read m s = take s.len (drop s.from (items_of (get_elem? m s.array)))

-- cloned := make([]QueueConfig, len(queues)); copy(cloned, queues)
unfoldable pub clone_queue_configs : Memory → Slice → Slice × Memory
clone_queue_configs m s =
    let xs = read m s in
    (
      record { array = length m; from = 0; len = length xs; cap = length xs },
      m ++ record { is_app = false; items = xs } ∷ [],
    )

-- Entries written over those of an array from a place on.
abbrev pub splice : ℕ → List QueueConfig → List QueueConfig → List QueueConfig
splice n xs items = take n items ++ (xs ++ drop (n + length xs) items)

abbrev pub overwrite : Memory → ℕ → ℕ → List QueueConfig → Memory
overwrite m a n xs = elim (get_elem? m a) [
  | none ↦ m
  | some c ↦ set m a (record c { items = splice n xs c.items })
]

-- Go's `append` to a slice of the SDK: in place while the capacity allows, and otherwise in a new array
-- that is larger by `spare`, which the runtime chooses.
abbrev pub append_slice : List QueueConfig → Memory → Slice → List QueueConfig → Slice × Memory
append_slice spare m s xs =
    let n = s.len + length xs in
    if leb n s.cap then (record s { len = n }, overwrite m s.array (s.from + s.len) xs) else (
      record { array = length m; from = 0; len = n; cap = n + length spare },
      m ++ record { is_app = false; items = read m s ++ (xs ++ spare) } ∷ [],
    )

-- if len(s.queues) > 0 { s.queues = append(s.queues, clone...) } else { s.queues = clone }
unfoldable pub keep_queues : List QueueConfig → Memory → Slice → Slice → Slice × Memory
unfolding clone_queue_configs
keep_queues spare m kept queues =
    let (c, m') = clone_queue_configs m queues in
    if ltb 0 kept.len then append_slice spare m' kept (read m' c) else (c, m')

-- s.declaredQueues = append(s.declaredQueues, cloneQueueConfigs(ctx, queues)...)
unfoldable pub keep_declared_queues : List QueueConfig → Memory → Slice → Slice → Slice × Memory
unfolding clone_queue_configs
keep_declared_queues spare m kept queues =
    let (c, m') = clone_queue_configs m queues in append_slice spare m' kept (read m' c)

-- The store, and the two fields of the SDK.
pub record Heap : Type 0 where
  pub memory : Memory
  pub queues : Slice
  pub declared_queues : Slice

-- The application makes an array, or writes an entry of one; `Start` keeps a slice that it is given, or
-- `DeclareQueues` does, each with the room that the runtime adds.
pub data Move : Type 0 where
  made : List QueueConfig → Move
  written : ℕ → ℕ → QueueConfig → Move
  start_keeps declare_keeps : Slice → List QueueConfig → Move

-- Only the arrays of the application are in its reach.
unfoldable pub write : ℕ → ℕ → QueueConfig → Memory → Memory
write a i q m = elim (get_elem? m a) [
  | none ↦ m
  | some c ↦ if c.is_app then set m a (record c { items = set c.items i q }) else m
]

unfoldable pub move : Heap → Move → Heap
unfolding keep_queues keep_declared_queues write
move h (made items) = record h { memory = h.memory ++ record { is_app = true; items = items } ∷ [] }
move h (written a i q) = record h { memory = write a i q h.memory }
move h (start_keeps queues spare) =
    let (s, m) = keep_queues spare h.memory h.queues queues in record h { memory = m; queues = s }
move h (declare_keeps queues spare) =
    let (s, m) = keep_declared_queues spare h.memory h.declared_queues queues in
    record h { memory = m; declared_queues = s }

unfoldable pub moves : Heap → List Move → Heap
unfolding move
moves h [] = h
moves h (x ∷ xs) = moves (move h x) xs
