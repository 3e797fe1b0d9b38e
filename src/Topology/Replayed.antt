-- ===== src/Topology/Replayed.antt =====
-- A replay of the topology against what the broker was asked for before. RabbitMQ takes a declaration
-- that it has already for the same one, so what it was asked for is a set: a list of declarations,
-- forgetting order and repetition.
use mathlib.Core.Quot
use mathlib.Core.Quot.{Quot}
use mathlib.Core.Logic.Or
use mathlib.Core.Path.{subst}
use mathlib.Core.List.{
  Mem, Mem-prop, Subset, mem-append, mem-append_left, mem-append_right, mem-reverse, reverse,
  append_assoc,
}
use huma.Base.{◌≡◌, ◌↔◌, inl, inr, refl, sym, ap, ◌∙◌, true, false, List, [], ◌∷◌, ◌++◌}
use huma.Go.Result.{Result, ok}
use huma.Go.Runs.{Ran}
use huma.Config.Queue.{QueueConfig}
use huma.Topology.{Declaration, Server, declare_queues_locked}
use huma.Topology.Plan.{plan, plans, declare_queues_locked-Ran, Emits-each}

abbrev pub SameDeclarations : List Declaration → List Declaration → Type 0
SameDeclarations xs ys = (d : Declaration) → Mem d xs ↔ Mem d ys

abbrev pub Topology : Type 0
Topology = Quot SameDeclarations

abbrev pub topology_of : List Declaration → Topology
topology_of = Quot.mk

-- The calls of `DeclareQueues`, each with its server: the queues kept, and the declarations made.
abbrev pub declares :
    List (Server × List QueueConfig)
    → List QueueConfig × List Declaration
    → List QueueConfig × List Declaration
declares [] (kept, l) = (kept, l)
declares ((s, queues) ∷ cs) (kept, l) =
    let (_, kept', l') = declare_queues_locked s queues true kept l in declares cs (kept', l')

-- Rounds of `reconnect` that come to the replay of the kept queues.
abbrev pub replays : List Server → List QueueConfig → List Declaration → List Declaration
replays [] kept l = l
replays (s ∷ ss) kept l = replays ss kept (declare_queues_locked s kept false kept l).2

Subset-append : (xs ys zs : List Declaration) → Subset xs zs → Subset ys zs → Subset (xs ++ ys) zs
Subset-append xs ys zs h k d m = Or.elim Mem-prop (mem-append.0 m) (h d) (k d)

-- A run has the declarations that were there, and others of its plan only; all of them if it succeeds.
record Grew (p l w : List Declaration) (r : Result (Unit {0})) : Type 0 where
  keeps : Subset l w
  adds : Subset p l → Subset w l
  covers : r ≡ ok tt → Subset p w

pushed :
    (made l w : List Declaration)
    → w ≡ reverse made ++ l
    → Subset l w × Subset made w × (Subset made l → Subset w l)
pushed made l w e = (
  λ d m. subst (Mem d) (sym e) (mem-append_right (reverse made) m),
  λ d m. subst (Mem d) (sym e) (mem-append_left l (mem-reverse.1 m)),
  λ h d m.
      Or.elim Mem-prop (mem-append.0 (subst (Mem d) e m)) (λ k. h d (mem-reverse.0 k)) (λ k. k),
)

Ran-Grew : (p l w : List Declaration) (r : Result (Unit {0})) → Ran p l (r, w) → Grew p l w r
Ran-Grew p l w r (inl (_, e)) =
    let (keeps, covers, adds) = pushed p l w e in
    record { keeps = keeps; adds = adds; covers = λ _. covers }
Ran-Grew p l w r (inr (bad, (made, left, parts, e))) =
    let (keeps, _, adds) = pushed made l w e in
    record {
      keeps = keeps;
      adds = λ h. adds (λ d m. h d (subst (Mem d) (sym parts) (mem-append_left left m)));
      covers = λ fine. absurd (bad fine);
    }

plans-append : (qs rs : List QueueConfig) → plans (qs ++ rs) ≡ plans qs ++ plans rs
plans-append [] rs = refl
plans-append (q ∷ qs) rs =
    ap (◌++◌ (plan q)) (plans-append qs rs) ∙ sym (append_assoc (plan q) (plans qs) (plans rs))

-- What is kept was declared.
declares-Covers :
    (cs : List (Server × List QueueConfig)) (kept : List QueueConfig) (l : List Declaration)
    → Subset (plans kept) l
    → let (kept', l') = declares cs (kept, l) in Subset (plans kept') l'
declares-Covers [] kept l h = h
declares-Covers ((s, queues) ∷ cs) kept l h =
    let (r, kept', l') = declare_queues_locked s queues true kept l in
    let (ran, cases) = declare_queues_locked-Ran s queues kept l in
    let g = Ran-Grew (plans queues) l l' r ran in
    declares-Covers cs kept' l' (elim cases [
      | inr (_, same) ↦ subst (λ k. Subset (plans k) l') (sym same) (λ d m. g.keeps d (h d m))
      | inl (fine, more) ↦
          subst (λ ds. Subset ds l') (sym (ap plans more ∙ plans-append kept queues))
            (Subset-append (plans kept) (plans queues) l' (λ d m. g.keeps d (h d m))
              (g.covers fine))
    ])

replay-Grew :
    (s : Server) (kept : List QueueConfig) (l : List Declaration)
    → let (r, _, w) = declare_queues_locked s kept false kept l in Grew (plans kept) l w r
unfolding declare_queues_locked
replay-Grew s kept l = Ran-Grew (plans kept) l _ _ ((Emits-each s kept).at l)

replays-SameTopology :
    (ss : List Server) (kept : List QueueConfig) (l : List Declaration)
    → Subset (plans kept) l
    → topology_of (replays ss kept l) ≡ topology_of l
replays-SameTopology [] kept l h = refl
replays-SameTopology (s ∷ ss) kept l h =
    let g = replay-Grew s kept l in
    replays-SameTopology ss kept _ (λ d m. g.keeps d (h d m))
    ∙ Quot.sound (λ d. (g.adds h d, g.keeps d))

-- After any calls of `DeclareQueues` on a new SDK, of which each succeeds or fails at any of its
-- declarations, the replay of the kept queues, however often reconnects come to it and wherever each
-- replay fails, asks the broker for nothing that it was not asked for before: the set of declarations
-- stays the same.
pub replays-declares :
    (cs : List (Server × List QueueConfig)) (ss : List Server)
    → let (kept, l) = declares cs ([], []) in topology_of (replays ss kept l) ≡ topology_of l
replays-declares cs ss =
    let (kept, l) = declares cs ([], []) in
    replays-SameTopology ss kept l (declares-Covers cs [] [] (λ d m. m))
