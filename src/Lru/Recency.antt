-- ===== src/Lru/Recency.antt =====
-- Histories of calls of `LruPolicy`.
use mathlib.Core.Path.{ap₂}
use cache_system_with_fuse.Double.{Double}
use cache_system_with_fuse.Lru.{
  Node, Lru, init, unlink, remove, evict, make_room, push_front, touch,
}
use cache_system_with_fuse.Lru.Linked.{IsLinked, nodes, without, nodes-remove, remove-IsLinked}
use cache_system_with_fuse.Lru.Victim.{AllNodes}
use cache_system_with_fuse.Lru.Invariant.{
  evict_nodes, touch_nodes, evict_lem, evict-IsLinked, touch-IsLinked, nodes-touch,
}
use cache_system_with_fuse.Base.{
  ℕ, ◌≤◌, ◌≡◌, refl, ap, ◌∙◌, if_pos, if_neg, List, [], ◌∷◌, arith, ℕ_discrete, length, find,
}

pub data Call (A : Type 0) : Type 0 where
  touches : Node A → Call A
  removes : ℕ → Call A
  evicts : Call A

pub without_le : {A : Type 0} (id : ℕ) (ns : List (Node A)) → length (without id ns) ≤ length ns
unfolding without
without_le id [] = omega arith
without_le id (n ∷ ns) = ground (arith, without_le id ns)

pub AllNodes-without :
    {A : Type 0} (P : Node A → Type 0) (id : ℕ) (ns : List (Node A))
    → AllNodes P ns
    → AllNodes P (without id ns)
unfolding without
AllNodes-without P id [] h = tt
AllNodes-without P id (n ∷ ns) h = elim (ℕ_discrete n.id id) [
  | yes e ↦ rw (if_pos (ℕ_discrete n.id id) e) (AllNodes-without P id ns h.1)
  | no e ↦ rw (if_neg (ℕ_discrete n.id id) e) (h.0, AllNodes-without P id ns h.1)
]

module _ (F : Double) where
  unfoldable pub step : Lru F.Carrier → Call F.Carrier → Lru F.Carrier
  step l (touches n) = touch F l n.id n.bytes n.hotness
  step l (removes id) = remove l id
  step l evicts = (evict F l).0

  unfoldable pub run : Lru F.Carrier → List (Call F.Carrier) → Lru F.Carrier
  run l [] = l
  run l (c ∷ cs) = run (step l c) cs

  unfoldable pub step_nodes : ℕ → List (Node F.Carrier) → Call F.Carrier → List (Node F.Carrier)
  step_nodes capacity ns (touches n) = touch_nodes F capacity n ns
  step_nodes capacity ns (removes id) = without id ns
  step_nodes capacity ns evicts = (evict_nodes F ns).0

  unfoldable pub run_nodes :
      ℕ → List (Node F.Carrier) → List (Call F.Carrier) → List (Node F.Carrier)
  run_nodes capacity ns [] = ns
  run_nodes capacity ns (c ∷ cs) = run_nodes capacity (step_nodes capacity ns c) cs

  step-IsLinked : (l : Lru F.Carrier) (c : Call F.Carrier) → IsLinked l → IsLinked (step l c)
  unfolding step
  step-IsLinked l (touches n) v = touch-IsLinked F l n.id n.bytes n.hotness v
  step-IsLinked l (removes id) v = remove-IsLinked l v id
  step-IsLinked l evicts v = evict-IsLinked F l v

  nodes-step :
      (l : Lru F.Carrier) (c : Call F.Carrier)
      → IsLinked l
      → nodes (step l c) ≡ step_nodes l.capacity (nodes l) c
  unfolding step step_nodes
  nodes-step l (touches n) v = nodes-touch F l n.id n.bytes n.hotness v
  nodes-step l (removes id) v = nodes-remove l v id
  nodes-step l evicts v = ap (λ r. r.0) (evict_lem F l v)

  capacity-step : (l : Lru F.Carrier) (c : Call F.Carrier) → (step l c).capacity ≡ l.capacity
  unfolding step touch push_front make_room evict remove unlink
  capacity-step l (touches n) = ground arith
  capacity-step l (removes id) = ground arith
  capacity-step l evicts = ground arith

  run_from :
      (cs : List (Call F.Carrier)) (l : Lru F.Carrier)
      → IsLinked l
      → IsLinked (run l cs) × (nodes (run l cs) ≡ run_nodes l.capacity (nodes l) cs)
  unfolding run run_nodes
  run_from [] l v = (v, refl)
  run_from (c ∷ cs) l v =
      let (kept, same) = run_from cs (step l c) (step-IsLinked l c v) in
      (kept, same ∙ ap₂ (λ k ns. run_nodes k ns cs) (capacity-step l c) (nodes-step l c v))

  -- After any sequence of `touch`, `remove` and `evict` on a new policy, its list and its map of
  -- iterators agree (each listed block's iterator is its own cell, no two blocks share one and
  -- none dangles), and the nodes, most recently touched first, are those that the same calls
  -- leave of a plain list of nodes.
  pub run-init :
      (capacity : ℕ) (cs : List (Call F.Carrier))
      → let l = run (init capacity) cs in IsLinked l × (nodes l ≡ run_nodes capacity [] cs)
  unfolding init
  run-init capacity cs = run_from cs _ (record {
    linked = tt;
    distinct = λ i j a p q. unfold find in cc;
    tracked = λ i a p. unfold find in absurd (cc);
  })
