-- ===== src/Lru/Invariant.antt =====
-- The invariant of `LruPolicy`, and that each operation is one on the list of nodes.
use cache_system_with_fuse.Double.{Double}
use cache_system_with_fuse.Lru.{
  Node, Lru, unlink, remove, scan, evict, push_front, make_room, touch, size_max,
}
use cache_system_with_fuse.Lru.Linked.{
  Linked, IsLinked, nodes, without, nodes-unlink, unlink-IsLinked, nodes-remove, remove-IsLinked,
  remove_absent,
}
use cache_system_with_fuse.Lru.Victim.{best, node_of, node_of-scan, scan-Linked}
use cache_system_with_fuse.Base.{
  ℕ, suc, ◌≡◌, refl, sym, ap, ◌∙◌, ◌⊎◌, inl, inr, none, some, List, [], ◌∷◌, map, arith, ℕ_discrete,
  leb, if◌then◌else◌, Option-cases, length, find, put, find-put, find-erase, Table,
}

Linked-put :
    {A : Type 0} (id address : ℕ) (index : Table ℕ ℕ) (order : Table ℕ (Node A))
    → find ℕ_discrete id index ≡ none
    → Linked index order
    → Linked (put ℕ_discrete id address index) order
Linked-put id address index [] absent k = tt
Linked-put id address index ((a, n) ∷ rest) absent k = (
  ground (arith, find-put ℕ_discrete id n.id address index, k.0),
  Linked-put id address index rest absent k.1,
)

module _ (F : Double) where
  push_front-IsLinked :
      (l : Lru F.Carrier) (n : Node F.Carrier)
      → IsLinked l
      → find ℕ_discrete n.id l.index ≡ none
      → IsLinked (push_front F l n)
  unfolding push_front find
  push_front-IsLinked l n v absent = record {
    linked = (
      ground (arith, find-put ℕ_discrete n.id n.id l.next l.index),
      Linked-put n.id l.next l.index l.order absent v.linked,
    );
    distinct = λ i j a p q. ground (
      arith,
      v.distinct i j a,
      v.tracked i a,
      v.tracked j a,
      find-put ℕ_discrete n.id i l.next l.index,
      find-put ℕ_discrete n.id j l.next l.index,
    );
    tracked = λ i a p. ground (arith, v.tracked i a, find-put ℕ_discrete n.id i l.next l.index);
  }

  -- The specification: the nodes, most recently touched first, are all of the state.
  unfoldable pub evict_nodes : List (Node F.Carrier) → List (Node F.Carrier) × ℕ
  evict_nodes ns = elim (best F ns F.minus_dbl_max none) [
    | none ↦ (ns, size_max)
    | some m ↦ (without m.id ns, m.id)
  ]

  unfoldable pub touch_nodes : ℕ → Node F.Carrier → List (Node F.Carrier) → List (Node F.Carrier)
  touch_nodes capacity n ns =
      let rest = without n.id ns in
      n ∷ (if leb capacity (length rest) then (evict_nodes rest).0 else rest)

  module _ (l : Lru F.Carrier) (v : IsLinked l) where
    scan_cases :
        ((scan F l.order F.minus_dbl_max none ≡ none)
          × (best F (nodes l) F.minus_dbl_max none ≡ none))
        ⊎ ((a : ℕ) × (m : Node F.Carrier) × (scan F l.order F.minus_dbl_max none ≡ some (a, m))
            × (best F (nodes l) F.minus_dbl_max none ≡ some m)
            × (find ℕ_discrete m.id l.index ≡ some a))
    scan_cases = elim (Option-cases (scan F l.order F.minus_dbl_max none)) [
      | inl e ↦ inl (e, sym (node_of-scan F l.order F.minus_dbl_max none) ∙ ap (node_of F) e)
      | inr ((a, m), e) ↦ inr (
        a,
        m,
        e,
        sym (node_of-scan F l.order F.minus_dbl_max none) ∙ ap (node_of F) e,
        scan-Linked F l.index l.order F.minus_dbl_max none a m v.linked (λ p. cc) e,
      )
    ]

    -- `evict` drops the chosen node and returns its block.
    pub evict_lem : (nodes (evict F l).0, (evict F l).1) ≡ evict_nodes (nodes l)
    unfolding evict evict_nodes
    evict_lem = elim scan_cases [
      | inl (p, q) ↦ ground (arith, p, q)
      | inr (a, m, p, q, at) ↦ ground (arith, p, q, nodes-unlink l v m.id a at)
    ]

    pub evict-IsLinked : IsLinked (evict F l).0
    unfolding evict
    evict-IsLinked = elim scan_cases [
      | inl (p, q) ↦ rw (p, evict) v
      | inr (a, m, p, q, at) ↦ rw (p, evict) (unlink-IsLinked l v m.id a at)
    ]

    evict_absent :
        (id : ℕ) → find ℕ_discrete id l.index ≡ none → find ℕ_discrete id (evict F l).0.index ≡ none
    unfolding evict unlink
    evict_absent id absent = elim scan_cases [
      | inl (p, q) ↦ rw (p, evict) absent
      | inr (a, m, p, q, at) ↦ rw (p, evict) (ground (arith, find-erase ℕ_discrete m.id id l.index))
    ]

  make_room-IsLinked : (l : Lru F.Carrier) → IsLinked l → IsLinked (make_room F l)
  unfolding make_room
  make_room-IsLinked l v = ground (arith, evict-IsLinked l v)

  -- Touching keeps the list and the map of iterators in step.
  pub touch-IsLinked :
      (l : Lru F.Carrier) (id bytes : ℕ) (hotness : F.Carrier)
      → IsLinked l
      → IsLinked (touch F l id bytes hotness)
  unfolding touch make_room
  touch-IsLinked l id bytes hotness v =
      push_front-IsLinked (make_room F (remove l id)) _
        (make_room-IsLinked (remove l id) (remove-IsLinked l v id))
        (ground (
          arith,
          remove_absent l v id,
          evict_absent (remove l id) (remove-IsLinked l v id) id (remove_absent l v id),
        ))

  length-nodes : (order : Table ℕ (Node F.Carrier)) → length (map (λ e. e.1) order) ≡ length order
  length-nodes [] = refl
  length-nodes (e ∷ order) = ap suc (length-nodes order)

  -- `touch` on the list of cells and the map is `touch_nodes` on the nodes.
  pub nodes-touch :
      (l : Lru F.Carrier) (id bytes : ℕ) (hotness : F.Carrier)
      → IsLinked l
      → nodes (touch F l id bytes hotness)
        ≡ touch_nodes l.capacity (record { id = id; bytes = bytes; hotness = hotness }) (nodes l)
  unfolding touch push_front make_room touch_nodes remove unlink
  nodes-touch l id bytes hotness v = ground (
    arith,
    nodes-remove l v id,
    evict_lem (remove l id) (remove-IsLinked l v id),
    length-nodes (remove l id).order,
  )
