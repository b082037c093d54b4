-- ===== src/Lru/Bound.antt =====
-- The size of `LruPolicy`, and the block that an eviction takes.
use cache_system_with_fuse.Double.{Double}
use cache_system_with_fuse.Lru.{Node, Lru, init, score, evict, touch}
use cache_system_with_fuse.Lru.Linked.{IsLinked, nodes, without}
use cache_system_with_fuse.Lru.Victim.{AllNodes, best, NotAbove, IsFinite, best_total, best_front}
use cache_system_with_fuse.Lru.Invariant.{
  evict_nodes, touch_nodes, evict_lem, touch-IsLinked, nodes-touch,
}
use cache_system_with_fuse.Lru.Recency.{
  Call, touches, removes, evicts, step_nodes, run_nodes, run, run-init, without_le,
  AllNodes-without,
}
use cache_system_with_fuse.Base.{
  ℕ, ◌+◌, ◌≤◌, ◌<◌, max, ◌≡◌, ap, ◌∙◌, ◌⊎◌, inl, inr, Option, none, some, List, [], ◌∷◌, arith, leb,
  if◌then◌else◌, Bool-cases, Option-cases, length,
}

module _ (F : Double) where
  -- The chosen node is one of the list, so that dropping it makes the list shorter.
  best_drops :
      (ns : List (Node F.Carrier)) (worst : F.Carrier) (victim : Option (Node F.Carrier))
      (m : Node F.Carrier)
      → best F ns worst victim ≡ some m
      → (victim ≡ some m) ⊎ (length (without m.id ns) < length ns)
  unfolding best without
  best_drops [] worst victim m e = inl e
  best_drops (n ∷ ns) worst victim m e = ground (
    arith,
    without_le m.id ns,
    best_drops ns (score F n) (some n) m,
    best_drops ns worst victim m,
  )

  AllNodes-evict_nodes :
      (P : Node F.Carrier → Type 0) (ns : List (Node F.Carrier))
      → AllNodes P ns
      → AllNodes P (evict_nodes F ns).0
  unfolding evict_nodes
  AllNodes-evict_nodes P ns h = elim (Option-cases (best F ns F.minus_dbl_max none)) [
    | inl e ↦ rw (e, evict_nodes) h
    | inr (m, e) ↦ rw (e, evict_nodes) (AllNodes-without P m.id ns h)
  ]

  -- An eviction from a list with a finite score makes it shorter.
  length-evict_nodes :
      (n : Node F.Carrier) (ns : List (Node F.Carrier))
      → IsFinite F n
      → length (evict_nodes F (n ∷ ns)).0 ≤ length ns
  unfolding evict_nodes
  length-evict_nodes n ns finite =
      let (m, e) = best_total F n ns finite in
      ground (arith, e, best_drops (n ∷ ns) F.minus_dbl_max none m e)

  AllNodes-touch_nodes :
      (P : Node F.Carrier → Type 0) (capacity : ℕ) (n : Node F.Carrier) (ns : List (Node F.Carrier))
      → P n
      → AllNodes P ns
      → AllNodes P (touch_nodes F capacity n ns)
  unfolding touch_nodes
  AllNodes-touch_nodes P capacity n ns new h =
      let rest = AllNodes-without P n.id ns h in
      ground (arith, new, rest, AllNodes-evict_nodes P (without n.id ns) rest)

  length_room :
      (capacity : ℕ) (rest : List (Node F.Carrier))
      → AllNodes (IsFinite F) rest
      → length rest ≤ max 1 capacity
      → length (if leb capacity (length rest) then (evict_nodes F rest).0 else rest) + 1
        ≤ max 1 capacity
  unfolding evict_nodes best
  length_room capacity [] finite h = ground arith
  length_room capacity (n ∷ ns) finite h = ground (arith, length-evict_nodes n ns finite.0)

  length-touch_nodes :
      (capacity : ℕ) (n : Node F.Carrier) (ns : List (Node F.Carrier))
      → AllNodes (IsFinite F) ns
      → length ns ≤ max 1 capacity
      → length (touch_nodes F capacity n ns) ≤ max 1 capacity
  unfolding touch_nodes
  length-touch_nodes capacity n ns finite h = omega (
    arith,
    length_room capacity (without n.id ns) (AllNodes-without (IsFinite F) n.id ns finite)
        (omega (arith, without_le n.id ns)),
  )

  -- The nodes that a call brings have scores above the start value of the search.
  abbrev pub FiniteCalls : List (Call F.Carrier) → Type 0
  FiniteCalls [] = Unit {0}
  FiniteCalls (touches n ∷ cs) = IsFinite F n × FiniteCalls cs
  FiniteCalls (removes id ∷ cs) = FiniteCalls cs
  FiniteCalls (evicts ∷ cs) = FiniteCalls cs

  evict_nodes_le : (ns : List (Node F.Carrier)) → length (evict_nodes F ns).0 ≤ length ns
  unfolding evict_nodes
  evict_nodes_le ns = elim (Option-cases (best F ns F.minus_dbl_max none)) [
    | inl e ↦ rw (e, evict_nodes) (omega arith)
    | inr (m, e) ↦ rw (e, evict_nodes) (without_le m.id ns)
  ]

  run_nodes_bounded :
      (capacity : ℕ) (cs : List (Call F.Carrier)) (ns : List (Node F.Carrier))
      → FiniteCalls cs
      → AllNodes (IsFinite F) ns
      → length ns ≤ max 1 capacity
      → length (run_nodes F capacity ns cs) ≤ max 1 capacity
  unfolding run_nodes step_nodes
  run_nodes_bounded capacity [] ns fc h b = b
  run_nodes_bounded capacity (touches n ∷ cs) ns fc h b =
      run_nodes_bounded capacity cs _ fc.1 (AllNodes-touch_nodes (IsFinite F) capacity n ns fc.0 h)
        (length-touch_nodes capacity n ns h b)
  run_nodes_bounded capacity (removes id ∷ cs) ns fc h b =
      run_nodes_bounded capacity cs _ fc (AllNodes-without (IsFinite F) id ns h)
        (omega (arith, without_le id ns))
  run_nodes_bounded capacity (evicts ∷ cs) ns fc h b =
      run_nodes_bounded capacity cs _ fc (AllNodes-evict_nodes (IsFinite F) ns h)
        (omega (arith, evict_nodes_le ns))

  -- After any calls on a new policy whose touched nodes all score above -DBL_MAX, at most
  -- `capacity` nodes are tracked, or one where the capacity is 0.
  pub run_bounded :
      (capacity : ℕ) (cs : List (Call F.Carrier))
      → FiniteCalls cs
      → length (nodes (run F (init capacity) cs)) ≤ max 1 capacity
  run_bounded capacity cs fc =
      rw ((run-init F capacity cs).1) (run_nodes_bounded capacity cs [] fc tt (omega arith))

  evict_front :
      (n : Node F.Carrier) (ns : List (Node F.Carrier))
      → IsFinite F n
      → AllNodes (NotAbove F n) ns
      → (evict_nodes F (n ∷ ns)).1 ≡ n.id
  unfolding evict_nodes
  evict_front n ns finite low = ground (arith, best_front F n ns finite low)

  evict_touch_nodes :
      (capacity : ℕ) (n : Node F.Carrier) (ns : List (Node F.Carrier))
      → IsFinite F n
      → AllNodes (NotAbove F n) ns
      → (evict_nodes F (touch_nodes F capacity n ns)).1 ≡ n.id
  unfolding touch_nodes
  evict_touch_nodes capacity n ns finite low =
      let kept = AllNodes-without (NotAbove F n) n.id ns low in
      elim (Bool-cases (leb capacity (length (without n.id ns)))) [
        | inl full ↦
            rw full
              (evict_front n _ finite (AllNodes-evict_nodes (NotAbove F n) (without n.id ns) kept))
        | inr room ↦ rw room (evict_front n (without n.id ns) finite kept)
      ]

  -- Where the list and the map agree, the score of a touched block is above -DBL_MAX and no
  -- tracked node scores above it, the next `evict` returns that very block: among equal scores
  -- the most recently touched goes first.
  pub evict-touch :
      (l : Lru F.Carrier) (id bytes : ℕ) (hotness : F.Carrier)
      → IsLinked l
      → let n : Node F.Carrier = record { id = id; bytes = bytes; hotness = hotness } in
        IsFinite F n
        → AllNodes (NotAbove F n) (nodes l)
        → (evict F (touch F l id bytes hotness)).1 ≡ id
  evict-touch l id bytes hotness v finite low =
      ap (λ r. r.1) (evict_lem F _ (touch-IsLinked F l id bytes hotness v))
      ∙ (ap (λ ns. (evict_nodes F ns).1) (nodes-touch F l id bytes hotness v)
          ∙ evict_touch_nodes l.capacity _ (nodes l) finite low)
