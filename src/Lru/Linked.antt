-- ===== src/Lru/Linked.antt =====
-- The list of cells and the map of iterators describe one list of nodes, keyed by block.
use cache_system_with_fuse.Lru.{Node, Lru, unlink, remove}
use cache_system_with_fuse.Base.{
  ℕ, ◌<◌, ◌≡◌, refl, sym, inl, inr, ite, true, none, some, List, [], ◌∷◌, map, arith, ℕ_discrete,
  Option-cases, find, erase, find-erase, has, Table,
}

-- Each cell is the one that the map names for its block.
abbrev pub Linked : {A : Type 0} → Table ℕ ℕ → Table ℕ (Node A) → Type 0
Linked index [] = Unit {0}
Linked index ((address, n) ∷ rest) = (find ℕ_discrete n.id index ≡ some address) × Linked index rest

-- No iterator of the map dangles, and no two are for one cell.
pub record IsLinked {A : Type 0} (l : Lru A) : Type 0 where
  pub linked : Linked l.index l.order
  pub distinct :
      (i j address : ℕ)
      → find ℕ_discrete i l.index ≡ some address
      → find ℕ_discrete j l.index ≡ some address
      → i ≡ j
  pub tracked :
      (i address : ℕ)
      → find ℕ_discrete i l.index ≡ some address
      → (has ℕ_discrete address l.order ≡ true) × (address < l.next)

-- The nodes, most recently touched first, and the same without a block's.
abbrev pub nodes : {A : Type 0} → Lru A → List (Node A)
nodes l = map (λ e. e.1) l.order

unfoldable pub without : {A : Type 0} → ℕ → List (Node A) → List (Node A)
without id [] = []
without id (n ∷ ns) = ite (ℕ_discrete n.id id) (without id ns) (n ∷ without id ns)

module _ {A : Type 0} (l : Lru A) (v : IsLinked l) where
  module _ (id address : ℕ) (at : find ℕ_discrete id l.index ≡ some address) where
    nodes_erase :
        (order : Table ℕ (Node A))
        → Linked l.index order
        → map (λ e. e.1) (erase ℕ_discrete address order) ≡ without id (map (λ e. e.1) order)
    unfolding erase without
    nodes_erase [] k = refl
    nodes_erase ((a, n) ∷ rest) k = ground (arith, nodes_erase rest k.1, v.distinct n.id id address)

    Linked-erase :
        (order : Table ℕ (Node A))
        → Linked l.index order
        → Linked (erase ℕ_discrete id l.index) (erase ℕ_discrete address order)
    unfolding erase
    Linked-erase [] k = tt
    Linked-erase ((a, n) ∷ rest) k =
        ground (arith, Linked-erase rest k.1, find-erase ℕ_discrete id n.id l.index)

    pub nodes-unlink : nodes (unlink l id address) ≡ without id (nodes l)
    unfolding unlink
    nodes-unlink = nodes_erase l.order v.linked

    pub unlink-IsLinked : IsLinked (unlink l id address)
    unfolding unlink
    unlink-IsLinked = record {
      linked = Linked-erase l.order v.linked;
      distinct = λ i j a p q. ground (
        arith,
        v.distinct i j a,
        find-erase ℕ_discrete id i l.index,
        find-erase ℕ_discrete id j l.index,
      );
      tracked = λ i a p. ground (
        arith,
        v.tracked i a,
        v.distinct i id a,
        find-erase ℕ_discrete id i l.index,
        find-erase ℕ_discrete address a l.order,
      );
    }

  without_absent :
      (id : ℕ) (order : Table ℕ (Node A))
      → Linked l.index order
      → find ℕ_discrete id l.index ≡ none
      → without id (map (λ e. e.1) order) ≡ map (λ e. e.1) order
  unfolding without
  without_absent id [] k absent = refl
  without_absent id ((a, n) ∷ rest) k absent = ground (arith, without_absent id rest k.1 absent)

  -- `remove` drops the block's node and no other.
  pub nodes-remove : (id : ℕ) → nodes (remove l id) ≡ without id (nodes l)
  unfolding remove
  nodes-remove id = elim (Option-cases (find ℕ_discrete id l.index)) [
    | inl absent ↦ rw (absent, remove) (sym (without_absent id l.order v.linked absent))
    | inr (address, at) ↦ rw (at, remove) (nodes-unlink id address at)
  ]

  pub remove-IsLinked : (id : ℕ) → IsLinked (remove l id)
  unfolding remove
  remove-IsLinked id = elim (Option-cases (find ℕ_discrete id l.index)) [
    | inl absent ↦ rw (absent, remove) v
    | inr (address, at) ↦ rw (at, remove) (unlink-IsLinked id address at)
  ]

  -- After `remove` the block is not in the map.
  pub remove_absent : (id : ℕ) → find ℕ_discrete id (remove l id).index ≡ none
  unfolding remove unlink
  remove_absent id = ground (arith, find-erase ℕ_discrete id id l.index)
