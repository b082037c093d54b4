-- ===== src/Lru/Victim.antt =====
-- Which node `evict` picks: the first of those with the highest score.
use cache_system_with_fuse.Double.{Double, IsOrder}
use cache_system_with_fuse.Lru.{Node, score, scan}
use cache_system_with_fuse.Lru.Linked.{Linked}
use cache_system_with_fuse.Base.{
  ◌≢◌, ℕ, ◌≡◌, refl, inl, inr, true, false, Option, none, some, List, [], ◌∷◌, map, arith,
  ℕ_discrete, if◌then◌else◌, Bool-cases, find, Table,
}

abbrev pub AllNodes : {A : Type 0} → (Node A → Type 0) → List (Node A) → Type 0
AllNodes P [] = Unit {0}
AllNodes P (n ∷ ns) = P n × AllNodes P ns

module _ (F : Double) where
  -- The choice over the nodes alone.
  unfoldable pub best :
      List (Node F.Carrier) → F.Carrier → Option (Node F.Carrier) → Option (Node F.Carrier)
  best [] worst victim = victim
  best (n ∷ ns) worst victim =
      let better = F.gt (score F n) worst in
      best ns (if better then score F n else worst) (if better then some n else victim)

  abbrev pub node_of : Option (ℕ × Node F.Carrier) → Option (Node F.Carrier)
  node_of none = none
  node_of (some (a, n)) = some n

  pub node_of-scan :
      (order : Table ℕ (Node F.Carrier)) (worst : F.Carrier) (victim : Option (ℕ × Node F.Carrier))
      → node_of (scan F order worst victim) ≡ best (map (λ e. e.1) order) worst (node_of victim)
  unfolding scan best
  node_of-scan [] worst victim = refl
  node_of-scan ((a, n) ∷ rest) worst victim =
      ground (arith, node_of-scan rest (score F n) (some (a, n)), node_of-scan rest worst victim)

  -- The victim is a cell of the list, so the map names it.
  pub scan-Linked :
      (index : Table ℕ ℕ) (order : Table ℕ (Node F.Carrier)) (worst : F.Carrier)
      (victim : Option (ℕ × Node F.Carrier)) (a : ℕ) (n : Node F.Carrier)
      → Linked index order
      → (victim ≡ some (a, n) → find ℕ_discrete n.id index ≡ some a)
      → scan F order worst victim ≡ some (a, n)
      → find ℕ_discrete n.id index ≡ some a
  unfolding scan
  scan-Linked index [] worst victim a n k start e = start e
  scan-Linked index ((b, m) ∷ rest) worst victim a n k start e =
      elim (Bool-cases (F.gt (score F m) worst)) [
        | inl better ↦
            scan-Linked index rest (score F m) (some (b, m)) a n k.1 (λ p. ground (arith, p, k.0))
              (rw better at e)
        | inr worse ↦ scan-Linked index rest worst victim a n k.1 start (rw worse at e)
      ]

  -- A node does not score higher than another.
  abbrev pub NotAbove : Node F.Carrier → Node F.Carrier → Type 0
  NotAbove m n = F.gt (score F n) (score F m) ≡ false

  -- The score is above the value that the search starts from.
  abbrev pub IsFinite : Node F.Carrier → Type 0
  IsFinite n = F.gt (score F n) F.minus_dbl_max ≡ true

  module _ (o : IsOrder F) where
    -- What does not exceed the best score so far does not exceed the final one.
    best_rises :
        (ns : List (Node F.Carrier)) (worst : F.Carrier) (victim : Option (Node F.Carrier))
        (x : F.Carrier) (m : Node F.Carrier)
        → ((v : Node F.Carrier) → victim ≡ some v → score F v ≡ worst)
        → F.gt x worst ≡ false
        → best ns worst victim ≡ some m
        → F.gt x (score F m) ≡ false
    unfolding best
    best_rises [] worst victim x m start low e = rw (start m e) low
    best_rises (n ∷ ns) worst victim x m start low e = elim (Bool-cases (F.gt (score F n) worst)) [
      | inl better ↦
          best_rises ns (score F n) (some n) x m (λ v p. ground arith)
            (ground (arith, o.gt_trans x (score F n) worst)) (rw better at e)
      | inr worse ↦ best_rises ns worst victim x m start low (rw worse at e)
    ]

    -- No node scores higher than the one chosen.
    best_is_highest :
        (ns : List (Node F.Carrier)) (worst : F.Carrier) (victim : Option (Node F.Carrier))
        (m : Node F.Carrier)
        → ((v : Node F.Carrier) → victim ≡ some v → score F v ≡ worst)
        → best ns worst victim ≡ some m
        → AllNodes (NotAbove m) ns
    unfolding best
    best_is_highest [] worst victim m start e = tt
    best_is_highest (n ∷ ns) worst victim m start e = elim (Bool-cases (F.gt (score F n) worst)) [
      | inl better ↦ (
        best_rises ns (score F n) (some n) (score F n) m (λ v p. ground arith)
            (o.gt_irrefl (score F n)) (rw better at e),
        best_is_highest ns (score F n) (some n) m (λ v p. ground arith) (rw better at e),
      )
      | inr worse ↦ (
        best_rises ns worst victim (score F n) m start worse (rw worse at e),
        best_is_highest ns worst victim m start (rw worse at e),
      )
    ]

    pub best-NotAbove :
        (ns : List (Node F.Carrier)) (m : Node F.Carrier)
        → best ns F.minus_dbl_max none ≡ some m
        → AllNodes (NotAbove m) ns
    best-NotAbove ns m = best_is_highest ns F.minus_dbl_max none m (λ v p. cc)

  best-some :
      (ns : List (Node F.Carrier)) (worst : F.Carrier) (v : Node F.Carrier)
      → (m : Node F.Carrier) × (best ns worst (some v) ≡ some m)
  unfolding best
  best-some [] worst v = (v, refl)
  best-some (n ∷ ns) worst v = elim (Bool-cases (F.gt (score F n) worst)) [
    | inl better ↦ rw better (best-some ns (score F n) n)
    | inr worse ↦ rw worse (best-some ns worst v)
  ]

  best-some_ne :
      (ns : List (Node F.Carrier)) (worst : F.Carrier) (v : Node F.Carrier)
      → best ns worst (some v) ≢ none
  best-some_ne ns worst v e = let (m, found) = best-some ns worst v in absurd (cc)

  -- Where none is chosen, no node scores above the start value.
  pub best-none :
      (ns : List (Node F.Carrier)) (worst : F.Carrier)
      → best ns worst none ≡ none
      → AllNodes (λ n. F.gt (score F n) worst ≡ false) ns
  unfolding best
  best-none [] worst e = tt
  best-none (n ∷ ns) worst e = elim (Bool-cases (F.gt (score F n) worst)) [
    | inl better ↦ absurd (best-some_ne ns (score F n) n (rw better at e))
    | inr worse ↦ (worse, best-none ns worst (rw worse at e))
  ]

  -- A choice stays as long as nothing beats it.
  best_stays :
      (ns : List (Node F.Carrier)) (m : Node F.Carrier)
      → AllNodes (NotAbove m) ns
      → best ns (score F m) (some m) ≡ some m
  unfolding best
  best_stays [] m low = refl
  best_stays (n ∷ ns) m low = rw low.0 (best_stays ns m low.1)

  -- The front node is chosen when no other scores higher: ties go to the front.
  pub best_front :
      (n : Node F.Carrier) (ns : List (Node F.Carrier))
      → IsFinite n
      → AllNodes (NotAbove n) ns
      → best (n ∷ ns) F.minus_dbl_max none ≡ some n
  unfolding best
  best_front n ns finite low = rw finite (best_stays ns n low)

  -- Of nodes that are not all below the start value one is chosen.
  pub best_total :
      (n : Node F.Carrier) (ns : List (Node F.Carrier))
      → IsFinite n
      → (m : Node F.Carrier) × (best (n ∷ ns) F.minus_dbl_max none ≡ some m)
  unfolding best
  best_total n ns finite = rw finite (best-some ns (score F n) n)
