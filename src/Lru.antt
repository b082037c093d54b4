-- ===== src/Lru.antt =====
-- cache/policy/lru_policy.h and .cc. An iterator into `order_` is the address of its list cell; a new
-- cell gets a fresh address.
pub mod Linked
pub mod Invariant
pub mod Victim
pub mod Recency
pub mod Bound
use cache_system_with_fuse.Double.{Double}
use cache_system_with_fuse.Base.{
  ℕ, zero, suc, ◌+◌, ◌-◌, ◌*◌, ◌/◌, ◌%◌, ◌^◌, ◌≤◌, ◌<◌, min, max, ◌≡◌, refl, sym, ap, subst, ◌∙◌,
  ◌≢◌, ◌↔◌, ◌⊎◌, inl, inr, ite, if_pos, if_neg, Bool, true, false, ◌&&◌, ◌||◌, not, Option, none,
  some, List, [], ◌∷◌, ◌++◌, map, arith, dec_lt, dec_le, ℕ_discrete, ltb, leb, ◌==◌, if◌then◌else◌,
  ltb→lt, lt→ltb, ==_iff, Bool-cases, Option-cases, ℤ, pos, negsuc, neg, is_negative, to_ℕ, length,
  get_or, set, take, drop, replicate, length-append, length-set, length-replicate, get_or-set_self,
  get_or-set_ne, get_or-append_left, get_or_past, Text, codes, text_discrete, find, put, erase,
  find-put, find-erase, table_laws, keys, has, Table, Bytes, memcpy, Agree, bit_or_disjoint,
}

-- `LruPolicy::Node`.
pub record Node (A : Type 0) : Type 0 where
  pub id : ℕ
  pub bytes : ℕ
  pub hotness : A

-- The front of `order_` is the head of the list.
pub record Lru (A : Type 0) : Type 0 where
  pub capacity : ℕ
  pub order : Table ℕ (Node A)
  pub index : Table ℕ ℕ
  pub next : ℕ

-- `std::numeric_limits<std::size_t>::max()`.
abbrev pub size_max : ℕ
size_max = 2 ^ 64 - 1

unfoldable pub init : {A : Type 0} → ℕ → Lru A
init capacity = record { capacity = capacity; order = []; index = []; next = 0 }

-- `order_.erase(iterator)` and `map_.erase(id)`.
unfoldable pub unlink : {A : Type 0} → Lru A → ℕ → ℕ → Lru A
unlink l id address = record l {
  order = erase ℕ_discrete address l.order;
  index = erase ℕ_discrete id l.index;
}

unfoldable pub remove : {A : Type 0} → Lru A → ℕ → Lru A
remove l id = elim (find ℕ_discrete id l.index) [ none ↦ l | some address ↦ unlink l id address ]

module _ (F : Double) where
  unfoldable pub score : Node F.Carrier → F.Carrier
  score n = F.mul (F.of_size n.bytes) (F.sub F.one n.hotness)

  -- The loop of `evict`, with `worstScore` and `victim_it`; `none` is `order_.end()`.
  unfoldable pub scan :
      Table ℕ (Node F.Carrier)
      → F.Carrier
      → Option (ℕ × Node F.Carrier)
      → Option (ℕ × Node F.Carrier)
  scan [] worst victim = victim
  scan ((address, n) ∷ rest) worst victim =
      let better = F.gt (score n) worst in
      scan rest (if better then score n else worst) (if better then some (address, n) else victim)

  unfoldable pub evict : Lru F.Carrier → Lru F.Carrier × ℕ
  evict l = elim (scan l.order F.minus_dbl_max none) [
    | none ↦ (l, size_max)
    | some (address, n) ↦ (unlink l n.id address, n.id)
  ]

  -- `order_.push_front({blockId, bytes, hotness}); map_[blockId] = order_.begin();`
  unfoldable pub push_front : Lru F.Carrier → Node F.Carrier → Lru F.Carrier
  push_front l n = record l {
    order = (l.next, n) ∷ l.order;
    index = put ℕ_discrete n.id l.next l.index;
    next = suc l.next;
  }

  unfoldable pub make_room : Lru F.Carrier → Lru F.Carrier
  make_room l = if leb l.capacity (length l.order) then (evict l).0 else l

  unfoldable pub touch : Lru F.Carrier → ℕ → ℕ → F.Carrier → Lru F.Carrier
  touch l block_id bytes hotness =
      push_front (make_room (remove l block_id))
        (record { id = block_id; bytes = bytes; hotness = hotness })
