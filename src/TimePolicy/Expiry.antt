-- ===== src/TimePolicy/Expiry.antt =====
-- Which blocks the time policy gives up.
use cache_system_with_fuse.TimePolicy.{TimePolicy, age, remove, first_expired, evict}
use cache_system_with_fuse.Lru.{size_max}
use cache_system_with_fuse.Base.{
  ℕ, ◌≤◌, ◌<◌, ◌≡◌, refl, sym, ap, subst, ◌∙◌, ◌≢◌, ◌⊎◌, inl, inr, ite, if_pos, if_neg, none, some,
  [], ◌∷◌, arith, dec_le, ℕ_discrete, find, find-erase, Table,
}

-- Each block of a table has one time stamp, and none has the number `SIZE_MAX`.
abbrev pub IsKeyed : Table ℕ ℕ → Type 0
IsKeyed [] = Unit {0}
IsKeyed ((block_id, ts) ∷ rest) =
    (block_id ≢ size_max) × (find ℕ_discrete block_id rest ≡ none) × IsKeyed rest

none≢some : {a : ℕ} → ¬ (none ≡ some a)
none≢some e = cc

-- `evict` gives up a block whose last touch is at least the time to live ago, or none is that old.
first_expired_lem :
    (now ttl : ℕ) (t : Table ℕ ℕ)
    → IsKeyed t
    → let victim = first_expired now ttl t in
      ((victim ≢ size_max) × ((ts : ℕ) × (find ℕ_discrete victim t ≡ some ts) × (ttl ≤ age now ts)))
      ⊎ ((victim ≡ size_max) × ((id ts : ℕ) → find ℕ_discrete id t ≡ some ts → age now ts < ttl))
unfolding first_expired find
first_expired_lem now ttl [] v = inr (refl, λ id ts e. absurd (cc))
first_expired_lem now ttl ((block_id, ts) ∷ rest) (named, fresh, v) =
    elim (dec_le ttl (age now ts)) [
      | yes old ↦
          let chosen : first_expired now ttl ((block_id, ts) ∷ rest) ≡ block_id =
            ground (arith, old) in
          inl
            (rw chosen named, (ts, rw chosen (if_pos (ℕ_discrete block_id block_id) refl _ _), old))
      | no young ↦
          let later : first_expired now ttl ((block_id, ts) ∷ rest) ≡ first_expired now ttl rest =
            ground (arith, young) in
          elim (first_expired_lem now ttl rest v) [
            | inl (some_id, (ts', at, late)) ↦
                let other : block_id ≢ first_expired now ttl rest =
                  λ e. none≢some (sym fresh ∙ (ap (λ k. find ℕ_discrete k rest) e ∙ at)) in
                inl (
                  rw later some_id,
                  (
                    ts',
                    subst (λ k. find ℕ_discrete k ((block_id, ts) ∷ rest) ≡ some ts') (sym later)
                        (if_neg (ℕ_discrete block_id (first_expired now ttl rest)) other _ _ ∙ at),
                    late,
                  ),
                )
            | inr (none_left, early) ↦ inr (
              later ∙ none_left,
              λ id ts' e. elim (ℕ_discrete block_id id) [
                | yes same ↦ ground (arith, e, same, young)
                | no other ↦ early id ts' (ground (arith, e, other))
              ],
            )
          ]
    ]

-- Where each block has one time stamp and none the number `SIZE_MAX`, `evict` of the time policy
-- either returns a tracked block whose last touch is at least the time to live ago, and forgets
-- that block and no other, or it returns `SIZE_MAX` with the policy unchanged, and every tracked
-- block is younger.
pub evict_oldest :
    (now : ℕ) (t : TimePolicy)
    → IsKeyed t.timestamps
    → let r = evict now t in
      ((r.1 ≢ size_max)
        × ((ts : ℕ) × (find ℕ_discrete r.1 t.timestamps ≡ some ts) × (t.ttl_seconds ≤ age now ts))
        × ((id : ℕ)
            → find ℕ_discrete id r.0.timestamps
              ≡ ite (ℕ_discrete r.1 id) none (find ℕ_discrete id t.timestamps)))
      ⊎ ((r ≡ (t, size_max))
          × ((id ts : ℕ) → find ℕ_discrete id t.timestamps ≡ some ts → age now ts < t.ttl_seconds))
unfolding evict remove
evict_oldest now t v = elim (first_expired_lem now t.ttl_seconds t.timestamps v) [
  | inl (some_id, (ts, at, late)) ↦
      let victim = first_expired now t.ttl_seconds t.timestamps in
      inl (
        some_id,
        (ts, at, late),
        λ id. ground (arith, some_id, find-erase ℕ_discrete victim id t.timestamps),
      )
  | inr (none_left, early) ↦ inr (ground (arith, none_left), early)
]
