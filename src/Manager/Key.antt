-- ===== src/Manager/Key.antt =====
-- The key under which the policy tracks a block of an entry, and what eviction recovers from it.
use cache_system_with_fuse.Manager.{block_key}
use cache_system_with_fuse.Base.{ℕ, ◌+◌, ◌*◌, ◌/◌, ◌%◌, ◌^◌, ◌<◌, ◌≡◌, ◌↔◌, arith, bit_or_disjoint}

block_key_lem :
    (address blk : ℕ) → blk < 2 ^ 32 → block_key address blk ≡ address % 2 ^ 32 * 2 ^ 32 + blk
unfolding block_key
block_key_lem address blk h =
    let wrapped : address * 2 ^ 32 % 2 ^ 64 ≡ address % 2 ^ 32 * 2 ^ 32 = omega arith in
    rw wrapped (bit_or_disjoint 32 (address % 2 ^ 32) blk h)

-- Where the block number is below 2 ^ 32, the upper half of the key under which the policy tracks
-- a block is the entry's address modulo 2 ^ 32, so it is the address exactly if that is below 2 ^
-- 32, and the lower half is the block number.
pub block_key_address :
    (address blk : ℕ)
    → blk < 2 ^ 32
    → (block_key address blk / 2 ^ 32 ≡ address % 2 ^ 32)
      × (block_key address blk % 2 ^ 32 ≡ blk)
      × ((block_key address blk / 2 ^ 32 ≡ address) ↔ (address < 2 ^ 32))
block_key_address address blk h =
    let e = block_key_lem address blk h in
    (omega (arith, e), omega (arith, e), (λ p. omega (arith, e, p), λ p. omega (arith, e, p)))
