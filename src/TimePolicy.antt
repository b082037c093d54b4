-- ===== src/TimePolicy.antt =====
-- cache/policy/time_policy.h and .cc. A table is one order in which `timestamps_` may be iterated; times
-- are nanoseconds of the steady clock since some start.
pub mod Expiry
use cache_system_with_fuse.Lru.{size_max}
use cache_system_with_fuse.Base.{
  ℕ, zero, suc, ◌+◌, ◌-◌, ◌*◌, ◌/◌, ◌%◌, ◌^◌, ◌≤◌, ◌<◌, min, max, ◌≡◌, refl, sym, ap, subst, ◌∙◌,
  ◌≢◌, ◌↔◌, ◌⊎◌, inl, inr, ite, if_pos, if_neg, Bool, true, false, ◌&&◌, ◌||◌, not, Option, none,
  some, List, [], ◌∷◌, ◌++◌, map, arith, dec_lt, dec_le, ℕ_discrete, ltb, leb, ◌==◌, if◌then◌else◌,
  ltb→lt, lt→ltb, ==_iff, Bool-cases, Option-cases, ℤ, pos, negsuc, neg, is_negative, to_ℕ,
  is_count, Outcome, returned, thrown, faulted, exhausted, length, get_or, set, take, drop,
  replicate, length-append, length-set, length-replicate, get_or-set_self, get_or-set_ne,
  get_or-append_left, get_or_past, Text, codes, text_discrete, find, put, erase, find-put,
  find-erase, table_laws, keys, has, Table, Bytes, memcpy, Agree, bit_or_disjoint,
}

pub record TimePolicy : Type 0 where
  pub ttl_seconds : ℕ
  pub timestamps : Table ℕ ℕ

unfoldable pub init : ℕ → TimePolicy
init ttl_seconds = record { ttl_seconds = ttl_seconds; timestamps = [] }

-- `now` is `Clock::now()`.
unfoldable pub touch : ℕ → TimePolicy → ℕ → TimePolicy
touch now t block_id = record t { timestamps = put ℕ_discrete block_id now t.timestamps }

unfoldable pub remove : TimePolicy → ℕ → TimePolicy
remove t block_id = record t { timestamps = erase ℕ_discrete block_id t.timestamps }

-- Whole seconds since a time stamp.
abbrev pub age : ℕ → ℕ → ℕ
age now ts = (now - ts) / 1_000_000_000

-- The loop of `evict`.
unfoldable pub first_expired : ℕ → ℕ → Table ℕ ℕ → ℕ
first_expired now ttl_seconds [] = size_max
first_expired now ttl_seconds ((block_id, ts) ∷ rest) =
    if leb ttl_seconds (age now ts) then block_id else first_expired now ttl_seconds rest

unfoldable pub evict : ℕ → TimePolicy → TimePolicy × ℕ
evict now t =
    let victim = first_expired now t.ttl_seconds t.timestamps in
    (if victim == size_max then t else remove t victim, victim)
