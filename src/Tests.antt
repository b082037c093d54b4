-- ===== src/Tests.antt =====
-- Test data, and the theorems applied to it.
mod Policy
mod Paths
mod Bitmaps
mod Store
mod Blocks
mod Calls
mod Workers
mod Mounted
mod Folders
mod EndOfFile
mod Database
use cache_system_with_fuse.Base.{
  ℕ, ◌+◌, ◌-◌, ◌*◌, ◌/◌, ◌^◌, ltb, ◌≡◌, refl, none, List, [], ◌∷◌, arith, dec_lt, Bool-cases, ℤ,
  pos, Text, text_discrete, find, codes, Bytes,
}
use cache_system_with_fuse.Double.{Double, IsOrder}
use cache_system_with_fuse.Files.{Disk, has_text}
use cache_system_with_fuse.Manager.{Env, Manager, hash_hex, init_manager}
use cache_system_with_fuse.BlockStore.Total.{IsHealthy}

-- Whole numbers in place of `double`.
abbrev pub whole : Double
whole = record {
  Carrier = ℕ;
  of_size = λ n. n;
  one = 1;
  quarter = 0;
  sub = λ x y. x - y;
  mul = λ x y. x * y;
  gt = λ x y. ltb y x;
  minus_dbl_max = 0;
}

pub whole-IsOrder : IsOrder whole
whole-IsOrder = record {
  gt_irrefl = λ x. ground arith;
  gt_trans = λ x y z p q. ground (arith, p, q);
}

-- A cache root without files, on a system that refuses nothing.
abbrev pub root : Text
root = codes "r"

abbrev pub disk : Disk
disk = record { files = []; dirs = codes "r" ∷ []; refuse = λ c p. none }

pub disk-IsHealthy : IsHealthy disk root
unfolding has_text text_discrete find
disk-IsHealthy = record { has_root = refl; accepts = λ c p. refl; clear = λ g n. (refl, refl) }

-- A backend whose file has its offset as each byte.
abbrev pub env : Env
env = record {
  hash = λ s. 77;
  address = λ s. 4096;
  job_address = λ s. 8192;
  remote = λ path buf len off. (pos len, λ i. off + i);
  stack = λ blk i. 0;
}

abbrev pub path : Text
path = codes "/f"

abbrev pub name : Text
name = hash_hex env path

abbrev pub manager : Manager ℕ
manager = init_manager disk root
