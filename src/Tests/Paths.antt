-- ===== src/Tests/Paths.antt =====
-- Names of files, keys and blocks.
use cache_system_with_fuse.Tests.{root, env, path, name}
use cache_system_with_fuse.Layout.Paths.{data_part_path_injective}
use cache_system_with_fuse.Manager.{hash_hex, block_key}
use cache_system_with_fuse.Manager.Hash.{hex_value, hash_hex_lem}
use cache_system_with_fuse.Manager.Key.{block_key_address}
use cache_system_with_fuse.Base.{ℕ, ◌/◌, ◌%◌, ◌^◌, ◌<◌, ◌≡◌, refl, ◌↔◌, arith, length}

hash_hex_example : (length (hash_hex env path) ≡ 16) × (hex_value 0 (hash_hex env path) ≡ 77)
hash_hex_example = hash_hex_lem env path

data_part_path_injective_example : (name ≡ name) × (◌≡◌ {A = ℕ} 2 2)
data_part_path_injective_example = data_part_path_injective root name name refl 2 2 refl

block_key_address_example :
    (block_key 4096 3 / 2 ^ 32 ≡ 4096 % 2 ^ 32)
    × (block_key 4096 3 % 2 ^ 32 ≡ 3)
    × ((block_key 4096 3 / 2 ^ 32 ≡ 4096) ↔ (4096 < 2 ^ 32))
block_key_address_example = block_key_address 4096 3 (omega arith)
