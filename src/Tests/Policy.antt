-- ===== src/Tests/Policy.antt =====
-- The eviction policy at work.
use cache_system_with_fuse.Tests.{whole}
use cache_system_with_fuse.Lru.{
  Node, Lru, init, evict, touch, score, remove, unlink, make_room, push_front, scan,
}
use cache_system_with_fuse.Lru.Linked.{IsLinked, nodes}
use cache_system_with_fuse.Lru.Victim.{AllNodes, NotAbove, IsFinite}
use cache_system_with_fuse.Lru.Recency.{Call, touches, run, step, run_nodes, run-init}
use cache_system_with_fuse.Lru.Bound.{run_bounded, evict-touch}
use cache_system_with_fuse.Base.{
  ℕ, ◌≤◌, max, ◌≡◌, refl, List, [], ◌∷◌, ℕ_discrete, length, find, put, erase,
}

abbrev block : ℕ → Node ℕ
block id = record { id = id; bytes = 8; hotness = 0 }

abbrev calls : List (Call ℕ)
calls = touches (block 1) ∷ touches (block 2) ∷ touches (block 1) ∷ touches (block 3) ∷ []

abbrev pub two_blocks : Lru ℕ
two_blocks = run whole (init 2) (touches (block 1) ∷ touches (block 2) ∷ [])

pub two_blocks-IsLinked : IsLinked two_blocks
two_blocks-IsLinked = (run-init whole 2 (touches (block 1) ∷ touches (block 2) ∷ [])).0

finite : (id : ℕ) → IsFinite whole (block id)
unfolding score
finite id = refl

two_blocks_low : AllNodes (NotAbove whole (block 3)) (nodes two_blocks)
unfolding score init run step touch remove unlink make_room push_front evict scan find put erase
    ℕ_discrete
two_blocks_low = (refl, (refl, tt))

run-init_example :
    IsLinked (run whole (init 2) calls)
    × (nodes (run whole (init 2) calls) ≡ run_nodes whole 2 [] calls)
run-init_example = run-init whole 2 calls

run_bounded_example : length (nodes (run whole (init 2) calls)) ≤ max 1 2
run_bounded_example = run_bounded whole 2 calls (finite 1, (finite 2, (finite 1, (finite 3, tt))))

evict-touch_example : (evict whole (touch whole two_blocks 3 8 0)).1 ≡ 3
evict-touch_example =
    evict-touch whole two_blocks 3 8 0 two_blocks-IsLinked (finite 3) two_blocks_low
