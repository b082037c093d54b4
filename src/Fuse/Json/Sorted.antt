-- ===== src/Fuse/Json/Sorted.antt =====
-- What `findJsonNames` leaves in the set, from the answer of the server about a directory.
use cache_system_with_fuse.Fuse.Json.{insert_all, find_json_names}
use cache_system_with_fuse.Fuse.Json.Server.{FileInfo, list_json}
use cache_system_with_fuse.Fuse.Json.Listing.{AllPlain, find_json_names-list_json}
use cache_system_with_fuse.Fuse.Json.Sets.{mem, Ascending, insert_all_right}
use cache_system_with_fuse.Base.{◌≡◌, ◌||◌, List, map, returned, Text}

-- `findJsonNames` of the server's answer about a directory of plainly named files, on a set in
-- ascending order, ends and leaves the set in ascending order, each name once, with just the
-- names that the server gave and those that it had.
pub find_json_names-Ascending :
    (es : List FileInfo) (out : List Text)
    → AllPlain es
    → Ascending out
    → (names : List Text) × (find_json_names (list_json es) out ≡ returned names)
      × Ascending names
      × ((n : Text) → mem n names ≡ (mem n (map (λ e. e.name) es) || mem n out))
find_json_names-Ascending es out plain sorted =
    let (sorted', these) = insert_all_right (map (λ e. e.name) es) out sorted in
    (insert_all (map (λ e. e.name) es) out, find_json_names-list_json es out plain, sorted', these)
