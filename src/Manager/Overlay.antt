-- ===== src/Manager/Overlay.antt =====
-- Any sequence of `cache_store_file` against what the last write of each byte says.
use cache_system_with_fuse.Double.{Double}
use cache_system_with_fuse.Files.{Disk, file_at, above}
use cache_system_with_fuse.Files.Keeping.{Passable}
use cache_system_with_fuse.Layout.{data_part_path}
use cache_system_with_fuse.BlockStore.Contents.{object_byte}
use cache_system_with_fuse.BlockStore.Total.{IsHealthy}
use cache_system_with_fuse.Manager.{Env, Manager, hash_hex, local_path, entry, init_manager}
use cache_system_with_fuse.BlockStore
use cache_system_with_fuse.Manager.Rounds.{Apart}
use cache_system_with_fuse.Manager.Hash.{hash_hex-IsHash}
use cache_system_with_fuse.Manager.ReadLaws.{IsOpen}
use cache_system_with_fuse.Manager.Writing.{write}
use cache_system_with_fuse.Manager.Written.{write_stores}
use cache_system_with_fuse.Manager.Entries.{entry_after}
use cache_system_with_fuse.Manager.Api.{cache_init, cache_store_file}
use cache_system_with_fuse.Base.{
  ℕ, suc, ◌+◌, ◌-◌, ◌≤◌, ◌<◌, ◌≡◌, refl, sym, ap, subst, ◌∙◌, ◌≢◌, ◌⊎◌, inl, inr, ite, if_pos,
  if_neg, ◌&&◌, Option, some, List, [], ◌∷◌, arith, dec_lt, ltb, leb, if◌then◌else◌, pos, Outcome,
  returned, Text, text_discrete, find, Bytes,
}
use cache_system_with_fuse.Base.{◌>>=◌}

-- The arguments of a call of `cache_store_file`.
pub record Store : Type 0 where
  pub path : Text
  pub bytes : Bytes
  pub len : ℕ
  pub off : ℕ

-- The specification: the byte of a file that a call writes, and what all the calls leave.
abbrev pub put_byte : Store → Text → ℕ → Option ℕ → Option ℕ
put_byte c path o before =
    ite (text_discrete c.path path)
      (if leb c.off o && ltb o (c.off + c.len) then some (c.bytes (o - c.off)) else before) before

abbrev pub put_bytes : List Store → Text → ℕ → Option ℕ → Option ℕ
put_bytes [] path o before = before
put_bytes (c ∷ calls) path o before = put_bytes calls path o (put_byte c path o before)

-- Where a byte of the specification comes from.
put_byte-cases :
    (c : Store) (path : Text) (o b : ℕ) (before : Option ℕ)
    → put_byte c path o before ≡ some b
    → ((c.path ≡ path) × (c.off ≤ o) × (o < c.off + c.len) × (c.bytes (o - c.off) ≡ b))
      ⊎ ((before ≡ some b) × ((c.path ≢ path) ⊎ ((o < c.off) ⊎ (c.off + c.len ≤ o))))
put_byte-cases c path o b before e = elim (text_discrete c.path path) [
  | no other ↦ inr (sym (if_neg (text_discrete c.path path) other _ _) ∙ e, inl other)
  | yes same ↦
      let here : (if leb c.off o && ltb o (c.off + c.len)
            then some (c.bytes (o - c.off))
            else before)
          ≡ some b =
        sym (if_pos (text_discrete c.path path) same _ _) ∙ e in
      elim (dec_lt o c.off) [
        | yes low ↦ inr (ground (arith, here, low), inr (inl low))
        | no ge ↦ elim (dec_lt o (c.off + c.len)) [
          | yes lt ↦ inl (same, omega arith, lt, ground (arith, here, ge, lt))
          | no high ↦ inr (ground (arith, here, high), inr (inr (omega arith)))
        ]
      ]
]

module _ (F : Double) (env : Env) where
  -- The calls, in their order.
  abbrev pub store_all :
      List Store → Option (Manager F.Carrier) → Outcome (Option (Manager F.Carrier))
  store_all [] g_cache = returned g_cache
  store_all (c ∷ calls) g_cache = do
    (g_cache', _) ← cache_store_file F env g_cache c.path c.bytes c.len c.off
    store_all calls g_cache'

  -- A call whose file below the root is apart from its own object and from the one of `path`,
  -- which is another object than that of another path; and no file is in the way of it.
  pub record IsSafe (d : Disk) (root path : Text) (c : Store) : Type 0 where
    pub free : Passable d (local_path root c.path)
    pub own : Apart (local_path root c.path) root (hash_hex env c.path)
    pub from_path : Apart (local_path root c.path) root (hash_hex env path)
    pub distinct : c.path ≢ path → hash_hex env c.path ≢ hash_hex env path

  -- What a call `c` makes is not in the way of a later call `c'`.
  pub record LeavesWay (root : Text) (c c' : Store) : Type 0 where
    pub file : (k : ℕ) → local_path root c.path ≢ above (suc k) (local_path root c'.path)
    pub parts : Apart (local_path root c'.path) root (hash_hex env c.path)

  abbrev pub LeavesWays : Text → Store → List Store → Type 0
  LeavesWays root c [] = Unit {0}
  LeavesWays root c (c' ∷ calls) = LeavesWay root c c' × LeavesWays root c calls

  abbrev pub AllSafe : Disk → Text → Text → List Store → Type 0
  AllSafe d root path [] = Unit {0}
  AllSafe d root path (c ∷ calls) =
      IsSafe d root path c × LeavesWays root c calls × AllSafe d root path calls

  -- The other files stay as they are.
  abbrev LeavesOthers : Disk → Disk → Text → Store → Type 0
  LeavesOthers d d' root c =
      (q : Text)
      → local_path root c.path ≢ q
      → ((n : ℕ) → data_part_path root (hash_hex env c.path) n ≢ q)
      → file_at d' q ≡ file_at d q

  AllSafe-after :
      (d d' : Disk) (root path : Text) (c : Store) (calls : List Store)
      → LeavesOthers d d' root c
      → LeavesWays root c calls
      → AllSafe d root path calls
      → AllSafe d' root path calls
  AllSafe-after d d' root path c [] kept ways safe = tt
  AllSafe-after d d' root path c (c' ∷ calls) kept ways safe =
      let (first, after, rest) = safe in
      let (way, ways') = ways in
      (
        record {
          free = λ k.
              kept (above (suc k) (local_path root c'.path)) (way.file k)
                (λ n e. way.parts.parts (suc k) n (sym e))
              ∙ first.free k;
          own = first.own;
          from_path = first.from_path;
          distinct = first.distinct;
        },
        after,
        AllSafe-after d d' root path c calls kept ways' rest,
      )

  module _ (path : Text) (o b : ℕ) where
    -- The byte of the object, where the specification has one.
    abbrev Refines : Option ℕ → Manager F.Carrier → Type 0
    Refines spec m = spec ≡ some b → object_byte m.store m.root (hash_hex env path) o ≡ some b

    write-Refines :
        (m : Manager F.Carrier) (c : Store) (before : Option ℕ)
        → ((p : Text) → IsOpen env m p)
        → IsHealthy m.store m.root
        → IsSafe m.store m.root path c
        → Refines before m
        → (m' : Manager F.Carrier) × (write F env c.path c.bytes c.len c.off m
            ≡ returned (m', pos c.len))
          × (m'.root ≡ m.root)
          × ((p : Text) → IsOpen env m' p)
          × IsHealthy m'.store m'.root
          × LeavesOthers m.store m'.store m.root c
          × Refines (put_byte c path o before) m'
    write-Refines m c before opened v safe refines =
        let h = hash_hex env path in
        let (m', wrote, root, entries, held, rest, others) =
          write_stores F env c.path c.bytes c.len c.off m (opened c.path) safe.own v safe.free in
        let size = (hash_hex-IsHash env path).sixteen ∙ sym (hash_hex-IsHash env c.path).sixteen in
        let at_root : object_byte m'.store m.root h o ≡ some b
            → object_byte m'.store m'.root h o ≡ some b =
          λ e. rw root e in
        (
          m',
          wrote,
          root,
          (λ p.
              let same = entry_after env m' m c.path p entries in
              record {
                present = ap (λ e. e.evicted) same ∙ (opened p).present;
                named = ap (λ e. e.hash_hex) same ∙ (opened p).named;
              }),
          rw root held.healthy,
          others,
          λ e. at_root (elim (put_byte-cases c path o b before e) [
            | inl (same, low, high, byte) ↦
                let place : c.off + (o - c.off) ≡ o = omega (arith, low) in
                let there = held.written (o - c.off) (omega (arith, low, high)) ∙ ap some byte in
                subst (λ t. object_byte m'.store m.root (hash_hex env t) o ≡ some b) same
                  (subst (λ t. object_byte m'.store m.root (hash_hex env c.path) t ≡ some b) place
                    there)
            | inr (old, inl other) ↦
                rest h o size safe.from_path (inl (λ eq. safe.distinct other (sym eq))) b
                  (refines old)
            | inr (old, inr out) ↦ rest h o size safe.from_path (inr out) b (refines old)
          ]),
        )

    store_all-Refines :
        (calls : List Store) (m : Manager F.Carrier) (before : Option ℕ)
        → ((p : Text) → IsOpen env m p)
        → IsHealthy m.store m.root
        → AllSafe m.store m.root path calls
        → Refines before m
        → (m' : Manager F.Carrier) × (store_all calls (some m) ≡ returned (some m'))
          × (m'.root ≡ m.root)
          × Refines (put_bytes calls path o before) m'
    unfolding cache_store_file
    store_all-Refines [] m before opened v safe refines = (m, refl, refl, refines)
    store_all-Refines (c ∷ calls) m before opened v safe refines =
        let (m1, wrote, root, opened', v', others, refines') =
          write-Refines m c before opened v safe.0 refines in
        let later = AllSafe-after m.store m1.store m.root path c calls others safe.1 safe.2 in
        let (m', e, root', refines'') =
          store_all-Refines calls m1 (put_byte c path o before) opened' v' (rw root later)
            refines' in
        (m', rw wrote e, root' ∙ root, refines'')

  -- After `cache_init` on a disk with the cache root, where no call is refused, no write cut
  -- short and no file has the name of a shard directory, a sequence of `cache_store_file` on
  -- several paths returns, and every byte that a call wrote to a path, or that the path's object
  -- had before, is in the object as the last call that wrote it left it; if for each call no
  -- regular file on that disk is in the way of the directories above its file below the root, no
  -- earlier call's file has the name of one of them, neither its file nor one of them has the
  -- name of a part of its own object, of an earlier call's or of that of the path, its file has
  -- not the name of a shard directory, and no other path of the calls has the hash of the path.
  pub store_all-put_bytes :
      (d : Disk) (root path : Text) (calls : List Store) (o b : ℕ)
      → IsHealthy d root
      → AllSafe d root path calls
      → put_bytes calls path o (object_byte d root (hash_hex env path) o) ≡ some b
      → (m : Manager F.Carrier) × (store_all calls (cache_init d root).0 ≡ returned (some m))
        × (object_byte m.store root (hash_hex env path) o ≡ some b)
  unfolding cache_init init_manager BlockStore.init entry find
  store_all-put_bytes d root path calls o b v safe e =
      let there : (BlockStore.init d root).0 ≡ d = ground (arith, v.has_root) in
      let m0 : Manager F.Carrier = init_manager d root in
      let (m, stored, same_root, refines) =
        store_all-Refines path o b calls m0 (object_byte d root (hash_hex env path) o)
          (λ p. record { present = refl; named = refl }) v safe (λ e. e) in
      (
        m,
        subst (λ d'. store_all calls (some (init_manager d' root)) ≡ returned (some m)) (sym there)
            stored,
        rw same_root at (refines e),
      )
