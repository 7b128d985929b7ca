-- ===== src/Compositor/Cache.antt =====
-- src/core/compositor/cache.c: the mapping of a shared memory file, kept by inode and device.
-- `unmapped` logs the munmap(2) calls with their sizes, newest first; it is no field of the C struct.
use idk_overlay.Prelude.{
  ℕ, ◌+◌, ◌≡◌, List, [], ◌∷◌, Option, none, some, ◌==◌, ◌&&◌, if◌then◌else◌, arith, ◌≢◌,
}

-- A mapping: its address and its size.
abbrev pub Mapping : Type 0
Mapping = ℕ × ℕ

-- `idk_shm_cache_t`
pub record Cache : Type 0 where
  pub map : Option ℕ
  pub size : ℕ
  pub ino : ℕ
  pub dev : ℕ
  pub unmapped : List Mapping

-- idk_shm_cache_map from lseek(2) on; `total` is its result, 0 where that is not positive, and
-- `mapped` is what mmap(2) returns.
unfoldable pub map_file : Cache → ℕ → ℕ → ℕ → Option ℕ → Option ℕ × Cache
map_file c ino dev total mapped =
    let size = if total == 0 then 4096 else total in
    elim mapped [
      | none ↦ (none, record c { map = none; size = size })
      | some a ↦ (some a, record c { map = some a; size = size; ino = ino; dev = dev })
    ]

-- idk_shm_cache_map; `stat` is the inode and the device, `none` for a bad descriptor or a failure of
-- fstat(2).
unfoldable pub cache_map : Cache → Option (ℕ × ℕ) → ℕ → Option ℕ → Option ℕ × Cache
unfolding map_file
cache_map c none total mapped = (none, c)
cache_map c (some (ino, dev)) total mapped = elim c.map [
  | none ↦ map_file c ino dev total mapped
  | some m ↦
      if (ino == c.ino) && (dev == c.dev)
      then (some m, c)
      else map_file (record c { map = none; unmapped = (m, c.size) ∷ c.unmapped }) ino dev total
          mapped
]

-- idk_shm_cache_cleanup
unfoldable pub cache_cleanup : Cache → Cache
cache_cleanup c = elim c.map [
  | none ↦ record c { size = 0; ino = 0; dev = 0 }
  | some m ↦ record c {
    map = none;
    size = 0;
    ino = 0;
    dev = 0;
    unmapped = (m, c.size) ∷ c.unmapped;
  }
]

-- How often mapping (a, n) was unmapped, and whether it is the one kept.
abbrev pub released : ℕ → ℕ → List Mapping → ℕ
released a n [] = 0
released a n ((b, m) ∷ ms) = (if (a == b) && (n == m) then 1 else 0) + released a n ms

abbrev pub kept : ℕ → ℕ → Option ℕ → ℕ → ℕ
kept a n none size = 0
kept a n (some b) size = if (a == b) && (n == size) then 1 else 0

abbrev pub mapping_account : ℕ → ℕ → Cache → ℕ
mapping_account a n c = kept a n c.map c.size + released a n c.unmapped

-- A file that was mapped is found again: the next request for the same inode and device returns the
-- same address and changes nothing, whatever lseek(2) and mmap(2) would say then.
cache_map-again :
    (c c' : Cache) (ino dev total total' a : ℕ) (mapped mapped' : Option ℕ)
    → cache_map c (some (ino, dev)) total mapped ≡ (some a, c')
    → cache_map c' (some (ino, dev)) total' mapped' ≡ (some a, c')
unfolding cache_map map_file
cache_map-again c c' ino dev total total' a mapped mapped' e = ground (arith, e)

-- A request for another file, then a cleanup, leave no mapping behind: every mapping that the cache
-- held, or that the request made with the size of the file, has been unmapped once with its own size.
cache_cleanup-account :
    (c : Cache) (ino dev total a n b : ℕ)
    → c.ino ≢ ino
    → total ≢ 0
    → ((cache_cleanup (cache_map c (some (ino, dev)) total (some b)).1).map ≡ none)
      × (released a n (cache_cleanup (cache_map c (some (ino, dev)) total (some b)).1).unmapped
          ≡ mapping_account a n c + kept a n (some b) total)
unfolding cache_map map_file cache_cleanup
cache_cleanup-account c ino dev total a n b d z = ground (arith, d, z)
