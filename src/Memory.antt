-- ===== src/Memory.antt =====
-- include/femtolog/core/base/memory_util.h: aligned allocation. `posix_memalign` is the system's, and
-- enters as a parameter with what its manual promises.
use femtolog.Prelude.{ℕ, List, Option, none, some, ◌≡◌, length, ◌==◌, if◌then◌else◌}

-- An allocator: its error code, zero for success, and the block that it hands out.
pub record Allocator : Type 0 where
  pub posix_memalign : ℕ → ℕ → ℕ × List ℕ
  pub block_size :
      (alignment size : ℕ)
      → (posix_memalign alignment size).0 ≡ 0
      → length (posix_memalign alignment size).1 ≡ size

-- `kCacheSize`
abbrev pub cache_size : ℕ
cache_size = 64

unfoldable pub aligned_alloc_wrapper : Allocator → ℕ → ℕ → Option (List ℕ)
aligned_alloc_wrapper a alignment size =
    let (code, block) = a.posix_memalign alignment size in if code == 0 then some block else none
