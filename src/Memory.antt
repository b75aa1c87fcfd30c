-- ===== src/Memory.antt =====
-- src/memory.c, byte by byte.
pub mod Copy
use bi_kaya.Base.{ℕ, zero, suc, ◌+◌, ◌%◌}
use bi_kaya.ListX.{put}

abbrev pub Bytes : Type 0
Bytes = ℕ → ℕ

-- `n` is what is left to write.
unfoldable pub memset : Bytes → (s c n : ℕ) → Bytes
memset m s c zero = m
memset m s c (suc n) = memset (put m s (c % 256)) (s + 1) c n

unfoldable pub memcpy : Bytes → (dest src len : ℕ) → Bytes
memcpy m dest src zero = m
memcpy m dest src (suc len) = memcpy (put m dest (m src)) (dest + 1) (src + 1) len
