-- ===== src/Memory/Copy.antt =====
-- What `memset` and `memcpy` of src/memory.c write.
use bi_kaya.Base.{ℕ, zero, suc, ◌+◌, ◌-◌, ◌%◌, ◌≤◌, ◌≡◌, ◌⊎◌, ◌&&◌, arith, leb, ltb, if◌then◌else◌}
use bi_kaya.ListX.{put}
use bi_kaya.Memory.{Bytes, memset, memcpy}

-- `memset` sets the `n` bytes from `s` on to the low byte of `c`, and no other.
pub memset-bytes :
    (m : Bytes) (s c n a : ℕ)
    → memset m s c n a ≡ (if leb s a && ltb a (s + n) then c % 256 else m a)
unfolding memset
memset-bytes m s c zero a = ground arith
memset-bytes m s c (suc n) a = ground (arith, memset-bytes (put m s (c % 256)) (s + 1) c n a)

-- `memcpy` copies the `n` bytes from `src` on to `dest` and on, where the two ranges do not overlap, and
-- writes no other byte.
pub memcpy-bytes :
    (m : Bytes) (dest src n a : ℕ)
    → ((dest + n ≤ src) ⊎ (src + n ≤ dest))
    → memcpy m dest src n a ≡ (if leb dest a && ltb a (dest + n) then m (src + (a - dest)) else m a)
unfolding memcpy
memcpy-bytes m dest src zero a apart = ground arith
memcpy-bytes m dest src (suc n) a apart =
    let shifted : (dest + 1 + n ≤ src + 1) ⊎ (src + 1 + n ≤ dest + 1) = ground arith in
    ground (arith, memcpy-bytes (put m dest (m src)) (dest + 1) (src + 1) n a shifted)
