-- ===== src/Asl/Semaphores.antt =====
-- The invariant of src/asl.c, and what it stands for: a queue of blocked processes for each key.
use bi_kaya.Base.{
  ℕ, ◌<◌, ◌≡◌, inl, inr, Option-cases, Bool, true, false, ◌||◌, Option, none, some, List, [], arith,
  ◌==◌, length, is_nil, find, has, length-le_bound, find-some, find-none,
}
use bi_kaya.Types.{max_proc, s_proc_q, semd_free, asl}
use bi_kaya.Types.Lists.{Lists, container-slot, distinct, list_find-Lists}
use bi_kaya.Machine.{Kernel, ok, fuel}
use bi_kaya.Asl.{asl_semd}

-- A descriptor on `asl` has a key of its own, which its processes carry; one on `semdFree` has no
-- process. `inside` says that indices stay within the tables.
pub record Descriptors (live : ℕ → Bool) (k : Kernel) (qs : ℕ → List ℕ) : Type 0 where
  pub lists : Lists live k.links qs
  pub inside : (h i : ℕ) → live h ≡ true → has i (qs h) ≡ true → i < max_proc
  pub asl_live : live asl ≡ true
  pub free_live : live semd_free ≡ true
  pub queues : (j : ℕ) → (has j (qs asl) || has j (qs semd_free)) ≡ true → live (s_proc_q j) ≡ true
  pub idle : (j : ℕ) → has j (qs semd_free) ≡ true → qs (s_proc_q j) ≡ []
  pub keyed :
      (i j : ℕ) → has i (qs asl) ≡ true → has j (qs asl) ≡ true → k.s_keys i ≡ k.s_keys j → i ≡ j
  pub blocked :
      (j i : ℕ)
      → has j (qs asl) ≡ true
      → has i (qs (s_proc_q j)) ≡ true
      → (k.pcbs i).p_semkey ≡ k.s_keys j

-- `j` is on one of the two lists of descriptors.
abbrev pub described : (ℕ → List ℕ) → ℕ → Bool
described qs j = has j (qs asl) || has j (qs semd_free)

-- Between two calls every descriptor on `asl` has a process.
pub record Semaphores (live : ℕ → Bool) (k : Kernel) (qs : ℕ → List ℕ) : Type 0 where
  pub descriptors : Descriptors live k qs
  pub open descriptors use *
  pub busy : (j : ℕ) → has j (qs asl) ≡ true → is_nil (qs (s_proc_q j)) ≡ false

unfoldable pub queue_at : (ℕ → List ℕ) → Option ℕ → List ℕ
queue_at qs none = []
queue_at qs (some j) = qs (s_proc_q j)

-- The processes blocked on a key, in the order in which they will be woken.
unfoldable pub waiting : Kernel → (ℕ → List ℕ) → ℕ → List ℕ
unfolding queue_at
waiting k qs key = queue_at qs (find (λ j. k.s_keys j == key) (qs asl))

pub waiting-none :
    (k : Kernel) (qs : ℕ → List ℕ) (key : ℕ)
    → find (λ j. k.s_keys j == key) (qs asl) ≡ none
    → waiting k qs key ≡ []
unfolding waiting
waiting-none k qs key e = rw e

module _ {live : ℕ → Bool} {k : Kernel} {qs : ℕ → List ℕ} (s : Descriptors live k qs) where
  -- So every loop over a list has fuel enough.
  pub short : (h : ℕ) → live h ≡ true → length (qs h) < fuel
  short h at =
      omega (arith, length-le_bound max_proc (qs h) (distinct s.lists h at) (λ i. s.inside h i at))

  pub asl_semd-find : (key : ℕ) → asl_semd key k ≡ ok (find (λ j. k.s_keys j == key) (qs asl)) k
  unfolding asl_semd
  asl_semd-find key = rw (
    list_find-Lists s.lists fuel (λ j. k.s_keys j == key) asl s.asl_live (short asl s.asl_live),
    container-slot asl,
  )

  pub find_key :
      (j key : ℕ)
      → has j (qs asl) ≡ true
      → k.s_keys j ≡ key
      → find (λ i. k.s_keys i == key) (qs asl) ≡ some j
  find_key j key on e = elim (Option-cases (find (λ i. k.s_keys i == key) (qs asl))) [
    | inl missing ↦ ground (arith, find-none _ (qs asl) j missing on)
    | inr (i, found) ↦
        let (on', same) = find-some _ (qs asl) i found in ground (arith, s.keyed i j on' on, found)
  ]

  pub found_key :
      (j key : ℕ)
      → find (λ i. k.s_keys i == key) (qs asl) ≡ some j
      → (has j (qs asl) ≡ true) × (k.s_keys j ≡ key)
  found_key j key found = let (on, same) = find-some _ (qs asl) j found in (on, ground arith)
