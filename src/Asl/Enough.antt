-- ===== src/Asl/Enough.antt =====
-- There are as many descriptors in src/asl.c as processes, so that `asl_insert_blocked` does not fail.
use bi_kaya.Base.{
  ℕ, zero, suc, ◌<◌, ◌≤◌, ◌≡◌, refl, ap, ◌∙◌, inl, inr, Bool, true, false, ◌||◌, List, [], ◌∷◌,
  arith, ◌==◌, Bool-cases, length, is_nil, has, Distinct, erase, has-erase, Distinct-erase,
  length-le_bound,
}
use bi_kaya.Types.{max_proc, s_proc_q, semd_free, asl}
use bi_kaya.Types.Lists.{IsOff, distinct, apart}
use bi_kaya.Machine.{Kernel, Returns, Returns-map}
use bi_kaya.Asl.{asl_insert_blocked}
use bi_kaya.Asl.Semaphores.{Semaphores}
use bi_kaya.Asl.Join.{Joined}
use bi_kaya.Asl.Insert.{asl_insert_blocked_lem}

first_of : List ℕ → ℕ
first_of [] = 0
first_of (x ∷ xs) = x

has-first_of : (xs : List ℕ) → is_nil xs ≡ false → has (first_of xs) xs ≡ true
unfolding first_of
has-first_of [] e = ground arith
has-first_of (x ∷ xs) e = ground arith

length-erase : (a : ℕ) (xs : List ℕ) → has a xs ≡ true → suc (length (erase a xs)) ≡ length xs
length-erase a [] on = ground arith
length-erase a (x ∷ xs) on = elim (Bool-cases (a == x)) [
  | inl here ↦ rw here refl
  | inr there ↦ rw there (ap suc (length-erase a xs (ground arith)))
]

-- A list that has all numbers below `n` is as long.
length-ge_bound :
    (n : ℕ) (xs : List ℕ) → Distinct xs → ((j : ℕ) → j < n → has j xs ≡ true) → n ≤ length xs
length-ge_bound zero xs d all = omega arith
length-ge_bound (suc n) xs d all = omega (
  arith,
  length-erase n xs (all n (omega arith)),
  length-ge_bound n (erase n xs) (Distinct-erase n xs d)
      (λ j lt. ground (arith, has-erase j n xs d, all j (omega arith))),
)

module _ {live : ℕ → Bool} (k : Kernel) {qs : ℕ → List ℕ} (s : Semaphores live k qs) where
  firsts : List ℕ → List ℕ
  unfolding first_of
  firsts [] = []
  firsts (j ∷ js) = first_of (qs (s_proc_q j)) ∷ firsts js

  length-firsts : (js : List ℕ) → length (firsts js) ≡ length js
  unfolding firsts
  length-firsts [] = refl
  length-firsts (j ∷ js) = ap suc (length-firsts js)

  first_in :
      (j : ℕ) → has j (qs asl) ≡ true → has (first_of (qs (s_proc_q j))) (qs (s_proc_q j)) ≡ true
  first_in j on = has-first_of (qs (s_proc_q j)) (s.busy j on)

  -- A first process of one queue is in no other.
  first_apart :
      (i j : ℕ)
      → has i (qs asl) ≡ true
      → has j (qs asl) ≡ true
      → first_of (qs (s_proc_q i)) ≡ first_of (qs (s_proc_q j))
      → i ≡ j
  first_apart i j a b e =
      let same : s_proc_q i ≡ s_proc_q j =
        apart s.lists (s_proc_q i) (s_proc_q j) (first_of (qs (s_proc_q i)))
          (s.queues i (ground arith)) (s.queues j (ground arith)) (ground arith) (first_in i a)
          (rw e (first_in j b)) in
      omega arith

  has-firsts :
      (a : ℕ) (js : List ℕ)
      → has a (firsts js) ≡ true
      → (j : ℕ) × (has j js ≡ true) × (a ≡ first_of (qs (s_proc_q j)))
  unfolding firsts
  has-firsts a [] h = ground arith
  has-firsts a (j ∷ js) h = elim (Bool-cases (a == first_of (qs (s_proc_q j)))) [
    | inl here ↦ (j, ground arith, ground arith)
    | inr there ↦ let (i, on, e) = has-firsts a js (ground arith) in (i, ground arith, e)
  ]

  Distinct-firsts :
      (js : List ℕ)
      → Distinct js
      → ((j : ℕ) → has j js ≡ true → has j (qs asl) ≡ true)
      → Distinct (firsts js)
  unfolding firsts
  Distinct-firsts [] d active = tt
  Distinct-firsts (j ∷ js) d active = (
    elim (Bool-cases (has (first_of (qs (s_proc_q j))) (firsts js))) [
      | inl twice ↦
          let (i, on, e) = has-firsts _ js twice in
          ground (arith, first_apart j i (active j (ground arith)) (active i (ground arith)) e, d.0)
      | inr once ↦ once
    ],
    Distinct-firsts js d.1 λ i on. active i (ground arith),
  )

  -- With every descriptor on `asl`, every process of the table is in a queue.
  pub all_blocked :
      (p : ℕ)
      → ((j : ℕ) → j < max_proc → has j (qs asl) ≡ true)
      → IsOff live qs 0 p
      → p < max_proc
      → ⊥
  all_blocked p every off inside =
      let longer : suc (length (firsts (qs asl))) ≤ max_proc =
        length-le_bound max_proc (p ∷ firsts (qs asl))
          (alone, Distinct-firsts (qs asl) (distinct s.lists asl s.asl_live) (λ j on. on)) below in
      omega (
        arith,
        longer,
        length-firsts (qs asl),
        length-ge_bound max_proc (qs asl) (distinct s.lists asl s.asl_live) every,
      )
    where
      from_queue :
          (i : ℕ)
          → has i (firsts (qs asl)) ≡ true
          → (j : ℕ) × (live (s_proc_q j) ≡ true) × (has i (qs (s_proc_q j)) ≡ true)
      from_queue i on =
          let (j, active, e) = has-firsts i (qs asl) on in
          (j, s.queues j (ground arith), ap (λ a. has a (qs (s_proc_q j))) e ∙ first_in j active)

      alone : has p (firsts (qs asl)) ≡ false
      alone = elim (Bool-cases (has p (firsts (qs asl)))) [
        | inl on ↦
            let (j, at, queued) = from_queue p on in
            ground (arith, off (s_proc_q j) at (ground arith))
        | inr out ↦ out
      ]

      below : (i : ℕ) → has i (p ∷ firsts (qs asl)) ≡ true → i < max_proc
      below i on = elim (Bool-cases (i == p)) [
        | inl same ↦ ground arith
        | inr other ↦
            let (j, at, queued) = from_queue i (ground arith) in s.inside (s_proc_q j) i at queued
      ]

-- With the semaphores well-formed and every descriptor on one of the two lists of descriptors,
-- `asl_insert_blocked key p`, for a process `p` of the table that is in no queue, does not fail: `p`
-- joins the queue of `key`.
pub asl_insert_blocked-Joined :
    {live : ℕ → Bool} (k : Kernel) {qs : ℕ → List ℕ} (key p : ℕ)
    → Semaphores live k qs
    → ((j : ℕ) → j < max_proc → (has j (qs asl) || has j (qs semd_free)) ≡ true)
    → IsOff live qs 0 p
    → p < max_proc
    → Returns
        (λ failed k'. (failed ≡ false) × ((qs' : ℕ → List ℕ) × Joined live k qs key p k' qs'))
        (asl_insert_blocked key p k)
asl_insert_blocked-Joined {live} k {qs} key p s every off inside =
    Returns-map _ _ (asl_insert_blocked key p k) (asl_insert_blocked_lem k key p s off inside)
      λ failed k' done. elim done [
        | inl (_, _, _, none_free) ↦ absurd (
            all_blocked k s p (λ j lt. ground (arith, every j lt, ap (has j) none_free)) off inside)
        | inr (qs', ok, joined) ↦ (ok, (qs', joined))
      ]
