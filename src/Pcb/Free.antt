-- ===== src/Pcb/Free.antt =====
-- The free list of src/pcb.c: initialisation, allocation and release of process control blocks.
use bi_kaya.Base.{
  ℕ, zero, suc, ◌+◌, ◌*◌, ◌<◌, ◌≤◌, ◌≡◌, refl, inl, inr, Bool, true, ◌||◌, none, some, List, [],
  ◌∷◌, arith, ◌==◌, Bool-cases, length, has, erase, ==_refl,
}
use bi_kaya.ListX.{Links, put, list_del, init_list_head}
use bi_kaya.Types.{slot, p_next, p_child, p_sib, pcb_free_head, container_of}
use bi_kaya.Types.Lists.{
  Lists, put_same, put-put, IsOff, list_next-Lists, list_add-Lists, list_del-Lists, list_del-IsOff,
  list_find-Lists, init_list_head-Lists, init_list_head-Lists_off,
}
use bi_kaya.Machine.{Kernel, ok, Returns, SameButLinks, fuel}
use bi_kaya.Pcb.{zero_pcb, pcb_init_loop, pcb_free, pcb_alloc, pcb_is_free}
use bi_kaya.Pcb.Remove.{find-has}

-- `pcbTable` entries `i` to `i + n - 1`, last first, in front of a list.
unfoldable pub in_front : ℕ → ℕ → List ℕ → List ℕ
in_front zero i xs = xs
in_front (suc n) i xs = in_front n (i + 1) (i ∷ xs)

pub pcb_init_loop-in_front :
    {live : ℕ → Bool} (n i : ℕ) (l : Links) (qs : ℕ → List ℕ)
    → Lists live l qs
    → live pcb_free_head ≡ true
    → ((j : ℕ) → i ≤ j → IsOff live qs 0 j)
    → Lists live (pcb_init_loop n i l) (put qs pcb_free_head (in_front n i (qs pcb_free_head)))
unfolding pcb_init_loop in_front
pcb_init_loop-in_front zero i l qs r at off = rw (put_same qs pcb_free_head _ refl) r
pcb_init_loop-in_front {live} (suc n) i l qs r at off =
    let place : slot pcb_free_head i ≡ p_next i = omega arith in
    let added = rw place at (list_add-Lists r pcb_free_head i at (off i (omega arith))) in
    rw (put-put qs pcb_free_head (i ∷ qs pcb_free_head) (in_front n (i + 1) (i ∷ qs pcb_free_head)))
      at
      (pcb_init_loop-in_front n (i + 1) _ (put qs pcb_free_head (i ∷ qs pcb_free_head)) added at
        (λ j lt h e same. ground (arith, off j (omega arith) h e same)))

module _ {live : ℕ → Bool} (k : Kernel) {qs : ℕ → List ℕ} (r : Lists live k.links qs) where
  -- `pcb_free` puts a process that is in no queue in front of the free list; the other lists stay as
  -- they are.
  pub pcb_free_lem :
      (p : ℕ)
      → live pcb_free_head ≡ true
      → IsOff live qs 0 p
      → Returns
          (λ _ k'.
            Lists live k'.links (put qs pcb_free_head (p ∷ qs pcb_free_head)) × SameButLinks k k')
          (pcb_free p k)
  unfolding pcb_free
  pcb_free_lem p at off = (rw place at (list_add-Lists r pcb_free_head p at off), refl)
    where
      place : slot pcb_free_head p ≡ p_next p
      place = omega arith

  -- `pcb_is_free` returns, for a free list of at most 20 processes, whether the process is on it, and
  -- changes nothing.
  pub pcb_is_free-has :
      (p : ℕ)
      → live pcb_free_head ≡ true
      → length (qs pcb_free_head) < fuel
      → pcb_is_free p k ≡ ok (has p (qs pcb_free_head)) k
  unfolding pcb_is_free
  pcb_is_free-has p at enough =
      rw
        (
          list_find-Lists r fuel (λ i. i == p) pcb_free_head at enough,
          find-has p (qs pcb_free_head),
        )
        (elim (Bool-cases (has p (qs pcb_free_head))) [ inl here ↦ rw here | inr gone ↦ rw gone ])

  pub pcb_alloc-none : live pcb_free_head ≡ true → qs pcb_free_head ≡ [] → pcb_alloc k ≡ ok none k
  unfolding pcb_alloc
  pcb_alloc-none at empty = rw (list_next-Lists r pcb_free_head at, empty)

  -- Where the free list is not empty and its first process is in no list of siblings, `pcb_alloc` takes
  -- that process, zeroes its block and returns it, with an empty list of children; the other lists stay
  -- as they are.
  pub pcb_alloc-some :
      (p : ℕ) (ps : List ℕ)
      → live pcb_free_head ≡ true
      → qs pcb_free_head ≡ p ∷ ps
      → IsOff live qs 2 p
      → Returns
          (λ o k'.
            (o ≡ some p)
            × Lists
                (λ h. h == p_child p || live h)
                k'.links
                (put (put qs pcb_free_head ps) (p_child p) [])
            × (k' ≡ record k { links = k'.links; pcbs = put k.pcbs p zero_pcb }))
          (pcb_alloc k)
  unfolding pcb_alloc
  pcb_alloc-some p ps at whole off =
      rw (list_next-Lists r pcb_free_head at, whole, place, back) (refl, sib_done, refl)
    where
      place : slot pcb_free_head p ≡ p_next p
      place = omega arith

      back : container_of (p_next p) ≡ p
      back = omega arith

      on : has p (qs pcb_free_head) ≡ true
      on = rw whole (ground arith)

      left : erase p (qs pcb_free_head) ≡ ps
      left = rw (whole, ==_refl p)

      unlinked : Lists live (list_del k.links (p_next p)) (put qs pcb_free_head ps)
      unlinked = rw (place, left) at (list_del-Lists r pcb_free_head p at on)

      now : ℕ → Bool
      now h = h == p_child p || live h

      qs' : ℕ → List ℕ
      qs' = put (put qs pcb_free_head ps) (p_child p) []

      child_done : Lists now (init_list_head (list_del k.links (p_next p)) (p_child p)) qs'
      child_done = init_list_head-Lists unlinked (p_child p) (ground arith)

      next_off : IsOff now qs' 0 p
      next_off h e same = ground (arith, rw left at (list_del-IsOff r pcb_free_head p at on) h)

      next_done :
          Lists now
            (init_list_head (init_list_head (list_del k.links (p_next p)) (p_child p)) (p_next p))
            qs'
      next_done =
          let here : 8 * p + 0 ≡ p_next p = omega arith in
          rw here at (init_list_head-Lists_off child_done 0 p refl next_off)

      sib_done :
          Lists now
            (init_list_head
              (init_list_head (init_list_head (list_del k.links (p_next p)) (p_child p)) (p_next p))
              (p_sib p))
            qs'
      sib_done = init_list_head-Lists_off next_done 2 p refl λ h e same. ground (arith, off h)
