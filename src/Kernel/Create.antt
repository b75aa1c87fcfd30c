-- ===== src/Kernel/Create.antt =====
-- `create_process` of src/syscalls.c on the whole kernel.
use bi_kaya.Base.{ℕ, ◌≡◌, refl, inl, inr, Bool, true, false, some, List, [], ◌∷◌, arith, ◌==◌}
use bi_kaya.Types.{null, p_child, pcb_free_head}
use bi_kaya.Machine.{Kernel, Returns, Returns-map}
use bi_kaya.Pcb.Free.{pcb_alloc-none}
use bi_kaya.Syscalls.{create_process, create_with}
use bi_kaya.Kernel.Sound.{Sound}
use bi_kaya.Kernel.Created.{CreatedOrFull}
use bi_kaya.Kernel.Newborn.{first_free-Created}

-- `create_process` in a sound state with a current process `c`, and with `state` not `NULL`,
-- returns. If no process is free it fails and writes nothing. Otherwise it succeeds: the first
-- free process `p` leaves the free list, is the last child of `c` with no children of its own, and
-- stands in the ready queue by its priority, with the state and the priority that were given; the
-- other lists and processes stay as they are, the address of `p` is stored at `cpid` unless that
-- is `NULL`, no other word is written, and the kernel is sound again.
pub create_process-CreatedOrFull :
    {live : ℕ → Bool} (k : Kernel) {qs : ℕ → List ℕ}
    → Sound live k qs
    → (state priority cpid c : ℕ) → (state == null) ≡ false
    → k.current_proc ≡ some c
    → Returns
        (λ r k'. CreatedOrFull live k qs state priority cpid c r k')
        (create_process state priority cpid k)
unfolding create_process create_with
create_process-CreatedOrFull {live} k {qs} s state priority cpid c there running =
    go (qs pcb_free_head) refl
  where
    home : live (p_child c) ≡ true
    home =
        let (inside, off) = s.running c running in
        s.family.homes c inside (off pcb_free_head s.heads.free_live (omega arith))

    go :
        (xs : List ℕ)
        → qs pcb_free_head ≡ xs
        → Returns
            (λ r k'. CreatedOrFull live k qs state priority cpid c r k')
            (create_process state priority cpid k)
    go [] e =
        rw (pcb_alloc-none k s.queues.semaphores.lists s.heads.free_live e) (inl (e, refl, refl))
    go (p ∷ ps) e =
        Returns-map _ _ (create_process state priority cpid k)
          (first_free-Created k s state priority cpid c p ps there running home e
            (s.family.orphans p (rw e (ground arith))))
          λ r k' (success, (qs', d)). inr (success, (p, ps, qs', e, d))
