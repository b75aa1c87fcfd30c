-- ===== src/Kernel/Terminate.antt =====
-- `terminate_process` of src/syscalls.c on the whole kernel.
use mathlib.Core.List.{reverse_aux}
use bi_kaya.Base.{
  suc, ◌<◌, ◌↔◌, ◌⊎◌, Bool-cases, ℕ, ◌≡◌, refl, ap, sym, ◌∙◌, inl, inr, Bool, true, false, Option,
  none, some, List, [], ◌∷◌, arith, ◌==◌, if◌then◌else◌, has, has-append, erase, has-reverse_aux,
}
use bi_kaya.Types.{max_proc, pcb_free_head, ready_queue}
use bi_kaya.Types.Lists.{IsOff}
use bi_kaya.Machine.{Kernel, ok, Returns, Returns-map, Returns-bind}
use bi_kaya.Pcb.Free.{pcb_is_free-has}
use bi_kaya.Asl.Semaphores.{waiting, short}
use bi_kaya.Scheduler.{same_proc, scheduler_kill_process}
use bi_kaya.Scheduler.Tables.{Tables, waiting_same, waits_by_key}
use bi_kaya.Scheduler.Forest.{Forest, postorder, erase_all}
use bi_kaya.Scheduler.Terminate.{
  IsTree, TreeKilled, tree_of, stopped, scheduler_kill_process-TreeKilled,
}
use bi_kaya.Syscalls.{or_current, terminate_process, syscall_success, syscall_failure}
use bi_kaya.Kernel.Ancestors.{Descends, Spares, ancestor}
use bi_kaya.Kernel.Trees.{
  below_tree, below_tree-IsTree, tree-Descends, Descends-tree, ancestor-below_tree, spared_below,
}
use bi_kaya.Kernel.Orphans.{has-erase_off, killed-Family}
use bi_kaya.Kernel.Sound.{Sound, waiting-IsOff}

pub has-erase_all_off :
    (c : ℕ) (os xs : List ℕ) → has c xs ≡ false → has c (erase_all os xs) ≡ false
has-erase_all_off c [] xs off = off
has-erase_all_off c (o ∷ os) xs off = has-erase_all_off c os (erase o xs) (has-erase_off c o xs off)

still_running :
    (p c : ℕ) (o : Option ℕ)
    → (if same_proc p o then none else o) ≡ some c
    → (o ≡ some c) × ((c == p) ≡ false)
still_running p c none e = cc
still_running p c (some q) e = (ground (arith, e), ground (arith, e))

module _ {live : ℕ → Bool} (k : Kernel) {qs : ℕ → List ℕ} (s : Sound live k qs) where
  pub tables : Tables live k qs
  tables = record {
    queues = s.queues;
    every = s.every;
    free_live = s.heads.free_live;
    places = s.heads.places;
  }

  pub terminate_process-failure :
      (pid : Option ℕ) (p : ℕ)
      → or_current pid k.current_proc ≡ some p
      → has p (qs pcb_free_head) ≡ true
      → terminate_process pid k ≡ ok syscall_failure k
  unfolding terminate_process
  terminate_process-failure pid p e free =
      rw
        (
          e,
          pcb_is_free-has k s.queues.semaphores.lists p s.heads.free_live
              (short s.queues.semaphores.descriptors pcb_free_head s.heads.free_live),
          free,
        )
        refl

  pub terminate_process-TreeKilled :
      (pid : Option ℕ) (p : ℕ) (cs : Forest)
      → or_current pid k.current_proc ≡ some p
      → IsTree live k qs p cs
      → Returns
          (λ r k'.
            (r ≡ syscall_success)
            × ((qs' : ℕ → List ℕ) × TreeKilled live (stopped k p) qs p cs k' qs'))
          (terminate_process pid k)
  unfolding terminate_process
  terminate_process-TreeKilled pid p cs e tree =
      rw
        (
          e,
          pcb_is_free-has k s.queues.semaphores.lists p s.heads.free_live
              (short s.queues.semaphores.descriptors pcb_free_head s.heads.free_live),
          tree.taken,
        )
        (Returns-bind _ _ (scheduler_kill_process p k) _
          (scheduler_kill_process-TreeKilled k qs p cs tables tree) λ _ k' d. (refl, d))

  module _ (p : ℕ) (cs : Forest) (tree : IsTree live k qs p cs) (k' : Kernel) (qs' : ℕ → List ℕ)
      (d : TreeKilled live (stopped k p) qs p cs k' qs') where
    not_waiting : (c : ℕ) → IsOff live qs 0 c → (key : ℕ) → has c (waiting k' qs' key) ≡ false
    not_waiting c off key =
        ap (has c) (d.waits key)
        ∙ has-erase_all_off c (tree_of p cs) (waiting (stopped k p) qs key) (
            ap (has c) (waiting_same k (stopped k p) qs qs key refl refl (λ j. refl))
            ∙ waiting-IsOff k s key c off)

    off_still : (c : ℕ) → IsOff live qs 0 c → has c (tree_of p cs) ≡ false → IsOff live qs' 0 c
    off_still c off spared h at via = elim (s.heads.places h at via) [
      | inl here ↦ rw here (
          ap (has c) d.ready
          ∙ has-erase_all_off c (tree_of p cs) (qs ready_queue)
              (off ready_queue s.queues.ready_live refl))
      | inr (inl here) ↦ rw here (
          ap (has c) d.free
          ∙ has-reverse_aux c (tree_of p cs) (qs pcb_free_head)
          ∙ rw (spared, off pcb_free_head s.heads.free_live refl) refl)
      | inr (inr (j, here, lt)) ↦
          let gone = not_waiting c off (k'.pcbs c).p_semkey in
          ground (arith, here, gone, waits_by_key d.tables j c lt)
    ]

    pub spared_Sound :
        ((c : ℕ) → k.current_proc ≡ some c → has c (postorder cs) ≡ false) → Sound live k' qs'
    spared_Sound spared = record {
      queues = d.tables.queues;
      heads = s.heads;
      family = killed-Family k s p cs tree k' qs' d;
      every = d.tables.every;
      running = λ c e.
          let (on, other) =
            still_running p c k.current_proc
              (sym (ap (λ (n : Kernel). n.current_proc) d.same) ∙ e) in
          let (inside, off) = s.running c on in
          (
            inside,
            off_still c off (ground (arith, spared c on, has-append c (postorder cs) (p ∷ []))),
          );
    }

  -- `p` and those below it, and no others, have been put on the free list.
  abbrev pub OnlyTree : ℕ → (ℕ → List ℕ) → Type 0
  OnlyTree p qs' =
      (os : List ℕ) × (qs' pcb_free_head ≡ reverse_aux os (qs pcb_free_head))
      × ((i : ℕ)
          → i < max_proc
          → has i (qs pcb_free_head) ≡ false
          → (has i os ≡ true) ↔ Descends k p i)

  pub below_tree-OnlyTree :
      (p : ℕ) (qs' : ℕ → List ℕ)
      → p < max_proc
      → has p (qs pcb_free_head) ≡ false
      → qs' pcb_free_head ≡ reverse_aux (tree_of p (below_tree k s p)) (qs pcb_free_head)
      → OnlyTree p qs'
  below_tree-OnlyTree p qs' lt busy free = (
    tree_of p (below_tree k s p),
    free,
    λ i small taken. (tree-Descends k s p lt busy i, Descends-tree k s p lt busy i small taken),
  )

  -- `p` was free, or it has ended with its tree, as `scheduler_kill_process` does it.
  abbrev pub Terminated : ℕ → ℕ → Kernel → Type 0
  Terminated p r k' =
      ((has p (qs pcb_free_head) ≡ true) × (r ≡ syscall_failure) × (k' ≡ k))
      ⊎ ((has p (qs pcb_free_head) ≡ false)
          × (r ≡ syscall_success)
          × ((qs' : ℕ → List ℕ) × TreeKilled live (stopped k p) qs p (below_tree k s p) k' qs'
              × OnlyTree p qs'
              × Sound live k' qs'))

  -- In a sound state, `terminate_process` of `p`, or of the current process `p` if `NULL` is given, where
  -- `p` is an entry of the table and the current process does not stand below it, returns failure and
  -- changes nothing if `p` is free. Otherwise it returns success: `p` and the processes below it, by their
  -- pointers to the parents, and no others, are put on the free list, having left every queue as
  -- `scheduler_kill_process` does it, and the kernel is sound again.
  pub terminate_process-Sound :
      (pid : Option ℕ) (p : ℕ)
      → or_current pid k.current_proc ≡ some p
      → p < max_proc
      → Spares k p
      → Returns (Terminated p) (terminate_process pid k)
  terminate_process-Sound pid p e lt spares = elim (Bool-cases (has p (qs pcb_free_head))) [
    | inl free ↦ rw (terminate_process-failure pid p e free) (inl (free, refl, refl))
    | inr busy ↦
        let tree = below_tree-IsTree k s p lt busy in
        Returns-map _ _ (terminate_process pid k)
          (terminate_process-TreeKilled pid p (below_tree k s p) e tree)
          λ r k' (success, (qs', d)). inr (
            busy,
            success,
            (
              qs',
              d,
              below_tree-OnlyTree p qs' lt busy d.free,
              spared_Sound p (below_tree k s p) tree k' qs' d (spared_below k s p lt busy spares),
            ),
          )
  ]

  -- In a sound state in which the current process `c` stands below the process `p`, which is not free,
  -- `terminate_process` of `p` returns success and leaves `c` both the current process and on the free
  -- list.
  pub terminate_process-dangling :
      (pid : Option ℕ) (p c n : ℕ)
      → or_current pid k.current_proc ≡ some p
      → p < max_proc
      → has p (qs pcb_free_head) ≡ false
      → k.current_proc ≡ some c
      → ancestor k (suc n) c ≡ some p
      → Returns
          (λ r k'.
            (r ≡ syscall_success)
            × (k'.current_proc ≡ some c)
            × ((qs' : ℕ → List ℕ) × Tables live k' qs' × (has c (qs' pcb_free_head) ≡ true)))
          (terminate_process pid k)
  terminate_process-dangling pid p c n e lt busy running up =
      let cs = below_tree k s p in
      let tree = below_tree-IsTree k s p lt busy in
      let (small, off) = s.running c running in
      let under =
        ancestor-below_tree k s p lt busy n c small (off pcb_free_head s.heads.free_live refl) up in
      Returns-map _ _ (terminate_process pid k) (terminate_process-TreeKilled pid p cs e tree)
        λ r k' (success, (qs', d)). (
          success,
          ap (λ (m : Kernel). m.current_proc) d.same
              ∙ rw running (ground (arith, under, tree.distinct.0)),
          (
            qs',
            d.tables,
            ap (has c) d.free
                ∙ has-reverse_aux c (tree_of p cs) (qs pcb_free_head)
                ∙ ground (arith, has-append c (postorder cs) (p ∷ [])),
          ),
        )
