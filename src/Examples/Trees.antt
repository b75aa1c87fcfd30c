-- ===== src/Examples/Trees.antt =====
-- The sample memory with the lists of the tables only, and with the running process under another.
use bi_kaya.Base.{
  ℕ, ◌≡◌, refl, subst, true, some, List, [], ◌∷◌, arith, has, zero, suc, inl, inr, ◌⊎◌, false, ◌==◌,
  if◌then◌else◌,
}
use bi_kaya.ListX.{put}
use bi_kaya.Types.{p_child, pcb_free_head}
use bi_kaya.Types.Lists.{Lists, list_add-Lists}
use bi_kaya.Machine.{Kernel, Returns, Leaves}
use bi_kaya.Scheduler.{scheduler_kill_process, scheduler_handle_exception}
use bi_kaya.Scheduler.Tables.{Tables, Tables-put}
use bi_kaya.Scheduler.Forest.{empty, grow}
use bi_kaya.Scheduler.Terminate.{IsTree, TreeKilled, stopped, scheduler_kill_process-TreeKilled}
use bi_kaya.Syscalls.{create_process, terminate_process, syscall_success}
use bi_kaya.Kernel.Sound.{Sound}
use bi_kaya.Kernel.Ancestors.{Spares}
use bi_kaya.Kernel.Unhandled.{scheduler_handle_exception-Ended}
use bi_kaya.Kernel.Created.{CreatedOrFull}
use bi_kaya.Kernel.Create.{create_process-CreatedOrFull}
use bi_kaya.Kernel.Terminate.{
  OnlyTree, Terminated, tables, terminate_process-Sound, terminate_process-dangling,
}
use bi_kaya.Examples.{links_of}
use bi_kaya.Examples.Whole.{
  table_heads, whole, whole_entries, whole_lists, whole-Sound, elsewhere-free,
}

-- 8, which runs, is the child of 4.
abbrev grove : Kernel
grove = record whole {
  links = links_of ((p_child 4, 8) ∷ whole_entries);
  pcbs = put whole.pcbs 8 (record (whole.pcbs 8) { p_parent = some 4 });
}

abbrev grove_lists : ℕ → List ℕ
grove_lists = put whole_lists (p_child 4) (8 ∷ [])

grove-Lists : Lists table_heads grove.links grove_lists
grove-Lists =
    subst (λ xs. Lists table_heads grove.links (put whole_lists (p_child 4) (8 ∷ xs)))
      (elsewhere-free (p_child 4) refl)
      (list_add-Lists whole-Sound.queues.semaphores.lists (p_child 4) 8 refl
        λ h at via. ground (arith, elsewhere-free h))

grove-Tables : Tables table_heads grove grove_lists
grove-Tables =
    Tables-put (tables whole whole-Sound) grove (p_child 4) (8 ∷ []) (omega arith) (omega arith)
      (omega arith) grove-Lists (λ i on. ground arith) refl (λ i. (ground arith, ground arith))
      whole-Sound.queues.ordered

grove-Sound : Sound table_heads grove grove_lists
grove-Sound = record {
  queues = grove-Tables.queues;
  heads = whole-Sound.heads;
  family = record {
    homes = whole-Sound.family.homes;
    orphans = λ i on h at via.
        ground (arith, whole-Sound.family.orphans i on h at via, elsewhere-free pcb_free_head);
    parents = λ c x at on. elim (only_children c x on) [
      | inl (child, parent) ↦ rw (child, parent) refl
      | inr (child, parent) ↦ rw (child, parent) refl
    ];
    children = λ c x lt taken e. elim (only_parents c x e) [
      | inl (child, parent) ↦ (
        omega (arith, parent),
        rw (parent, elsewhere-free pcb_free_head refl) refl,
        rw (child, parent) refl,
      )
      | inr (child, parent) ↦ (
        omega (arith, parent),
        rw (parent, elsewhere-free pcb_free_head refl) refl,
        rw (child, parent) refl,
      )
    ];
    levels = 3;
    level = depth;
    bounded = λ i lt taken. ground arith;
    deeper = λ c x lt taken e. elim (only_parents c x e) [
      | inl (child, parent) ↦ rw (child, parent) refl
      | inr (child, parent) ↦ rw (child, parent) refl
    ];
  };
  every = grove-Tables.every;
  running = λ c e.
      let (inside, off) = whole-Sound.running c e in
      (inside, λ h at via. ground (arith, off h at via));
}
  where
    depth : ℕ → ℕ
    depth i = if i == 8 then 2 else if i == 4 then 1 else 0

    only_children :
        (c x : ℕ)
        → has c (grove_lists (p_child x)) ≡ true
        → ((c ≡ 4) × (x ≡ 5)) ⊎ ((c ≡ 8) × (x ≡ 4))
    only_children c x on = ground (arith, elsewhere-free (p_child x))

    only_parents :
        (c x : ℕ) → (grove.pcbs c).p_parent ≡ some x → ((c ≡ 4) × (x ≡ 5)) ⊎ ((c ≡ 8) × (x ≡ 4))
    only_parents c x e = ground (arith, e)

grove-IsTree : IsTree table_heads grove grove_lists 5 (grow 4 (grow 8 empty empty) empty)
grove-IsTree = record {
  inside = omega arith;
  taken = rw (elsewhere-free pcb_free_head refl) refl;
  child = λ p e. cc;
  orphan = λ e h at via. ground (arith, elsewhere-free h);
  above = λ p e. cc;
  kids_live = refl;
  kids = rw (elsewhere-free (p_child 5) refl) refl;
  below = (
    refl,
    refl,
    refl,
    omega arith,
    rw (elsewhere-free pcb_free_head refl) refl,
    (
      refl,
      refl,
      elsewhere-free (p_child 8) refl,
      omega arith,
      rw (elsewhere-free pcb_free_head refl) refl,
      tt,
      tt,
    ),
    tt,
  );
  distinct = (refl, (refl, (refl, tt)));
}

scheduler_kill_process-TreeKilled_example :
    Returns
      (λ _ k'.
        (qs' : ℕ → List ℕ) × TreeKilled table_heads
          (stopped grove 5)
          grove_lists
          5
          (grow 4 (grow 8 empty empty) empty)
          k'
          qs')
      (scheduler_kill_process 5 grove)
scheduler_kill_process-TreeKilled_example =
    scheduler_kill_process-TreeKilled grove grove_lists 5 (grow 4 (grow 8 empty empty) empty)
      grove-Tables grove-IsTree

terminate_process-Sound_example :
    Returns (Terminated whole whole-Sound 5) (terminate_process (some 5) whole)
terminate_process-Sound_example =
    terminate_process-Sound whole whole-Sound (some 5) 5 refl (omega arith) spares
  where
    spares : Spares whole 5
    spares c zero e up = ground (arith, e, up)
    spares c (suc n) e up = ground (arith, e, up)

terminate_process-dangling_example :
    Returns
      (λ r k'.
        (r ≡ syscall_success)
        × (k'.current_proc ≡ some 8)
        × ((qs' : ℕ → List ℕ) × Tables table_heads k' qs' × (has 8 (qs' pcb_free_head) ≡ true)))
      (terminate_process (some 5) grove)
terminate_process-dangling_example =
    terminate_process-dangling grove grove-Sound (some 5) 5 8 1 refl (omega arith) taken refl refl
  where
    taken : has 5 (grove_lists pcb_free_head) ≡ false
    taken = rw (elsewhere-free pcb_free_head refl) refl

create_process-CreatedOrFull_example :
    Returns
      (λ r k'. CreatedOrFull table_heads whole whole_lists 4096 30 8192 8 r k')
      (create_process 4096 30 8192 whole)
create_process-CreatedOrFull_example =
    create_process-CreatedOrFull whole whole-Sound 4096 30 8192 8 refl refl

scheduler_handle_exception-Ended_example :
    Leaves
      (λ _ k'. (qs' : ℕ → List ℕ) × Sound table_heads k' qs' × OnlyTree whole whole-Sound 8 qs')
      (scheduler_handle_exception 2 4096 whole)
scheduler_handle_exception-Ended_example =
    scheduler_handle_exception-Ended whole whole_lists 2 4096 8 whole-Sound refl (omega arith) refl
