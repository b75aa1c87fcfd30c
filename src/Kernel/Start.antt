-- ===== src/Kernel/Start.antt =====
-- `main` of src/main.c: from memory as the linker leaves it to the
-- first process.
use bi_kaya.Base.{
  ℕ, ◌≡◌, refl, ap, sym, subst, ◌∙◌, some, List, [], ◌∷◌, arith, tail, ◌==◌, ◌/◌, Bool-cases, inl,
  inr, ◌≢◌, has, ◌<◌, false, none,
}
use bi_kaya.ListX.{put}
use bi_kaya.Types.{StateT, max_proc, p_child, pcb_free_head, ready_queue}
use bi_kaya.Types.Lists.{Lists, IsOff}
use bi_kaya.Machine.{Kernel, Leaves, Leaves-map, Leaves-bind, ◌>>◌}
use bi_kaya.Umps.{
  int_newarea, tlb_newarea, pgmtrap_newarea, sysbk_newarea, kernel_mode, all_int_disable, vm_off,
  ram_top, set_sp, store_state,
}
use bi_kaya.Pcb.{zero_state, pcb_init}
use bi_kaya.Pcb.Free.{in_front}
use bi_kaya.Pcb.Insert.{insert_by}
use bi_kaya.Asl.{asl_init}
use bi_kaya.Asl.Semaphores.{Semaphores}
use bi_kaya.Scheduler.{scheduler_init, scheduler_run}
use bi_kaya.Scheduler.Queues.{Queues}
use bi_kaya.Scheduler.Run.{scheduler_run_lem}
use bi_kaya.Kernel.{Image, init_new_area, main}
use bi_kaya.Kernel.Boot.{
  boot_live, boot_lists, static_links, static-Lists, table, has-table, pcb_init_lem, asl_init_lem,
}
use bi_kaya.Kernel.Family.{Family}
use bi_kaya.Kernel.Sound.{ProcessHeads, IsSound}
use bi_kaya.Kernel.Alloc.{alloc_live, alloc_lists}
use bi_kaya.Kernel.First.{first_state, scheduler_init-Started}

-- The state in which the handler at `code` is entered.
abbrev pub handler_state : (top code : ℕ) → StateT
handler_state top code = record (set_sp top zero_state) {
  pc_epc = code;
  status = vm_off (all_int_disable (kernel_mode 0));
}

-- The new areas of the four exceptions.
abbrev pub Installed : Image → Kernel → (ℕ → StateT) → Type 0
Installed image k states =
    (states int_newarea ≡ handler_state (ram_top k) image.interrupts_code)
    × (states tlb_newarea ≡ handler_state (ram_top k) image.tlb_code)
    × (states pgmtrap_newarea ≡ handler_state (ram_top k) image.trap_code)
    × (states sysbk_newarea ≡ handler_state (ram_top k) image.syscall_code)

-- The lists of the table when everything is free.
boot : ℕ → List ℕ
boot = boot_lists table table

first_free : boot pcb_free_head ≡ 19 ∷ tail table
unfolding boot in_front
first_free = refl

boot-Queues :
    (k : Kernel) → Semaphores (boot_live max_proc) k boot → Queues (boot_live max_proc) k boot
unfolding boot
boot-Queues k sem = record { semaphores = sem; ready_live = refl; ordered = tt }

no_children : IsOff (boot_live max_proc) boot 2 19
unfolding boot
no_children h at via = ground arith

started_heads : ProcessHeads (alloc_live (boot_live max_proc) 19)
started_heads = record {
  free_live = refl;
  places = λ h at via. elim (Bool-cases (h == ready_queue)) [
    | inl ready ↦ inl (ground arith)
    | inr other ↦ elim (Bool-cases (h == pcb_free_head)) [
      | inl free ↦ inr (inl (ground arith))
      | inr queue ↦ inr (inr (h / 8, ground arith, ground arith))
    ]
  ];
}

-- The first process alone is in no tree but its own.
started-Family :
    (k : Kernel) (qs' : ℕ → List ℕ)
    → ((h : ℕ) → h ≢ ready_queue → qs' h ≡ alloc_lists boot 19 (tail table) h)
    → (k.pcbs 19).p_parent ≡ none
    → Family (alloc_live (boot_live max_proc) 19) k (put qs' ready_queue [])
unfolding boot
started-Family k qs' lists nobody = record {
  homes = λ i lt taken. ground (
    arith,
    has-table i lt,
    ap (has i) first_free,
    ap (has i) (lists pcb_free_head (omega arith)),
  );
  orphans = λ i on h at via. ground (arith, lists h);
  parents = λ i x at on. ground (arith, lists (p_child x));
  children = λ i x lt taken e. absurd (parentless i x lt taken e);
  levels = 1;
  level = λ i. 0;
  bounded = λ i lt taken. omega arith;
  deeper = λ i x lt taken e. absurd (parentless i x lt taken e);
}
  where
    only : (i : ℕ) → i < max_proc → has i (put qs' ready_queue [] pcb_free_head) ≡ false → i ≡ 19
    only i lt taken = ground (
      arith,
      has-table i lt,
      ap (has i) first_free,
      ap (has i) (lists pcb_free_head (omega arith)),
    )

    parentless :
        (i x : ℕ)
        → i < max_proc
        → has i (put qs' ready_queue [] pcb_free_head) ≡ false
        → (k.pcbs i).p_parent ≡ some x
        → ⊥
    parentless i x lt taken e =
        ground (arith, nobody, ap (λ j. (k.pcbs j).p_parent) (only i lt taken), e)

-- `scheduler_init`, then `scheduler_run`.
run_first :
    (image : Image) (idle_cpu cpu : StateT) (k : Kernel)
    → Semaphores (boot_live max_proc) k boot
    → Leaves
        (λ s k'.
          (s ≡ first_state k cpu image.test_code)
          × (k'.current_proc ≡ some 19)
          × (k'.states ≡ k.states)
          × IsSound (alloc_live (boot_live max_proc) 19) k')
        ((scheduler_init idle_cpu cpu image.idle_code image.test_code >> scheduler_run) k)
unfolding insert_by boot
run_first image idle_cpu cpu k sem =
    Leaves-bind _ _ (scheduler_init idle_cpu cpu image.idle_code image.test_code k) _
      (scheduler_init-Started k (boot-Queues k sem) 19 (tail table) refl first_free no_children
        idle_cpu cpu image.idle_code image.test_code)
      λ _ k1 st.
        Leaves-map _ _ (scheduler_run k1) (scheduler_run_lem k1 st.queues 19 [] st.ready) λ s k' d.
          (
            d.state ∙ st.state,
            d.current,
            d.states ∙ st.states,
            (
              put st.qs' ready_queue [],
              record {
                queues = d.queues;
                heads = started_heads;
                family = started-Family k' st.qs' st.lists (d.parents 19 ∙ st.parent);
                every = λ j lt. ground (arith, st.kept j, has-table j lt);
                running = λ c f.
                    let same : 19 ≡ c = ground (arith, f, d.current) in
                    (
                      omega arith,
                      subst
                          (IsOff (alloc_live (boot_live max_proc) 19) (put st.qs' ready_queue []) 0)
                          same d.gone,
                    );
              },
            ),
          )

-- From a memory in which the four static list heads are empty and all other list pointers are `NULL`,
-- `main` leaves the kernel with the state in which the process `test` starts: the last entry of the table is
-- the current process, the new areas of the four exceptions hold the states of their handlers, and the
-- kernel is sound.
pub main-IsSound :
    (image : Image) (idle_cpu cpu : StateT) (k : Kernel)
    → k.links ≡ static_links
    → Leaves
        (λ s k'.
          (s ≡ first_state k cpu image.test_code)
          × (k'.current_proc ≡ some 19)
          × Installed image k k'.states
          × IsSound (alloc_live (boot_live max_proc) 19) k')
        (main image idle_cpu cpu k)
unfolding main init_new_area store_state ram_top boot
main-IsSound image idle_cpu cpu k e =
    Leaves-bind _ _ (pcb_init m) _
      (pcb_init_lem m (subst (λ l. Lists (boot_live 0) l (boot_lists [] [])) (sym e) static-Lists))
      λ _ k1 (lists1, same1).
        Leaves-bind _ _ (asl_init k1) _ (asl_init_lem k1 lists1) λ _ k2 (sem2, same2).
          let words2 : k2.words ≡ k.words =
            ap (λ (n : Kernel). n.words) same2 ∙ ap (λ (n : Kernel). n.words) same1 in
          let states2 : k2.states ≡ m.states =
            ap (λ (n : Kernel). n.states) same2 ∙ ap (λ (n : Kernel). n.states) same1 in
          Leaves-map _ _
            ((scheduler_init idle_cpu cpu image.idle_code image.test_code >> scheduler_run) k2)
            (run_first image idle_cpu cpu k2 sem2)
            λ s k' (started, current, states, sound). (
              started
                  ∙ ap (λ (ws : ℕ → ℕ). first_state (record k { words = ws }) cpu image.test_code)
                      words2,
              current,
              rw (states ∙ states2) (refl, refl, refl, refl),
              sound,
            )
  where
    h : ℕ → StateT
    h = handler_state (ram_top k)

    m : Kernel
    m = record k {
      states =
          put
            (put
              (put (put k.states int_newarea (h image.interrupts_code)) tlb_newarea
                (h image.tlb_code))
              pgmtrap_newarea (h image.trap_code))
            sysbk_newarea (h image.syscall_code);
    }
