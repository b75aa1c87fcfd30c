-- ===== src/Kernel/Unhandled.antt =====
-- `scheduler_handle_exception` of src/scheduler.c for a process that has declared no handler.
use mathlib.Core.List.{reverse_aux}
use bi_kaya.Base.{
  ℕ, ◌<◌, ◌≡◌, refl, ap, sym, ◌∙◌, inl, inr, Bool, true, false, none, some, List, arith, ◌==◌, ltb,
  ==_refl,
}
use bi_kaya.ListX.{put}
use bi_kaya.Types.{StateT, null, pcb_free_head, ready_queue}
use bi_kaya.Machine.{Kernel, Leaves, Leaves-map, Leaves-bind, Leaves-deref, ◌>>◌}
use bi_kaya.Scheduler.{
  scheduler_account_time, scheduler_handle_exception, scheduler_kill_process, scheduler_resume,
}
use bi_kaya.Scheduler.Time.{Accounted, Accounted-SameButClock, scheduler_account_time-Accounted}
use bi_kaya.Scheduler.Resume.{Resumed, scheduler_resume-Leaves}
use bi_kaya.Scheduler.Forest.{Forest, Under-frame}
use bi_kaya.Scheduler.Terminate.{IsTree, tree_of, scheduler_kill_process-TreeKilled}
use bi_kaya.Kernel.Sound.{Sound, Accounted-Sound}
use bi_kaya.Kernel.Switches.{Dispatched-Sound}
use bi_kaya.Kernel.Terminate.{OnlyTree, tables, spared_Sound, below_tree-OnlyTree}
use bi_kaya.Kernel.Trees.{below_tree, below_tree-IsTree}

-- The processes `os` are free, first of all, and the kernel is sound.
abbrev Ended : (ℕ → Bool) → (ℕ → List ℕ) → List ℕ → Kernel → Type 0
Ended live qs os k' =
    (qs' : ℕ → List ℕ) × Sound live k' qs' × (qs' pcb_free_head ≡ reverse_aux os (qs pcb_free_head))

module _ {live : ℕ → Bool} where
  Accounted-IsTree :
      (k : Kernel) (qs : ℕ → List ℕ) (kernel : Bool) (k1 : Kernel) (c : ℕ) (cs : Forest)
      → Accounted kernel k k1
      → IsTree live k qs c cs
      → IsTree live k1 qs c cs
  Accounted-IsTree k qs kernel k1 c cs a t = record {
    inside = t.inside;
    taken = t.taken;
    child = λ p e. t.child p (sym (parent c) ∙ e);
    orphan = λ e. t.orphan (sym (parent c) ∙ e);
    above = λ p e. t.above p (sym (parent c) ∙ e);
    kids_live = t.kids_live;
    kids = t.kids;
    below = Under-frame live k k1 qs qs c cs t.below λ i on. (parent i, refl, refl);
    distinct = t.distinct;
  }
    where
      parent : (i : ℕ) → (k1.pcbs i).p_parent ≡ (k.pcbs i).p_parent
      parent i = (Accounted-SameButClock kernel k k1 a i).p_parent

  -- With nobody running the first ready process takes over, if there is one.
  resume_nobody :
      (k : Kernel) (qs : ℕ → List ℕ)
      → Sound live k qs
      → k.current_proc ≡ none
      → Leaves
          (λ _ k'. (qs' : ℕ → List ℕ) × Sound live k' qs' × (qs' pcb_free_head ≡ qs pcb_free_head))
          (scheduler_resume false null k)
  resume_nobody k qs s nobody =
      Leaves-map _ _ (scheduler_resume false null k)
        (scheduler_resume-Leaves k false null s.queues (λ p e. ground (arith, nobody, e))
          (λ over. cc))
        λ st k' r. go st k' r
    where
      go :
          (st : StateT) (k' : Kernel)
          → Resumed k s.queues false null st k'
          → (qs' : ℕ → List ℕ) × Sound live k' qs' × (qs' pcb_free_head ≡ qs pcb_free_head)
      go st k' (inl (_, inl (_, _, same))) = (qs, rw same s, refl)
      go st k' (inl (_, inr (p, ps, whole, d))) =
          (put qs ready_queue ps, Dispatched-Sound k s p ps st k' whole d, refl)
      go st k' (inr (inl (p, e, _, _, _, _))) = ground (arith, nobody, e)
      go st k' (inr (inr (p, e, _, _))) = ground (arith, nobody, e)

  -- The process `c`, which runs, ends with its tree, and another takes over.
  end_current :
      (k : Kernel) (qs : ℕ → List ℕ) (c : ℕ) (cs : Forest)
      → Sound live k qs
      → k.current_proc ≡ some c
      → IsTree live k qs c cs
      → Leaves
          (λ _ k'. Ended live qs (tree_of c cs) k')
          ((scheduler_kill_process c >> scheduler_resume false null) k)
  end_current k qs c cs s e tree =
      Leaves-bind _ _ (scheduler_kill_process c k) _
        (scheduler_kill_process-TreeKilled k qs c cs (tables k s) tree)
        λ _ k1 (qs1, d).
          Leaves-map _ _ (scheduler_resume false null k1)
            (resume_nobody k1 qs1
              (spared_Sound k s c cs tree k1 qs1 d λ i on. ground (arith, e, on, tree.distinct.0))
              (ap (λ (n : Kernel). n.current_proc) d.same ∙ rw (e, ==_refl c) refl))
            λ st k2 (qs2, s2, free). (qs2, s2, free ∙ d.free)

  -- `scheduler_handle_exception`, in a sound state and for a type below 3 for which the current process `c`
  -- has declared no handler, leaves the kernel: `c` and the processes below it, by their pointers to the
  -- parents, and no others, are put on the free list, and the kernel is sound, so that none of them runs
  -- or is in a queue.
  pub scheduler_handle_exception-Ended :
      (k : Kernel) (qs : ℕ → List ℕ) (type old c : ℕ) (s : Sound live k qs)
      → k.current_proc ≡ some c
      → type < 3
      → ((k.pcbs c).exc_areas type == null) ≡ true
      → Leaves
          (λ _ k'. (qs' : ℕ → List ℕ) × Sound live k' qs' × OnlyTree k s c qs')
          (scheduler_handle_exception type old k)
  unfolding scheduler_handle_exception
  scheduler_handle_exception-Ended k qs type old c s e few undeclared =
      let (small, off) = s.running c e in
      let busy = off pcb_free_head s.heads.free_live refl in
      Leaves-bind _ _ (scheduler_account_time false k) _ (scheduler_account_time-Accounted false k)
        λ _ k1 a.
          let areas : (k1.pcbs c).exc_areas ≡ (k.pcbs c).exc_areas =
            (Accounted-SameButClock false k k1 a c).exc_areas in
          let in_range : ltb type 6 ≡ true = ground arith in
          let current : k1.current_proc ≡ some c = ap (λ (m : Kernel). m.current_proc) a.same ∙ e in
          Leaves-deref _ k1.current_proc c k1 _ current (
            rw (in_range, areas, undeclared)
              (Leaves-map _ _ ((scheduler_kill_process c >> scheduler_resume false null) k1)
                (end_current k1 qs c (below_tree k s c) (Accounted-Sound k s false k1 a) current (
                  Accounted-IsTree k qs false k1 c (below_tree k s c) a
                    (below_tree-IsTree k s c small busy)))
                λ _ k2 (qs2, s2, free). (qs2, s2, below_tree-OnlyTree k s c qs2 small busy free)))
