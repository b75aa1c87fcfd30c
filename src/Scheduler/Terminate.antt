-- ===== src/Scheduler/Terminate.antt =====
-- `scheduler_kill_process` of src/scheduler.c, on a whole tree of processes.
use bi_kaya.Base.{
  ℕ, ◌<◌, ◌≡◌, refl, ap, Bool, true, false, Option, none, some, List, [], ◌∷◌, ◌++◌, arith,
  if◌then◌else◌, has, erase, Distinct, length,
}
use bi_kaya.Types.{max_proc, p_child, pcb_free_head}
use bi_kaya.Types.Lists.{IsOff}
use bi_kaya.Machine.{Kernel, Returns, Returns-map, for_each_entry, fuel}
use bi_kaya.Asl.Semaphores.{short}
use bi_kaya.Scheduler.{kill_tree, scheduler_kill_process, same_proc}
use bi_kaya.Scheduler.Queues.{Queues-frame}
use bi_kaya.Scheduler.Tables.{Tables}
use bi_kaya.Scheduler.Detach.{IsChild}
use bi_kaya.Scheduler.Forest.{Forest, roots, postorder, Under, Under-frame, enough_levels}
use bi_kaya.Scheduler.Killed.{Killed, end_with, end_with-Killed}
use bi_kaya.Scheduler.Kill.{kill_children, kill_tree-end_with}

-- `c` and the processes `cs` under it are a tree in memory, apart from what stands above it.
pub record IsTree (live : ℕ → Bool) (k : Kernel) (qs : ℕ → List ℕ) (c : ℕ) (cs : Forest)
    : Type 0 where
  pub inside : c < max_proc
  pub taken : has c (qs pcb_free_head) ≡ false
  pub child : IsChild live k qs c
  pub orphan : (k.pcbs c).p_parent ≡ none → IsOff live qs 2 c
  pub above : (p : ℕ) → (k.pcbs c).p_parent ≡ some p → has p (c ∷ postorder cs) ≡ false
  pub kids_live : live (p_child c) ≡ true
  pub kids : qs (p_child c) ≡ roots cs
  pub below : Under live k qs c cs
  pub distinct : Distinct (c ∷ postorder cs)

-- The children of `p`.
abbrev pub children_of : (ℕ → List ℕ) → Option ℕ → List ℕ
children_of qs none = []
children_of qs (some p) = qs (p_child p)

-- In the order in which they end.
abbrev pub tree_of : ℕ → Forest → List ℕ
tree_of c cs = postorder cs ++ c ∷ []

abbrev pub TreeKilled :
    (live : ℕ → Bool) → Kernel → (ℕ → List ℕ) → ℕ → Forest → Kernel → (ℕ → List ℕ) → Type 0
TreeKilled live k qs c cs k' qs' =
    let parent = (k.pcbs c).p_parent in
    Killed live k qs parent (erase c (children_of qs parent)) (tree_of c cs) k' qs'

-- Nobody runs if it is `pid`.
abbrev pub stopped : Kernel → ℕ → Kernel
stopped k pid = record k {
  current_proc = if same_proc pid k.current_proc then none else k.current_proc;
}

module _ {live : ℕ → Bool} where
  pub kill_tree-TreeKilled :
      (k : Kernel) (qs : ℕ → List ℕ) (c : ℕ) (cs : Forest)
      → Tables live k qs
      → IsTree live k qs c cs
      → Returns (λ _ k'. (qs' : ℕ → List ℕ) × TreeKilled live k qs c cs k' qs') (kill_tree fuel c k)
  unfolding for_each_entry
  kill_tree-TreeKilled k qs c cs t tree = rw (kill_tree-end_with max_proc c k) (
      Returns-map _ _ (end_with (kill_tree max_proc) c k)
        (end_with-Killed k qs c (postorder cs) (erase c (children_of qs (k.pcbs c).p_parent))
          tree.inside tree.taken tree.distinct.0 tree.child tree.above (λ p e. ground (arith, e))
          (kill_tree max_proc) t
          (kill_children max_proc fuel cs k qs c t tree.kids_live tree.kids tree.below
            (enough_levels live k qs c cs tree.below tree.distinct.1) tree.distinct
            (ground (
              arith,
              ap length tree.kids,
              short t.queues.semaphores.descriptors (p_child c) tree.kids_live,
            ))))
        λ _ k' (qs', d, _). (qs', d))

  stopped-Tables :
      (k : Kernel) (qs : ℕ → List ℕ) (pid : ℕ) → Tables live k qs → Tables live (stopped k pid) qs
  stopped-Tables k qs pid t = record {
    queues = Queues-frame (stopped k pid) t.queues refl refl λ i. (refl, refl);
    every = t.every;
    free_live = t.free_live;
    places = t.places;
  }

  stopped-IsTree :
      (k : Kernel) (qs : ℕ → List ℕ) (pid c : ℕ) (cs : Forest)
      → IsTree live k qs c cs
      → IsTree live (stopped k pid) qs c cs
  stopped-IsTree k qs pid c cs t = record {
    inside = t.inside;
    taken = t.taken;
    child = t.child;
    orphan = t.orphan;
    above = t.above;
    kids_live = t.kids_live;
    kids = t.kids;
    below = Under-frame live k (stopped k pid) qs qs c cs t.below λ i on. (refl, refl, refl);
    distinct = t.distinct;
  }

  -- With well-formed queues, every descriptor in use or free, no lists of processes but those of
  -- the tables, and `pid` the root of a tree (`IsTree`: the parents and the lists of children of
  -- its processes agree, none of them is free or occurs twice, and the parent of `pid` is not
  -- among them), `scheduler_kill_process pid` returns, and the depth of the recursion is enough
  -- for every such tree: children before their parent, each process of the tree has become the
  -- first of the free list, and has left the ready queue, the queue of its key and its parent and
  -- children; the other processes of these queues keep their order, the queues are well-formed
  -- again, `pid` has left the children of its parent, the others keep their children, nobody runs
  -- if `pid` did, and nothing but pointers and parents is written otherwise.
  pub scheduler_kill_process-TreeKilled :
      (k : Kernel) (qs : ℕ → List ℕ) (pid : ℕ) (cs : Forest)
      → Tables live k qs
      → IsTree live k qs pid cs
      → Returns
          (λ _ k'. (qs' : ℕ → List ℕ) × TreeKilled live (stopped k pid) qs pid cs k' qs')
          (scheduler_kill_process pid k)
  unfolding scheduler_kill_process
  scheduler_kill_process-TreeKilled k qs pid cs t tree =
      kill_tree-TreeKilled (stopped k pid) qs pid cs (stopped-Tables k qs pid t)
        (stopped-IsTree k qs pid pid cs tree)
