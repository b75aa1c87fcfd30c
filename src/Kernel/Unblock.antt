-- ===== src/Kernel/Unblock.antt =====
-- `asl_find_and_remove_blocked_child` of src/asl.c in a sound kernel.
use bi_kaya.Base.{
  ℕ, suc, ◌<◌, ◌≡◌, ◌↔◌, refl, ap, sym, ◌∙◌, inl, inr, Bool, true, false, none, List, [], ◌∷◌,
  arith, ◌==◌, has, has-append, find, Option-cases, length, is_nil,
}
use bi_kaya.Types.{max_proc, asl, s_proc_q, p_child, pcb_free_head, ready_queue}
use bi_kaya.Types.Lists.{IsOff}
use bi_kaya.Machine.{Kernel, ok, Returns, Returns-map, fuel}
use bi_kaya.Asl.{asl_find_and_remove_blocked_child}
use bi_kaya.Asl.Semaphores.{waiting, short, found_key}
use bi_kaya.Asl.Subtree.{AllAway, AllBlocked, subtree, children_away, search-unblocked}
use bi_kaya.Asl.Remove.{waiting-some}
use bi_kaya.Machine.Children.{Nexts-children}
use bi_kaya.Scheduler.Tables.{waits_by_key}
use bi_kaya.Scheduler.Forest.{postorder, roots, enough_levels}
use bi_kaya.Scheduler.Terminate.{tree_of}
use bi_kaya.Kernel.Ancestors.{Descends}
use bi_kaya.Kernel.Family.{Family-same}
use bi_kaya.Kernel.Sound.{Sound, waiting-IsOff}
use bi_kaya.Kernel.Terminate.{tables, has-erase_all_off}
use bi_kaya.Kernel.Trees.{below_tree, below_tree-IsTree, tree-Descends, Descends-tree}

module _ {live : ℕ → Bool} (k : Kernel) {qs : ℕ → List ℕ} (s : Sound live k qs) where
  AllAway-Sound :
      (os : List ℕ) (k' : Kernel) (qs' : ℕ → List ℕ)
      → AllAway live k qs os k' qs'
      → Sound live k' qs'
  AllAway-Sound os k' qs' a = record {
    queues = a.tables.queues;
    heads = s.heads;
    family =
        Family-same k' (λ h x y z w. a.elsewhere h x y z)
          (λ i. ap (λ (m : Kernel). (m.pcbs i).p_parent) a.same) s.family;
    every = a.tables.every;
    running = λ c e.
        let (inside, off) = s.running c (sym (ap (λ (m : Kernel). m.current_proc) a.same) ∙ e) in
        (inside, still_off c off);
  }
    where
      not_waiting : (c : ℕ) → IsOff live qs 0 c → (key : ℕ) → has c (waiting k' qs' key) ≡ false
      not_waiting c off key =
          ap (has c) (a.waits key)
          ∙ has-erase_all_off c os (waiting k qs key) (waiting-IsOff k s key c off)

      still_off : (c : ℕ) → IsOff live qs 0 c → IsOff live qs' 0 c
      still_off c off h at via = elim (s.heads.places h at via) [
        | inl here ↦ rw here (
            ap (has c) (a.elsewhere ready_queue (omega arith) (omega arith) (omega arith))
            ∙ off ready_queue s.queues.ready_live refl)
        | inr (inl here) ↦ rw here (
            ap (has c) (a.elsewhere pcb_free_head (omega arith) (omega arith) (omega arith))
            ∙ off pcb_free_head s.heads.free_live refl)
        | inr (inr (j, here, lt)) ↦
            let gone = not_waiting c off (k'.pcbs c).p_semkey in
            ground (arith, here, gone, waits_by_key a.tables j c lt)
      ]

  -- `p` and those below it, and no others, have left the queues of their keys.
  abbrev pub SubtreeAway : ℕ → Kernel → Type 0
  SubtreeAway p k' =
      (os : List ℕ) × (qs' : ℕ → List ℕ) × AllAway live k qs os k' qs'
      × ((i : ℕ)
          → i < max_proc
          → has i (qs pcb_free_head) ≡ false
          → (has i os ≡ true) ↔ Descends k p i)
      × Sound live k' qs'

  -- In a sound state in which a process `p`, which is not free, and all processes below it are
  -- blocked, `asl_find_and_remove_blocked_child` of `p` returns, with fuel for as many levels as there
  -- are processes: `p` and those below it, by their pointers to the parents, and no others, have left
  -- the queues of their keys, the other processes of these queues keep their order, nothing but
  -- pointers is written, and the kernel is sound again.
  pub asl_find_and_remove_blocked_child-SubtreeAway :
      (p : ℕ)
      → p < max_proc
      → has p (qs pcb_free_head) ≡ false
      → ((i : ℕ) → Descends k p i → has i (waiting k qs (k.pcbs i).p_semkey) ≡ true)
      → Returns (λ _ k'. SubtreeAway p k') (asl_find_and_remove_blocked_child fuel p k)
  asl_find_and_remove_blocked_child-SubtreeAway p lt busy blocked =
      let cs = below_tree k s p in
      let tree = below_tree-IsTree k s p lt busy in
      let all : AllBlocked k qs (tree_of p cs) =
        λ i on. blocked i (tree-Descends k s p lt busy i on) in
      Returns-map _ _ (asl_find_and_remove_blocked_child fuel p k)
        (subtree max_proc k qs p cs (tables k s) (blocked p (0, refl)) (
          children_away max_proc fuel cs k qs p (p_child p) (tables k s)
            (Nexts-children s.queues.semaphores.lists p (roots cs) tree.kids_live tree.kids)
            tree.below (enough_levels live k qs p cs tree.below tree.distinct.1) tree.distinct.1
            (λ i on. all i (ground (arith, has-append i (postorder cs) (p ∷ []))))
            (ground (
              arith,
              ap length tree.kids,
              short s.queues.semaphores.descriptors (p_child p) tree.kids_live,
            ))))
        λ _ k' (qs', a). (
          tree_of p cs,
          qs',
          a,
          (λ i small taken.
              (tree-Descends k s p lt busy i, Descends-tree k s p lt busy i small taken)),
          AllAway-Sound (tree_of p cs) k' qs' a,
        )

  no_descriptor : (key : ℕ) → waiting k qs key ≡ [] → find (λ j. k.s_keys j == key) (qs asl) ≡ none
  no_descriptor key nobody = elim (Option-cases (find (λ j. k.s_keys j == key) (qs asl))) [
    | inl missing ↦ missing
    | inr (j, found) ↦
        let (on, _) = found_key s.queues.semaphores.descriptors j key found in
        let empty : qs (s_proc_q j) ≡ [] =
          sym (waiting-some k s.queues.semaphores key j found) ∙ nobody in
        ground (arith, ap is_nil empty, s.queues.semaphores.busy j on)
  ]

  -- In a sound state, `asl_find_and_remove_blocked_child` of a process for whose key nobody waits
  -- returns at once and changes nothing, whoever is blocked below that process.
  pub asl_find_and_remove_blocked_child-unblocked :
      (d p : ℕ)
      → waiting k qs (k.pcbs p).p_semkey ≡ []
      → asl_find_and_remove_blocked_child (suc d) p k ≡ ok tt k
  asl_find_and_remove_blocked_child-unblocked d p nobody =
      search-unblocked d k qs p (tables k s) (no_descriptor (k.pcbs p).p_semkey nobody)
