-- ===== src/Kernel/Orphans.antt =====
-- The lists of children after `scheduler_kill_process` of src/scheduler.c.
use bi_kaya.Base.{
  ℕ, ◌/◌, ◌≡◌, ◌≢◌, refl, ap, sym, ◌∙◌, inl, inr, Bool, true, false, ◌||◌, some, List, [], ◌∷◌,
  arith, ◌==◌, Bool-cases, Option-cases, has, has-append, erase, has-erase, if◌then◌else◌,
  has-reverse_aux,
}
use bi_kaya.Types.{Pcb, p_child, pcb_free_head}
use bi_kaya.Types.Lists.{distinct, apart}
use bi_kaya.Machine.{Kernel}
use bi_kaya.Scheduler.Forest.{Forest, postorder, has-roots, has-parent, has-child}
use bi_kaya.Scheduler.Terminate.{IsTree, TreeKilled, tree_of, stopped}
use bi_kaya.Kernel.Family.{Family}
use bi_kaya.Kernel.Sound.{Sound}

pub has-erase_off : (c o : ℕ) (xs : List ℕ) → has c xs ≡ false → has c (erase o xs) ≡ false
has-erase_off c o [] off = refl
has-erase_off c o (x ∷ xs) off = ground (arith, has-erase_off c o xs)

module _ {live : ℕ → Bool} (k : Kernel) {qs : ℕ → List ℕ} (s : Sound live k qs) (p : ℕ)
    (cs : Forest) (tree : IsTree live k qs p cs) (k' : Kernel) (qs' : ℕ → List ℕ)
    (d : TreeKilled live (stopped k p) qs p cs k' qs') where
  freed : (i : ℕ) → has i (qs' pcb_free_head) ≡ (has i (tree_of p cs) || has i (qs pcb_free_head))
  freed i = ap (has i) d.free ∙ has-reverse_aux i (tree_of p cs) (qs pcb_free_head)

  -- A process below `p` is a child only within the tree.
  below_only :
      (i x : ℕ)
      → has i (postorder cs) ≡ true
      → live (p_child x) ≡ true
      → has x (p ∷ postorder cs) ≡ false
      → has i (qs (p_child x)) ≡ false
  below_only i x under at out =
      let (y, here, at_y, child) =
        has-parent live k qs p cs tree.below tree.kids_live (λ j f. ap (has j) tree.kids ∙ f) i
          under in
      ground
        (arith, apart s.queues.semaphores.lists (p_child x) (p_child y) i at at_y (ground arith))

  -- So is `p`, which has left its parent.
  root_only :
      (x : ℕ)
      → live (p_child x) ≡ true
      → (k.pcbs p).p_parent ≢ some x
      → has p (qs (p_child x)) ≡ false
  root_only x at ne = elim (Option-cases (k.pcbs p).p_parent) [
    | inl orphan ↦ tree.orphan orphan (p_child x) at (ground arith)
    | inr (y, e) ↦
        let (at_y, on) = tree.child y e in
        ground (
          arith,
          e,
          apart s.queues.semaphores.lists (p_child x) (p_child y) p at at_y (ground arith),
        )
  ]

  in_tree : (i : ℕ) → has i (tree_of p cs) ≡ ((i == p) || has i (postorder cs))
  in_tree i = ground (arith, has-append i (postorder cs) (p ∷ []))

  -- Elsewhere nothing of it was a child before.
  stays_out :
      (i x : ℕ)
      → (has i (tree_of p cs) || has i (qs pcb_free_head)) ≡ true
      → live (p_child x) ≡ true
      → (k.pcbs p).p_parent ≢ some x
      → has x (tree_of p cs) ≡ false
      → has i (qs (p_child x)) ≡ false
  stays_out i x on at ne out = elim (Bool-cases (has i (postorder cs))) [
    | inl under ↦ below_only i x under at (ground (arith, in_tree x))
    | inr other ↦ elim (Bool-cases (i == p)) [
      | inl root ↦ let same : i ≡ p = ground arith in rw same (root_only x at ne)
      | inr free ↦ s.family.orphans i (ground (arith, in_tree i)) (p_child x) at (ground arith)
    ]
  ]

  away :
      (i x : ℕ)
      → (has i (tree_of p cs) || has i (qs pcb_free_head)) ≡ true
      → live (p_child x) ≡ true
      → (k.pcbs p).p_parent ≢ some x
      → has i (qs' (p_child x)) ≡ false
  away i x on at ne = elim (Bool-cases (has x (tree_of p cs))) [
    | inl inner ↦ ap (has i) (d.children x ne) ∙ rw inner refl
    | inr outer ↦ ap (has i) (d.children x ne) ∙ rw outer (stays_out i x on at ne outer)
  ]

  left : (x : ℕ) → (k.pcbs p).p_parent ≡ some x → qs' (p_child x) ≡ erase p (qs (p_child x))
  left x e = d.left x e ∙ rw e refl

  -- From the children of its parent it has gone.
  taken_off :
      (i x : ℕ)
      → (has i (tree_of p cs) || has i (qs pcb_free_head)) ≡ true
      → live (p_child x) ≡ true
      → (k.pcbs p).p_parent ≡ some x
      → has i (qs' (p_child x)) ≡ false
  taken_off i x on at e = ap (has i) (left x e) ∙ elim (Bool-cases (i == p)) [
    | inl root ↦
        ground (
          arith,
          has-erase i p (qs (p_child x)) (distinct s.queues.semaphores.lists (p_child x) at),
        )
    | inr other ↦ elim (Bool-cases (has i (postorder cs))) [
      | inl under ↦ has-erase_off i p (qs (p_child x)) (below_only i x under at (tree.above x e))
      | inr free ↦
          has-erase_off i p (qs (p_child x))
            (s.family.orphans i (ground (arith, in_tree i)) (p_child x) at (ground arith))
    ]
  ]

  gone :
      (i x : ℕ)
      → (has i (tree_of p cs) || has i (qs pcb_free_head)) ≡ true
      → live (p_child x) ≡ true
      → has i (qs' (p_child x)) ≡ false
  gone i x on at = elim (Option-cases (k.pcbs p).p_parent) [
    | inl orphan ↦ away i x on at (λ f. ground (arith, orphan, f))
    | inr (y, e) ↦ elim (Bool-cases (y == x)) [
      | inl here ↦ let same : y ≡ x = ground arith in taken_off i x on at (e ∙ ap some same)
      | inr there ↦ away i x on at (λ f. ground (arith, e, f))
    ]
  ]

  -- Who is spared keeps his parent.
  spared :
      (i : ℕ)
      → has i (qs' pcb_free_head) ≡ false
      → (has i (tree_of p cs) ≡ false)
        × (has i (qs pcb_free_head) ≡ false)
        × ((k'.pcbs i).p_parent ≡ (k.pcbs i).p_parent)
  spared i taken =
      let out : has i (tree_of p cs) ≡ false = ground (arith, freed i) in
      (out, ground (arith, freed i), ap (λ (b : Pcb). b.p_parent) (d.pcbs i) ∙ rw out refl)

  -- No list of children has grown.
  was_child : (i x : ℕ) → has i (qs' (p_child x)) ≡ true → has i (qs (p_child x)) ≡ true
  was_child i x on = elim (Bool-cases (has i (qs (p_child x)))) [
    | inl before ↦ before
    | inr never ↦ elim (Option-cases (k.pcbs p).p_parent) [
      | inl orphan ↦ ground (arith, never, other (λ f. ground (arith, orphan, f)))
      | inr (y, e) ↦ elim (Bool-cases (y == x)) [
        | inl here ↦
            let same : y ≡ x = ground arith in
            ground (
              arith,
              ap (has i) (left x (e ∙ ap some same)),
              has-erase_off i p (qs (p_child x)) never,
            )
        | inr there ↦ ground (arith, never, other (λ f. ground (arith, e, f)))
      ]
    ]
  ]
    where
      other :
          (k.pcbs p).p_parent ≢ some x
          → has i (qs' (p_child x)) ≡ has i (if has x (tree_of p cs) then [] else qs (p_child x))
      other ne = ap (has i) (d.children x ne)

  -- The parent of a process that is spared is spared and keeps it.
  keeps :
      (i x : ℕ)
      → has i (tree_of p cs) ≡ false
      → has i (qs (p_child x)) ≡ true
      → (has x (tree_of p cs) ≡ false) × (has i (qs' (p_child x)) ≡ true)
  keeps i x out on = (
    outside,
    elim (Option-cases (k.pcbs p).p_parent) [
      | inl orphan ↦
          ap (has i) (d.children x (λ f. ground (arith, orphan, f))) ∙ rw (outside, on) refl
      | inr (y, e) ↦ elim (Bool-cases (y == x)) [
        | inl here ↦
            let same : y ≡ x = ground arith in
            ap (has i) (left x (e ∙ ap some same))
            ∙ ground (
              arith,
              in_tree i,
              has-erase i p (qs (p_child x))
                  (distinct s.queues.semaphores.lists (p_child x) (rw (← same) (tree.child y e).0)),
            )
        | inr there ↦ ap (has i) (d.children x (λ f. ground (arith, e, f))) ∙ rw (outside, on) refl
      ]
    ],
  )
    where
      outside : has x (tree_of p cs) ≡ false
      outside = elim (Bool-cases (x == p)) [
        | inl root ↦
            let same : x ≡ p = ground arith in
            ground (
              arith,
              in_tree i,
              has-roots i cs,
              ap (has i) (sym tree.kids),
              ap (λ y. has i (qs (p_child y))) (sym same) ∙ on,
            )
        | inr other ↦ elim (Bool-cases (has x (postorder cs))) [
          | inl deep ↦ ground (arith, in_tree i, has-child live k qs p cs tree.below x i deep on)
          | inr elsewhere ↦ ground (arith, in_tree x)
        ]
      ]

  pub killed-Family : Family live k' qs'
  killed-Family = record {
    homes = λ i lt taken. s.family.homes i lt (ground (arith, freed i));
    orphans = λ i on h live_h via.
        let place : h ≡ p_child (h / 8) = ground arith in
        rw place (gone i (h / 8) (sym (freed i) ∙ on) (rw place at live_h));
    parents = λ i x at on. elim (Bool-cases (has i (qs' pcb_free_head))) [
      | inl free ↦ ground (arith, gone i x (sym (freed i) ∙ free) at)
      | inr taken ↦
          let (_, _, parent) = spared i taken in parent ∙ s.family.parents i x at (was_child i x on)
    ];
    children = λ i x lt taken e.
        let (out, busy, parent) = spared i taken in
        let (small, busy_x, child) = s.family.children i x lt busy (sym parent ∙ e) in
        let (out_x, kept) = keeps i x out child in (small, ground (arith, freed x), kept);
    levels = s.family.levels;
    level = s.family.level;
    bounded = λ i lt taken. s.family.bounded i lt (spared i taken).1;
    deeper = λ i x lt taken e.
        let (_, busy, parent) = spared i taken in s.family.deeper i x lt busy (sym parent ∙ e);
  }
