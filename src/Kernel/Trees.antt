-- ===== src/Kernel/Trees.antt =====
-- Every process that is not free is the root of a tree.
use bi_kaya.Base.{
  ℕ, zero, suc, ◌+◌, ◌<◌, ◌≤◌, ◌≡◌, ap, sym, ◌∙◌, inl, inr, Bool, true, false, ◌||◌, some, List, [],
  ◌∷◌, ◌/◌, arith, ◌==◌, Bool-cases, Option-cases, has, has-append, Distinct, Distinct-join, Apart,
}
use bi_kaya.Types.{max_proc, p_child, pcb_free_head}
use bi_kaya.Types.Lists.{distinct}
use bi_kaya.Machine.{Kernel}
use bi_kaya.Scheduler.Forest.{Forest, postorder, has-roots, has-child}
use bi_kaya.Scheduler.Terminate.{IsTree, tree_of}
use bi_kaya.Kernel.Sound.{Sound}
use bi_kaya.Kernel.Ancestors.{
  Descends, Spares, ancestor, ancestor-last, parent_step, trees, AreKids, kids_of, roots-trees,
  trees-Under, above_trees,
}

module _ {live : ℕ → Bool} (k : Kernel) {qs : ℕ → List ℕ} (s : Sound live k qs) where
  -- Two processes at one level have no descendant in common.
  siblings_share_nothing :
      (n p l x : ℕ) (xs : List ℕ)
      → AreKids k s p l (x ∷ xs)
      → has x xs ≡ false
      → Apart (postorder (trees qs n (qs (p_child x)))) (x ∷ postorder (trees qs (suc n) xs))
  siblings_share_nothing n p l x xs kids new i on =
      let (parent, lt, busy, at) = kids x (ground arith) in
      let below = kids_of k s x lt busy in
      let (y, m, child, depth, up) =
        above_trees k s n x (suc (s.family.level x)) (qs (p_child x)) below i on in
      let up' : ancestor k (suc m) i ≡ some x = ancestor-last k m i y x up (below y child).0 in
      elim (Bool-cases (i == x)) [
        | inl same ↦
            let same' : s.family.level i ≡ s.family.level x = ap s.family.level (ground arith) in
            absurd (omega (arith, depth, same'))
        | inr other ↦ elim (Bool-cases (has i (postorder (trees qs (suc n) xs)))) [
          | inl there ↦
              let (z, o, beside, depth', up2) =
                above_trees k s (suc n) p l xs (λ j f. kids j (ground arith)) i there in
              let level : o ≡ suc m = omega (arith, depth, depth', at) in
              ground (
                arith,
                beside,
                new,
                ap (λ j. ancestor k j i) (sym level) ∙ up2,
                sym up',
                up2,
                level,
              )
          | inr away ↦ ground arith
        ]
      ]

  -- Nor is one below another.
  not_below :
      (n p l x : ℕ) (xs : List ℕ)
      → AreKids k s p l (x ∷ xs)
      → has x xs ≡ false
      → has x (postorder (trees qs n xs)) ≡ false
  not_below n p l x xs kids new = elim (Bool-cases (has x (postorder (trees qs n xs)))) [
    | inl there ↦
        let (_, _, _, at) = kids x (ground arith) in
        let (z, o, beside, depth, up) =
          above_trees k s n p l xs (λ j f. kids j (ground arith)) x there in
        let level : o ≡ 0 = omega (arith, depth, at) in
        ground (arith, beside, new, ap (λ j. ancestor k j x) (sym level) ∙ up)
    | inr away ↦ away
  ]

  trees-Distinct :
      (n p l : ℕ) (xs : List ℕ)
      → AreKids k s p l xs
      → Distinct xs
      → Distinct (postorder (trees qs n xs))
  trees-Distinct zero p l xs kids d = tt
  trees-Distinct (suc n) p l [] kids d = tt
  trees-Distinct (suc n) p l (x ∷ xs) kids d =
      let (parent, lt, busy, at) = kids x (ground arith) in
      Distinct-join (postorder (trees qs n (qs (p_child x)))) (x ∷ postorder (trees qs (suc n) xs))
        (trees-Distinct n x (suc (s.family.level x)) (qs (p_child x)) (kids_of k s x lt busy)
          (distinct s.queues.semaphores.lists (p_child x) (s.family.homes x lt busy)))
        (
          not_below (suc n) p l x xs kids d.0,
          trees-Distinct (suc n) p l xs (λ i on. kids i (ground arith)) d.1,
        )
        (siblings_share_nothing n p l x xs kids d.0)

  -- What stands below `p`.
  abbrev pub below_tree : ℕ → Forest
  below_tree p = trees qs s.family.levels (qs (p_child p))

  module _ (p : ℕ) (lt : p < max_proc) (taken : has p (qs pcb_free_head) ≡ false) where
    kids : AreKids k s p (suc (s.family.level p)) (qs (p_child p))
    kids = kids_of k s p lt taken

    -- Those below `p` stand deeper.
    deeper_below :
        (i : ℕ)
        → has i (postorder (below_tree p)) ≡ true
        → (m : ℕ) × (s.family.level i ≡ suc m + s.family.level p) × (ancestor k (suc m) i ≡ some p)
    deeper_below i on =
        let (y, m, child, depth, up) =
          above_trees k s s.family.levels p (suc (s.family.level p)) (qs (p_child p)) kids i on in
        (m, omega (arith, depth), ancestor-last k m i y p up (kids y child).0)

    not_under :
        (x : ℕ) → s.family.level x ≤ s.family.level p → has x (postorder (below_tree p)) ≡ false
    not_under x high = elim (Bool-cases (has x (postorder (below_tree p)))) [
      | inl there ↦ let (m, depth, _) = deeper_below x there in absurd (omega (arith, depth, high))
      | inr away ↦ away
    ]

    not_itself : (x : ℕ) → (k.pcbs p).p_parent ≡ some x → (x == p) ≡ false
    not_itself x e = elim (Bool-cases (x == p)) [
      | inl same ↦
          let same' : s.family.level x ≡ s.family.level p = ap s.family.level (ground arith) in
          absurd (omega (arith, s.family.deeper p x lt taken e, same'))
      | inr other ↦ other
    ]

    pub below_tree-IsTree : IsTree live k qs p (below_tree p)
    below_tree-IsTree = record {
      inside = lt;
      taken = taken;
      child = λ x e.
          let (small, busy, child) = s.family.children p x lt taken e in
          (s.family.homes x small busy, child);
      orphan = λ e h at via. elim (Bool-cases (has p (qs h))) [
        | inl there ↦
            let place : h ≡ p_child (h / 8) = ground arith in
            ground (arith, e, s.family.parents p (h / 8) (rw place at at) (rw place at there))
        | inr away ↦ away
      ];
      above = λ x e.
          let depth = s.family.deeper p x lt taken e in
          let other = not_itself x e in rw other (not_under x (omega (arith, depth)));
      kids_live = s.family.homes p lt taken;
      kids =
          roots-trees k s s.family.levels p (suc (s.family.level p)) (qs (p_child p)) kids
            (omega arith);
      below =
          trees-Under k s s.family.levels p (suc (s.family.level p)) (qs (p_child p)) kids
            (omega arith);
      distinct = (
        not_under p (omega arith),
        trees-Distinct s.family.levels p (suc (s.family.level p)) (qs (p_child p)) kids
            (distinct s.queues.semaphores.lists (p_child p) (s.family.homes p lt taken)),
      );
    }

    -- By the pointers to the parents.
    below_tree-ancestor :
        (i : ℕ)
        → has i (postorder (below_tree p)) ≡ true
        → (n : ℕ) × (ancestor k (suc n) i ≡ some p)
    below_tree-ancestor i on = let (m, _, up) = deeper_below i on in (m, up)

    pub ancestor-below_tree :
        (n i : ℕ)
        → i < max_proc
        → has i (qs pcb_free_head) ≡ false
        → ancestor k (suc n) i ≡ some p
        → has i (postorder (below_tree p)) ≡ true
    ancestor-below_tree zero i small busy up = elim (Option-cases (k.pcbs i).p_parent) [
      | inl nobody ↦ ground (arith, nobody, up)
      | inr (x, e) ↦
          let (_, _, child) = s.family.children i x small busy e in
          let same : x ≡ p = ground (arith, ap (parent_step (ancestor k zero)) (sym e) ∙ up) in
          has-roots i (below_tree p) (ap (has i) (sym below_tree-IsTree.kids) ∙ rw same at child)
    ]
    ancestor-below_tree (suc n) i small busy up = elim (Option-cases (k.pcbs i).p_parent) [
      | inl nobody ↦ ground (arith, nobody, up)
      | inr (x, e) ↦
          let (small_x, busy_x, child) = s.family.children i x small busy e in
          has-child live k qs p (below_tree p) below_tree-IsTree.below x i
            (ancestor-below_tree n x small_x busy_x
              (ap (parent_step (ancestor k (suc n))) (sym e) ∙ up))
            child
    ]

    pub in_tree :
        (i : ℕ) → has i (tree_of p (below_tree p)) ≡ ((i == p) || has i (postorder (below_tree p)))
    in_tree i = ground (arith, has-append i (postorder (below_tree p)) (p ∷ []))

    -- The tree is `p` and those below it.
    pub tree-Descends : (i : ℕ) → has i (tree_of p (below_tree p)) ≡ true → Descends k p i
    tree-Descends i on = elim (Bool-cases (i == p)) [
      | inl here ↦ let same : i ≡ p = ground arith in (0, ap some same)
      | inr other ↦ let (n, up) = below_tree-ancestor i (ground (arith, in_tree i)) in (suc n, up)
    ]

    pub Descends-tree :
        (i : ℕ)
        → i < max_proc
        → has i (qs pcb_free_head) ≡ false
        → Descends k p i
        → has i (tree_of p (below_tree p)) ≡ true
    Descends-tree i small busy (zero, up) = ground (arith, in_tree i, up)
    Descends-tree i small busy (suc n, up) =
        ground (arith, in_tree i, ancestor-below_tree n i small busy up)

    pub spared_below :
        Spares k p → (c : ℕ) → k.current_proc ≡ some c → has c (postorder (below_tree p)) ≡ false
    spared_below spares c e = elim (Bool-cases (has c (postorder (below_tree p)))) [
      | inl under ↦ let (n, up) = below_tree-ancestor c under in absurd (spares c n e up)
      | inr away ↦ away
    ]
