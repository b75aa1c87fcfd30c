-- ===== src/Examples/Subtree.antt =====
-- The sample memory with one blocked process under another.
use bi_kaya.Base.{
  ℕ, ◌≡◌, refl, subst, true, some, List, [], ◌∷◌, arith, has, zero, suc, inl, inr, ◌⊎◌, ◌==◌, ◌||◌,
  if◌then◌else◌,
}
use bi_kaya.ListX.{put}
use bi_kaya.Types.{p_child, pcb_free_head, asl}
use bi_kaya.Types.Lists.{Lists, list_add-Lists}
use bi_kaya.Machine.{Kernel, Returns, ok, fuel}
use bi_kaya.Asl.{asl_find_and_remove_blocked_child}
use bi_kaya.Asl.Semaphores.{waiting, queue_at}
use bi_kaya.Scheduler.Tables.{Tables, Tables-put}
use bi_kaya.Kernel.Sound.{Sound}
use bi_kaya.Kernel.Ancestors.{Descends}
use bi_kaya.Kernel.Terminate.{tables}
use bi_kaya.Kernel.Unblock.{
  SubtreeAway, asl_find_and_remove_blocked_child-SubtreeAway,
  asl_find_and_remove_blocked_child-unblocked,
}
use bi_kaya.Examples.{links_of}
use bi_kaya.Examples.Whole.{
  table_heads, whole, whole_entries, whole_lists, whole-Sound, elsewhere-free,
}

-- 1 is the child of 2, and both wait for the first disk.
abbrev nest : Kernel
nest = record whole {
  links = links_of ((p_child 2, 1) ∷ whole_entries);
  pcbs = put whole.pcbs 1 (record (whole.pcbs 1) { p_parent = some 2 });
}

abbrev nest_lists : ℕ → List ℕ
nest_lists = put whole_lists (p_child 2) (1 ∷ [])

nest-Lists : Lists table_heads nest.links nest_lists
nest-Lists =
    subst (λ xs. Lists table_heads nest.links (put whole_lists (p_child 2) (1 ∷ xs)))
      (elsewhere-free (p_child 2) refl)
      (list_add-Lists whole-Sound.queues.semaphores.lists (p_child 2) 1 refl
        λ h at via. ground (arith, elsewhere-free h))

nest-Tables : Tables table_heads nest nest_lists
nest-Tables =
    Tables-put (tables whole whole-Sound) nest (p_child 2) (1 ∷ []) (omega arith) (omega arith)
      (omega arith) nest-Lists (λ i on. ground arith) refl (λ i. (ground arith, ground arith))
      whole-Sound.queues.ordered

only_children :
    (c x : ℕ) → has c (nest_lists (p_child x)) ≡ true → ((c ≡ 4) × (x ≡ 5)) ⊎ ((c ≡ 1) × (x ≡ 2))
only_children c x on = ground (arith, elsewhere-free (p_child x))

only_parents :
    (c x : ℕ) → (nest.pcbs c).p_parent ≡ some x → ((c ≡ 4) × (x ≡ 5)) ⊎ ((c ≡ 1) × (x ≡ 2))
only_parents c x e = ground (arith, e)

nest-Sound : Sound table_heads nest nest_lists
nest-Sound = record {
  queues = nest-Tables.queues;
  heads = whole-Sound.heads;
  family = record {
    homes = whole-Sound.family.homes;
    orphans = λ i on h at via.
        ground (arith, whole-Sound.family.orphans i on h at via, elsewhere-free pcb_free_head);
    parents = λ c x at on. elim (only_children c x on) [
      | inl (child, parent) ↦ rw (child, parent) refl
      | inr (child, parent) ↦ rw (child, parent) refl
    ];
    children = λ c x lt taken e. elim (only_parents c x e) [
      | inl (child, parent) ↦ (
        omega (arith, parent),
        rw (parent, elsewhere-free pcb_free_head refl) refl,
        rw (child, parent) refl,
      )
      | inr (child, parent) ↦ (
        omega (arith, parent),
        rw (parent, elsewhere-free pcb_free_head refl) refl,
        rw (child, parent) refl,
      )
    ];
    levels = 2;
    level = λ i. if (i == 4) || (i == 1) then 1 else 0;
    bounded = λ i lt taken. ground arith;
    deeper = λ c x lt taken e. elim (only_parents c x e) [
      | inl (child, parent) ↦ rw (child, parent) refl
      | inr (child, parent) ↦ rw (child, parent) refl
    ];
  };
  every = nest-Tables.every;
  running = λ c e.
      let (inside, off) = whole-Sound.running c e in
      (inside, λ h at via. ground (arith, off h at via));
}

both_wait : (i : ℕ) → Descends nest 2 i → (i ≡ 2) ⊎ (i ≡ 1)
both_wait i (zero, up) = inl (ground (arith, up))
both_wait i (suc zero, up) = ground (arith, up)
both_wait i (suc (suc n), up) = ground (arith, up)

blocked :
    (i : ℕ) → Descends nest 2 i → has i (waiting nest nest_lists (nest.pcbs i).p_semkey) ≡ true
unfolding waiting queue_at
blocked i under = elim (both_wait i under) [ inl two ↦ rw two refl | inr one ↦ rw one refl ]

asl_find_and_remove_blocked_child-SubtreeAway_example :
    Returns
      (λ _ k'. SubtreeAway nest nest-Sound 2 k')
      (asl_find_and_remove_blocked_child fuel 2 nest)
asl_find_and_remove_blocked_child-SubtreeAway_example =
    asl_find_and_remove_blocked_child-SubtreeAway nest nest-Sound 2 (omega arith)
      (rw (elsewhere-free pcb_free_head refl) refl) blocked

-- 5 waits for nothing.
asl_find_and_remove_blocked_child-unblocked_example :
    asl_find_and_remove_blocked_child 21 5 nest ≡ ok tt nest
unfolding waiting queue_at
asl_find_and_remove_blocked_child-unblocked_example =
    asl_find_and_remove_blocked_child-unblocked nest nest-Sound 20 5
      (rw (elsewhere-free asl refl) refl)
