-- ===== src/Examples/Whole.antt =====
-- The sample memory with every descriptor in it, which makes it a sound state of the kernel.
use bi_kaya.Base.{
  ℕ, zero, suc, Bool, true, ◌||◌, ◌%◌, ◌/◌, ◌≡◌, refl, subst, inl, inr, false, ◌&&◌, not, List, [],
  ◌∷◌, arith, ◌==◌, if◌then◌else◌, has, ltb, Bool-cases, some,
}
use bi_kaya.Types.{max_proc, p_child, s_proc_q, pcb_free_head, ready_queue, semd_free, asl}
use bi_kaya.Types.Lists.{Lists, IsOff}
use bi_kaya.Machine.{Kernel}
use bi_kaya.ListX.{Links}
use bi_kaya.Asl.Semaphores.{Semaphores}
use bi_kaya.Kernel.Sound.{ProcessHeads, Sound}
use bi_kaya.Examples.{heads, Entries, links_of, lists_of, links_of-Lists, is_off-IsOff, memory}

pub free_descriptors : ℕ → Entries → Entries
free_descriptors zero es = es
free_descriptors (suc n) es =
    if n == 3 then free_descriptors n es else (semd_free, n) ∷ free_descriptors n es

abbrev pub whole_entries : Entries
whole_entries =
    (asl, 3)
    ∷ (s_proc_q 3, 2)
    ∷ (s_proc_q 3, 1)
    ∷ (ready_queue, 5)
    ∷ (ready_queue, 4)
    ∷ (pcb_free_head, 7)
    ∷ (p_child 5, 4)
    ∷ free_descriptors max_proc []

abbrev pub whole_lists : ℕ → List ℕ
whole_lists = lists_of whole_entries

abbrev pub whole : Kernel
whole = record memory { links = links_of whole_entries }

whole-Lists : Lists heads whole.links whole_lists
unfolding free_descriptors
whole-Lists = links_of-Lists whole_entries refl

elsewhere : (n h : ℕ) → (h == semd_free) ≡ false → lists_of (free_descriptors n []) h ≡ []
unfolding free_descriptors
elsewhere zero h other = refl
elsewhere (suc n) h other = elim (Bool-cases (n == 3)) [
  | inl three ↦ rw three (elsewhere n h other)
  | inr some_other ↦ rw (some_other, other) (elsewhere n h other)
]

pub elsewhere-free :
    (h : ℕ) → (h == semd_free) ≡ false → lists_of (free_descriptors max_proc []) h ≡ []
elsewhere-free h other = elsewhere max_proc h other

has-free :
    (j : ℕ)
    → has j (lists_of (free_descriptors max_proc []) semd_free) ≡ (ltb j max_proc && not (j == 3))
unfolding free_descriptors
has-free j = ground arith

whole-Semaphores : Semaphores heads whole whole_lists
whole-Semaphores = record {
  descriptors = record {
    lists = whole-Lists;
    inside = λ h i at on. ground (arith, elsewhere-free h, has-free i);
    asl_live = refl;
    free_live = refl;
    queues = λ j on. ground arith;
    idle = λ j on. ground (arith, elsewhere-free (s_proc_q j), has-free j);
    keyed = λ i j a b e. ground (arith, elsewhere-free asl);
    blocked = λ j i a b. ground (arith, elsewhere-free asl, elsewhere-free (s_proc_q j));
  };
  busy = λ j on. ground (arith, elsewhere-free asl, elsewhere-free (s_proc_q j));
}

current_off : IsOff heads whole_lists 0 8
unfolding free_descriptors
current_off = is_off-IsOff 0 8 whole_entries refl

-- The lists of the tables.
abbrev pub table_heads : ℕ → Bool
table_heads h =
    (h == pcb_free_head)
    || (h == ready_queue)
    || (h == asl)
    || (h == semd_free)
    || (((h % 8 == 1) || (h % 8 == 4)) && ltb h 160)

table_heads-heads : (h : ℕ) → table_heads h ≡ true → heads h ≡ true
table_heads-heads h at = ground arith

table_heads-ProcessHeads : ProcessHeads table_heads
table_heads-ProcessHeads = record {
  free_live = refl;
  places = λ h at via. elim (Bool-cases (h == ready_queue)) [
    | inl ready ↦ inl (ground arith)
    | inr other ↦ elim (Bool-cases (h == pcb_free_head)) [
      | inl free ↦ inr (inl (ground arith))
      | inr queue ↦ inr (inr (h / 8, ground arith, ground arith))
    ]
  ];
}

table_heads-Lists : {l : Links} {qs : ℕ → List ℕ} → Lists heads l qs → Lists table_heads l qs
table_heads-Lists r = record {
  rings = record {
    ring = λ h at. r.rings.ring h (table_heads-heads h at);
    distinct = λ h at. r.rings.distinct h (table_heads-heads h at);
    entries = λ h n at on. ground (arith, r.rings.entries h n (table_heads-heads h at) on);
    apart = λ g h n a b. r.rings.apart g h n (table_heads-heads g a) (table_heads-heads h b);
  };
  heads = λ h at. table_heads-heads h at;
}

pub whole-Sound : Sound table_heads whole whole_lists
whole-Sound = record {
  queues = record {
    semaphores = record {
      descriptors = record {
        lists = table_heads-Lists s.lists;
        inside = λ h i at. s.inside h i (table_heads-heads h at);
        asl_live = refl;
        free_live = refl;
        queues = λ j on. ground (arith, s.inside asl j refl, s.inside semd_free j refl);
        idle = s.idle;
        keyed = s.keyed;
        blocked = s.blocked;
      };
      busy = s.busy;
    };
    ready_live = refl;
    ordered = rw (elsewhere-free ready_queue refl) ((omega arith, tt), (tt, tt));
  };
  heads = table_heads-ProcessHeads;
  family = record {
    homes = λ i lt taken. ground arith;
    orphans = λ i on h at via. ground (arith, elsewhere-free h, elsewhere-free pcb_free_head);
    parents = λ c x at on.
        let (child, parent) : (c ≡ 4) × (x ≡ 5) = only_child c x on in rw (child, parent) refl;
    children = λ c x lt taken e.
        let (child, parent) : (c ≡ 4) × (x ≡ 5) = only_parent c x e in
        (
          omega (arith, parent),
          rw (parent, elsewhere-free pcb_free_head refl) refl,
          rw (child, parent) refl,
        );
    levels = 2;
    level = λ i. if i == 4 then 1 else 0;
    bounded = λ i lt taken. ground arith;
    deeper = λ c x lt taken e.
        let (child, parent) : (c ≡ 4) × (x ≡ 5) = only_parent c x e in rw (child, parent) refl;
  };
  every = λ j lt. ground (arith, has-free j, elsewhere-free asl);
  running = λ c e.
      let same : 8 ≡ c = ground (arith, e) in
      (
        omega arith,
        subst (IsOff table_heads whole_lists 0) same
            (λ h at. current_off h (table_heads-heads h at)),
      );
}
  where
    s : Semaphores heads whole whole_lists
    s = whole-Semaphores

    only_child : (c x : ℕ) → has c (whole_lists (p_child x)) ≡ true → (c ≡ 4) × (x ≡ 5)
    only_child c x on = ground (arith, elsewhere-free (p_child x))

    only_parent : (c x : ℕ) → (whole.pcbs c).p_parent ≡ some x → (c ≡ 4) × (x ≡ 5)
    only_parent c x e = ground (arith, e)
