-- ===== src/Kernel/Adopt.antt =====
-- The process tree after `pcb_insert_child` of src/pcb.c, for a process that was free.
use bi_kaya.Base.{
  ℕ, suc, ◌<◌, ◌≡◌, ◌≢◌, refl, ap, sym, ◌∙◌, inl, inr, Bool, true, false, ◌||◌, some, List, [], ◌∷◌,
  ◌++◌, arith, ◌==◌, ◌&&◌, ◌⊎◌, ◌/◌, if◌then◌else◌, Bool-cases, has, has-append, ==_refl,
}
use bi_kaya.Types.{max_proc, member, p_child, pcb_free_head}
use bi_kaya.Machine.{Kernel}
use bi_kaya.Kernel.Alloc.{alloc_live}
use bi_kaya.Kernel.Family.{Family}

-- `p` is no longer free, and is the last child of `c`.
module _ {live : ℕ → Bool} (k : Kernel) {qs : ℕ → List ℕ} (f : Family live k qs) (p c : ℕ)
    (ps : List ℕ) (k' : Kernel) (qs' : ℕ → List ℕ) (whole : qs pcb_free_head ≡ p ∷ ps)
    (first_only : has p ps ≡ false) (free : qs' pcb_free_head ≡ ps)
    (none_yet : qs' (p_child p) ≡ []) (last : qs' (p_child c) ≡ qs (p_child c) ++ p ∷ [])
    (same : (h : ℕ) → member h ≡ 2 → h ≢ p_child p → h ≢ p_child c → qs' h ≡ qs h)
    (small : c < max_proc) (busy : has c (qs pcb_free_head) ≡ false)
    (parent : (k'.pcbs p).p_parent ≡ some c)
    (others : (i : ℕ) → i ≢ p → (k'.pcbs i).p_parent ≡ (k.pcbs i).p_parent) where
  was_free : (i : ℕ) → has i (qs pcb_free_head) ≡ ((i == p) || has i (qs' pcb_free_head))
  was_free i = ap (has i) whole ∙ ap (λ xs. (i == p) || has i xs) (sym free)

  p_free : has p (qs pcb_free_head) ≡ true
  p_free = rw whole (ground arith)

  -- Nobody's child as long as it was free.
  p_alone : (x : ℕ) → live (p_child x) ≡ true → has p (qs (p_child x)) ≡ false
  p_alone x at = f.orphans p p_free (p_child x) at (ground arith)

  kids :
      (i x : ℕ)
      → has i (qs' (p_child x))
        ≡ (if x == p then false else (has i (qs (p_child x)) || ((x == c) && (i == p))))
  kids i x = elim (Bool-cases (x == p)) [
    | inl new ↦ let new' : x ≡ p = ground arith in rw (new, new', none_yet) refl
    | inr old ↦ elim (Bool-cases (x == c)) [
      | inl its ↦
          let its' : x ≡ c = ground arith in
          rw (old, its', last, ==_refl c) (has-append i (qs (p_child c)) (p ∷ []) ∙ ground arith)
      | inr another ↦
          rw (old, another)
            (ap (has i) (same (p_child x) (ground arith) (ground arith) (ground arith))
              ∙ ground arith)
    ]
  ]

  was_live : (x : ℕ) → alloc_live live p (p_child x) ≡ true → x ≢ p → live (p_child x) ≡ true
  was_live x at ne = ground arith

  -- A child now is the new one or was a child.
  kid_cases :
      (i x : ℕ)
      → alloc_live live p (p_child x) ≡ true
      → has i (qs' (p_child x)) ≡ true
      → ((x ≡ c) × (i ≡ p))
        ⊎ ((x ≢ p) × (live (p_child x) ≡ true) × (has i (qs (p_child x)) ≡ true))
  kid_cases i x at on = elim (Bool-cases (x == p)) [
    | inl new ↦ ground (arith, kids i x, on, new)
    | inr old ↦
        let at' : live (p_child x) ≡ true = was_live x at (ground arith) in
        elim (Bool-cases (has i (qs (p_child x)))) [
          | inl before ↦ inr (ground arith, at', before)
          | inr after ↦ inl (ground (arith, kids i x), ground (arith, kids i x))
        ]
  ]

  -- And so with the pointers.
  parent_cases :
      (i x : ℕ)
      → has i (qs' pcb_free_head) ≡ false
      → (k'.pcbs i).p_parent ≡ some x
      → ((i ≡ p) × (x ≡ c))
        ⊎ ((i ≢ p) × (has i (qs pcb_free_head) ≡ false) × ((k.pcbs i).p_parent ≡ some x))
  parent_cases i x busy_i e = elim (Bool-cases (i == p)) [
    | inl new ↦
        let new' : i ≡ p = ground arith in
        inl (new', ground (arith, ap (λ j. (k'.pcbs j).p_parent) new' ∙ parent, e))
    | inr old ↦
        let ne : i ≢ p = ground arith in inr (ne, ground (arith, was_free i), sym (others i ne) ∙ e)
  ]

  busy_now : (i : ℕ) → has i (qs pcb_free_head) ≡ false → has i (qs' pcb_free_head) ≡ false
  busy_now i taken = ground (arith, was_free i)

  not_p : (i : ℕ) → has i (qs pcb_free_head) ≡ false → i ≢ p
  not_p i taken same = ground (arith, same, p_free)

  level' : ℕ → ℕ
  level' i = if i == p then suc (f.level c) else f.level i

  level_old : (i : ℕ) → i ≢ p → level' i ≡ f.level i
  unfolding level'
  level_old i ne = let ne' : (i == p) ≡ false = ground arith in rw ne' refl

  level_new : level' p ≡ suc (f.level c)
  unfolding level'
  level_new = rw (==_refl p) refl

  none_before :
      (i : ℕ) → has i (qs' pcb_free_head) ≡ true → (has i (qs pcb_free_head) ≡ true) × (i ≢ p)
  none_before i on =
      (ground (arith, was_free i), λ same. ground (arith, same, first_only, ap (has i) free))

  orphaned :
      (i x : ℕ)
      → has i (qs' pcb_free_head) ≡ true
      → alloc_live live p (p_child x) ≡ true
      → has i (qs' (p_child x)) ≡ false
  orphaned i x on at =
      let (before, ne) = none_before i on in
      elim (Bool-cases (has i (qs' (p_child x)))) [
        | inl there ↦ elim (kid_cases i x at there) [
          | inl (_, same) ↦ absurd (ne same)
          | inr (_, at', child) ↦ ground (arith, f.orphans i before (p_child x) at' (ground arith))
        ]
        | inr away ↦ away
      ]

  pub adopted : Family (alloc_live live p) k' qs'
  adopted = record {
    homes = λ i lt taken. ground (arith, f.homes i lt, was_free i);
    orphans = λ i on h at via.
        let place : h ≡ p_child (h / 8) = ground arith in
        ap (λ y. has i (qs' y)) place
        ∙ orphaned i (h / 8) on (ap (alloc_live live p) (sym place) ∙ at);
    parents = λ i x at on. elim (kid_cases i x at on) [
      | inl (its, new) ↦ ap (λ j. (k'.pcbs j).p_parent) new ∙ parent ∙ ap some (sym its)
      | inr (_, at', child) ↦
          others i (λ same. ground (arith, p_alone x at', same)) ∙ f.parents i x at' child
    ];
    children = λ i x lt taken e. elim (parent_cases i x taken e) [
      | inl (new, its) ↦ (
        rw its small,
        rw its (busy_now c busy),
        kids i x ∙ ground (arith, not_p c busy, ==_refl c),
      )
      | inr (_, taken', e') ↦
          let (small', busy', child) = f.children i x lt taken' e' in
          (small', busy_now x busy', kids i x ∙ ground (arith, not_p x busy'))
    ];
    levels = suc f.levels;
    level = level';
    bounded = λ i lt taken. elim (Bool-cases (i == p)) [
      | inl new ↦
          let new' : i ≡ p = ground arith in
          omega (arith, ap level' new', level_new, f.bounded c small busy)
      | inr old ↦
          let ne : i ≢ p = ground arith in
          omega (arith, level_old i ne, f.bounded i lt (ground (arith, was_free i)))
    ];
    deeper = λ i x lt taken e. elim (parent_cases i x taken e) [
      | inl (new, its) ↦
          ap level' new
          ∙ level_new
          ∙ ap suc (sym (level_old c (not_p c busy)) ∙ ap level' (sym its))
      | inr (ne, taken', e') ↦
          let (_, busy', _) = f.children i x lt taken' e' in
          level_old i ne ∙ f.deeper i x lt taken' e' ∙ ap suc (sym (level_old x (not_p x busy')))
    ];
  }
