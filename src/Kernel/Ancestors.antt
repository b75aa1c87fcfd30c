-- ===== src/Kernel/Ancestors.antt =====
-- The tree under a process, from the lists of children, and who stands above whom.
use bi_kaya.Base.{
  ℕ, zero, suc, ◌+◌, ◌<◌, ◌≤◌, ◌≡◌, ◌≢◌, refl, ap, sym, ◌∙◌, inl, inr, Bool, true, false, Option,
  none, some, List, [], ◌∷◌, arith, ◌==◌, Bool-cases, Option-cases, has, has-append, fun_ext,
}
use bi_kaya.Types.{max_proc, p_child, pcb_free_head}
use bi_kaya.Machine.{Kernel}
use bi_kaya.Scheduler.Forest.{Forest, empty, grow, roots, postorder, Under}
use bi_kaya.Kernel.Sound.{Sound}

abbrev pub parent_step : (ℕ → Option ℕ) → Option ℕ → Option ℕ
parent_step above none = none
parent_step above (some x) = above x

-- `n` times `p_parent`.
abbrev pub ancestor : Kernel → ℕ → ℕ → Option ℕ
ancestor k zero c = some c
ancestor k (suc n) c = parent_step (ancestor k n) (k.pcbs c).p_parent

-- By the parents alone.
pub ancestor-same :
    (k k' : Kernel)
    → ((i : ℕ) → (k'.pcbs i).p_parent ≡ (k.pcbs i).p_parent)
    → (n c : ℕ) → ancestor k' n c ≡ ancestor k n c
ancestor-same k k' same zero c = refl
ancestor-same k k' same (suc n) c =
    ap (parent_step (ancestor k' n)) (same c)
    ∙ ap (λ f. parent_step f (k.pcbs c).p_parent) (fun_ext (ancestor-same k k' same n))

-- `c` is `p` or stands below it.
abbrev pub Descends : Kernel → ℕ → ℕ → Type 0
Descends k p c = (n : ℕ) × (ancestor k n c ≡ some p)

-- The current process, if there is one, does not stand below `p`.
abbrev pub Spares : Kernel → ℕ → Type 0
Spares k p = (c n : ℕ) → k.current_proc ≡ some c → ancestor k (suc n) c ≢ some p

pub ancestor-last :
    (k : Kernel) (n c y x : ℕ)
    → ancestor k n c ≡ some y
    → (k.pcbs y).p_parent ≡ some x
    → ancestor k (suc n) c ≡ some x
ancestor-last k zero c y x e f = let same : c ≡ y = ground (arith, e) in rw (same, f) refl
ancestor-last k (suc n) c y x e f = elim (Option-cases (k.pcbs c).p_parent) [
  | inl no_parent ↦ ground (arith, e, no_parent)
  | inr (z, g) ↦ rw g (ancestor-last k n z y x (ap (parent_step (ancestor k n)) (sym g) ∙ e) f)
]

-- The trees of the processes of a list, on fuel for their depth.
abbrev pub trees : (ℕ → List ℕ) → ℕ → List ℕ → Forest
trees qs zero xs = empty
trees qs (suc n) [] = empty
trees qs (suc n) (x ∷ xs) = grow x (trees qs n (qs (p_child x))) (trees qs (suc n) xs)

module _ {live : ℕ → Bool} (k : Kernel) {qs : ℕ → List ℕ} (s : Sound live k qs) where
  -- They are children of `p` at level `l`.
  abbrev pub AreKids : ℕ → ℕ → List ℕ → Type 0
  AreKids p l xs =
      (i : ℕ)
      → has i xs ≡ true
      → ((k.pcbs i).p_parent ≡ some p)
        × (i < max_proc)
        × (has i (qs pcb_free_head) ≡ false)
        × (s.family.level i ≡ l)

  pub kids_of :
      (x : ℕ)
      → x < max_proc
      → has x (qs pcb_free_head) ≡ false
      → AreKids x (suc (s.family.level x)) (qs (p_child x))
  kids_of x lt taken i on =
      let at = s.family.homes x lt taken in
      let parent = s.family.parents i x at on in
      let inside = s.queues.semaphores.inside (p_child x) i at on in
      let busy : has i (qs pcb_free_head) ≡ false = elim (Bool-cases (has i (qs pcb_free_head))) [
        | inl free ↦ ground (arith, s.family.orphans i free (p_child x) at (ground arith))
        | inr busy ↦ busy
      ] in
      (parent, inside, busy, s.family.deeper i x inside busy parent)

  -- With fuel for all levels below `l` they are all there.
  pub roots-trees :
      (n p l : ℕ) (xs : List ℕ)
      → AreKids p l xs
      → s.family.levels ≤ n + l
      → xs ≡ roots (trees qs n xs)
  roots-trees zero p l [] kids enough = refl
  roots-trees zero p l (x ∷ xs) kids enough =
      let (_, lt, busy, at) = kids x (ground arith) in
      absurd (omega (arith, at, s.family.bounded x lt busy, enough))
  roots-trees (suc n) p l [] kids enough = refl
  roots-trees (suc n) p l (x ∷ xs) kids enough =
      ap (◌∷◌ x) (roots-trees (suc n) p l xs (λ i on. kids i (ground arith)) enough)

  pub trees-Under :
      (n p l : ℕ) (xs : List ℕ)
      → AreKids p l xs
      → s.family.levels ≤ n + l
      → Under live k qs p (trees qs n xs)
  trees-Under zero p l xs kids enough = tt
  trees-Under (suc n) p l [] kids enough = tt
  trees-Under (suc n) p l (x ∷ xs) kids enough =
      let (parent, lt, busy, at) = kids x (ground arith) in
      let below = kids_of x lt busy in
      (
        parent,
        s.family.homes x lt busy,
        roots-trees n x (suc (s.family.level x)) (qs (p_child x)) below (omega (arith, at, enough)),
        lt,
        busy,
        trees-Under n x (suc (s.family.level x)) (qs (p_child x)) below (omega (arith, at, enough)),
        trees-Under (suc n) p l xs (λ i on. kids i (ground arith)) enough,
      )

  -- Each of the trees hangs together by `p_parent`.
  pub above_trees :
      (n p l : ℕ) (xs : List ℕ)
      → AreKids p l xs
      → (i : ℕ) → has i (postorder (trees qs n xs)) ≡ true
      → (x m : ℕ) × (has x xs ≡ true) × (s.family.level i ≡ m + l) × (ancestor k m i ≡ some x)
  above_trees zero p l xs kids i on = cc
  above_trees (suc n) p l [] kids i on = cc
  above_trees (suc n) p l (x ∷ xs) kids i on =
      let (parent, lt, busy, at) = kids x (ground arith) in
      let sub = postorder (trees qs n (qs (p_child x))) in
      let rest = postorder (trees qs (suc n) xs) in
      elim (Bool-cases (has i sub)) [
        | inl deep ↦
            let below = kids_of x lt busy in
            let (y, m, child, depth, up) =
              above_trees n x (suc (s.family.level x)) (qs (p_child x)) below i deep in
            (
              x,
              suc m,
              ground arith,
              omega (arith, depth, at),
              ancestor-last k m i y x up (below y child).0,
            )
        | inr other ↦ elim (Bool-cases (i == x)) [
          | inl here ↦
              let same : i ≡ x = ground arith in
              (x, 0, ground arith, rw same (omega (arith, at)), ap some same)
          | inr later ↦
              let (y, m, child, depth, up) =
                above_trees (suc n) p l xs (λ j f. kids j (ground arith)) i
                  (ground (arith, has-append i sub (x ∷ rest))) in
              (y, m, ground arith, depth, up)
        ]
      ]
