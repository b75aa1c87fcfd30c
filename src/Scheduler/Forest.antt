-- ===== src/Scheduler/Forest.antt =====
-- The process tree: the children of a process and their children, as `p_child` and `p_parent` give them.
use bi_kaya.Base.{
  ℕ, zero, suc, ◌<◌, ◌≤◌, ◌≡◌, refl, ◌∙◌, Bool, true, false, some, List, [], ◌∷◌, ◌++◌, arith, has,
  has-append, Distinct, Apart, Distinct-parts, erase, length, length-append, length-le_bound, inl,
  inr, Bool-cases, ◌==◌, ap, sym,
}
use bi_kaya.Types.{max_proc, p_child, pcb_free_head}
use bi_kaya.Machine.{Kernel}

-- A first child `p`, what hangs under it, and its siblings.
pub data Forest : Type 0 where
  empty : Forest
  grow : ℕ → Forest → Forest → Forest

abbrev pub roots : Forest → List ℕ
roots empty = []
roots (grow p cs fs) = p ∷ roots fs

-- In the order in which `kill_tree` ends the processes: children first.
abbrev pub postorder : Forest → List ℕ
postorder empty = []
postorder (grow p cs fs) = postorder cs ++ p ∷ postorder fs

-- At most `n` levels.
abbrev pub HasDepth : ℕ → Forest → Type 0
HasDepth n empty = Unit {0}
HasDepth zero (grow p cs fs) = ⊥
HasDepth (suc n) (grow p cs fs) = HasDepth n cs × HasDepth (suc n) fs

-- The forest stands in memory as the children of `p`, apart from the list at `p` itself, and its
-- processes are entries of the table that are not free.
abbrev pub Under : (live : ℕ → Bool) → Kernel → (ℕ → List ℕ) → ℕ → Forest → Type 0
Under live k qs p empty = Unit {0}
Under live k qs p (grow c cs fs) =
    ((k.pcbs c).p_parent ≡ some p)
    × (live (p_child c) ≡ true)
    × (qs (p_child c) ≡ roots cs)
    × (c < max_proc)
    × (has c (qs pcb_free_head) ≡ false)
    × Under live k qs c cs
    × Under live k qs p fs

-- Without any of `os`.
abbrev pub erase_all : List ℕ → List ℕ → List ℕ
erase_all [] xs = xs
erase_all (o ∷ os) xs = erase_all os (erase o xs)

pub erase_all-append :
    (os us xs : List ℕ) → erase_all (os ++ us) xs ≡ erase_all us (erase_all os xs)
erase_all-append [] us xs = refl
erase_all-append (o ∷ os) us xs = erase_all-append os us (erase o xs)

-- Other memory with the same tree.
pub Under-frame :
    (live : ℕ → Bool) (k k' : Kernel) (qs qs' : ℕ → List ℕ) (p : ℕ) (f : Forest)
    → Under live k qs p f
    → ((i : ℕ)
        → has i (postorder f) ≡ true
        → ((k'.pcbs i).p_parent ≡ (k.pcbs i).p_parent)
          × (qs' (p_child i) ≡ qs (p_child i))
          × (has i (qs' pcb_free_head) ≡ has i (qs pcb_free_head)))
    → Under live k' qs' p f
Under-frame live k k' qs qs' p empty u same = tt
Under-frame live k k' qs qs' p (grow c cs fs) (parent, at, kids, inside, taken, below, beside)
      same =
    let here = same c (ground (arith, has-append c (postorder cs) (c ∷ postorder fs))) in
    (
      here.0 ∙ parent,
      at,
      here.1 ∙ kids,
      inside,
      here.2 ∙ taken,
      Under-frame live k k' qs qs' c cs below
          (λ i on. same i (ground (arith, has-append i (postorder cs) (c ∷ postorder fs)))),
      Under-frame live k k' qs qs' p fs beside
          (λ i on. same i (ground (arith, has-append i (postorder cs) (c ∷ postorder fs)))),
    )

pub has-roots : (i : ℕ) (f : Forest) → has i (roots f) ≡ true → has i (postorder f) ≡ true
has-roots i empty on = on
has-roots i (grow c cs fs) on =
    ground (arith, has-append i (postorder cs) (c ∷ postorder fs), has-roots i fs)

pub Distinct-grow :
    (p c : ℕ) (cs fs : Forest)
    → Distinct (p ∷ postorder (grow c cs fs))
    → (has p (c ∷ postorder cs) ≡ false)
      × Distinct (c ∷ postorder cs)
      × Distinct (p ∷ postorder fs)
      × Apart (postorder fs) (postorder cs ++ c ∷ [])
Distinct-grow p c cs fs (out, d) =
    let ((front, back), apart) = Distinct-parts (postorder cs) (c ∷ postorder fs) d in
    (
      ground (arith, has-append p (postorder cs) (c ∷ postorder fs)),
      (ground (arith, apart c), front),
      (ground (arith, has-append p (postorder cs) (c ∷ postorder fs)), back.1),
      λ i on. ground (arith, has-append i (postorder cs) (c ∷ []), apart i, back.0),
    )

HasDepth-le : (n m : ℕ) (f : Forest) → HasDepth n f → n ≤ m → HasDepth m f
HasDepth-le n m empty h le = tt
HasDepth-le zero m (grow c cs fs) h le = absurd h
HasDepth-le (suc n) zero (grow c cs fs) h le = absurd (omega arith)
HasDepth-le (suc n) (suc m) (grow c cs fs) h le =
    (HasDepth-le n m cs h.0 (omega arith), HasDepth-le (suc n) (suc m) fs h.1 le)

-- There are no more levels than processes.
HasDepth-length : (n : ℕ) (f : Forest) → length (postorder f) ≤ n → HasDepth n f
HasDepth-length n empty le = tt
HasDepth-length zero (grow c cs fs) le =
    absurd (omega (arith, length-append (postorder cs) (c ∷ postorder fs)))
HasDepth-length (suc n) (grow c cs fs) le = (
  HasDepth-length n cs (omega (arith, length-append (postorder cs) (c ∷ postorder fs))),
  HasDepth-length (suc n) fs (omega (arith, length-append (postorder cs) (c ∷ postorder fs))),
)

Under-inside :
    (live : ℕ → Bool) (k : Kernel) (qs : ℕ → List ℕ) (p : ℕ) (f : Forest)
    → Under live k qs p f
    → (i : ℕ) → has i (postorder f) ≡ true
    → i < max_proc
Under-inside live k qs p empty u i on = cc
Under-inside live k qs p (grow c cs fs) (_, _, _, inside, _, below, beside) i on = ground (
  arith,
  has-append i (postorder cs) (c ∷ postorder fs),
  Under-inside live k qs c cs below i,
  Under-inside live k qs p fs beside i,
)

-- The table has `max_proc` entries, so that many levels are enough.
pub enough_levels :
    (live : ℕ → Bool) (k : Kernel) (qs : ℕ → List ℕ) (p : ℕ) (f : Forest)
    → Under live k qs p f
    → Distinct (postorder f)
    → HasDepth max_proc f
enough_levels live k qs p f u d =
    HasDepth-length max_proc f
      (length-le_bound max_proc (postorder f) d (Under-inside live k qs p f u))

-- Each process of the tree is the child of one in it or of `p`.
pub has-parent :
    (live : ℕ → Bool) (k : Kernel) (qs : ℕ → List ℕ) (p : ℕ) (f : Forest)
    → Under live k qs p f
    → live (p_child p) ≡ true
    → ((i : ℕ) → has i (roots f) ≡ true → has i (qs (p_child p)) ≡ true)
    → (i : ℕ) → has i (postorder f) ≡ true
    → (x : ℕ) × (has x (p ∷ postorder f) ≡ true)
      × (live (p_child x) ≡ true)
      × (has i (qs (p_child x)) ≡ true)
has-parent live k qs p empty u at kids i on = cc
has-parent live k qs p (grow c cs fs) (_, at_c, below_c, _, _, below, beside) at kids i on =
    elim (Bool-cases (has i (postorder cs))) [
      | inl deep ↦
          let (x, here, at_x, child) =
            has-parent live k qs c cs below at_c (λ j f. ap (has j) below_c ∙ f) i deep in
          (x, ground (arith, has-append x (postorder cs) (c ∷ postorder fs)), at_x, child)
      | inr other ↦ elim (Bool-cases (i == c)) [
        | inl first ↦ (p, ground arith, at, kids i (ground arith))
        | inr later ↦
            let (x, here, at_x, child) =
              has-parent live k qs p fs beside at (λ j f. kids j (ground arith)) i
                (ground (arith, has-append i (postorder cs) (c ∷ postorder fs))) in
            (x, ground (arith, has-append x (postorder cs) (c ∷ postorder fs)), at_x, child)
      ]
    ]

-- The children of a process of the tree are in it.
pub has-child :
    (live : ℕ → Bool) (k : Kernel) (qs : ℕ → List ℕ) (p : ℕ) (f : Forest)
    → Under live k qs p f
    → (x i : ℕ) → has x (postorder f) ≡ true
    → has i (qs (p_child x)) ≡ true
    → has i (postorder f) ≡ true
has-child live k qs p empty u x i on child = cc
has-child live k qs p (grow c cs fs) (_, _, below_c, _, _, below, beside) x i on child =
    elim (Bool-cases (has x (postorder cs))) [
      | inl deep ↦ ground (
        arith,
        has-append i (postorder cs) (c ∷ postorder fs),
        has-child live k qs c cs below x i deep child,
      )
      | inr other ↦ elim (Bool-cases (x == c)) [
        | inl here ↦
            let same : x ≡ c = ground arith in
            ground (
              arith,
              has-append i (postorder cs) (c ∷ postorder fs),
              has-roots i cs
                  (ap (has i) (sym below_c) ∙ ap (λ y. has i (qs (p_child y))) (sym same) ∙ child),
            )
        | inr later ↦ ground (
          arith,
          has-append i (postorder cs) (c ∷ postorder fs),
          has-child live k qs p fs beside x i
              (ground (arith, has-append x (postorder cs) (c ∷ postorder fs))) child,
        )
      ]
    ]
