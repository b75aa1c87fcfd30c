-- ===== src/Base/Members.antt =====
-- Membership and distinctness for lists of numbers, as Boolean tests that the tactics read.
use Prim.Native.Nat.{ℕ, zero, suc, ◌≤◌, ◌<◌}
use mathlib.Core.Path.{◌≡◌, refl, ap}
use mathlib.Core.Logic.{inl, inr}
use mathlib.Core.Bool.{Bool, true, false, ◌||◌}
use mathlib.Core.List.{reverse_aux, List, [], ◌∷◌, ◌++◌}
use native.Mathlib.Omega.{arith}
use mathlib.Core.Option.{none, some}
use bi_kaya.Base.Lists.{length, find}
use bi_kaya.Base.Tests.{◌==◌, if◌then◌else◌, Bool-cases}

abbrev pub has : ℕ → List ℕ → Bool
has a [] = false
has a (x ∷ xs) = (a == x) || has a xs

abbrev pub Distinct : List ℕ → Type 0
Distinct [] = Unit {0}
Distinct (x ∷ xs) = (has x xs ≡ false) × Distinct xs

-- Without the first occurrence of `a`.
abbrev pub erase : ℕ → List ℕ → List ℕ
erase a [] = []
erase a (x ∷ xs) = if a == x then xs else x ∷ erase a xs

pub has-append : (a : ℕ) (xs ys : List ℕ) → has a (xs ++ ys) ≡ (has a xs || has a ys)
has-append a [] ys = refl
has-append a (x ∷ xs) ys = ground (arith, has-append a xs ys)

pub Distinct-append :
    (xs ys : List ℕ) (n : ℕ)
    → Distinct (xs ++ n ∷ ys)
    → Distinct (xs ++ ys) × (has n (xs ++ ys) ≡ false)
Distinct-append [] ys n d = (d.1, d.0)
Distinct-append (x ∷ xs) ys n d =
    let (rest, out) = Distinct-append xs ys n d.1 in
    (
      (ground (arith, has-append x xs (n ∷ ys), has-append x xs ys), rest),
      ground (arith, has-append x xs (n ∷ ys)),
    )

abbrev pub Apart : List ℕ → List ℕ → Type 0
Apart xs ys = (a : ℕ) → has a xs ≡ true → has a ys ≡ false

pub Distinct-parts :
    (xs ys : List ℕ) → Distinct (xs ++ ys) → (Distinct xs × Distinct ys) × Apart xs ys
Distinct-parts [] ys d = ((tt, d), λ a h. cc)
Distinct-parts (x ∷ xs) ys d =
    let ((front, back), apart) = Distinct-parts xs ys d.1 in
    (
      ((ground (arith, has-append x xs ys), front), back),
      λ a h. ground (arith, has-append x xs ys, apart a),
    )

pub has-erase :
    (a n : ℕ) (xs : List ℕ)
    → Distinct xs
    → has a (erase n xs) ≡ (if a == n then false else has a xs)
has-erase a n [] d = ground arith
has-erase a n (x ∷ xs) d = ground (arith, has-erase a n xs d.1)

pub Distinct-erase : (n : ℕ) (xs : List ℕ) → Distinct xs → Distinct (erase n xs)
Distinct-erase n [] d = tt
Distinct-erase n (x ∷ xs) d = ground (arith, has-erase x n xs d.1, Distinct-erase n xs d.1)

-- Insertion anywhere of a number that is not there.
pub has-middle : (a n : ℕ) (xs ys : List ℕ) → has a (xs ++ n ∷ ys) ≡ ((a == n) || has a (xs ++ ys))
has-middle a n [] ys = refl
has-middle a n (x ∷ xs) ys = ground (arith, has-middle a n xs ys)

pub Distinct-middle :
    (xs ys : List ℕ) (n : ℕ)
    → has n (xs ++ ys) ≡ false
    → Distinct (xs ++ ys)
    → Distinct (xs ++ n ∷ ys)
Distinct-middle [] ys n out d = (out, d)
Distinct-middle (x ∷ xs) ys n out d =
    (ground (arith, has-middle x n xs ys), Distinct-middle xs ys n (ground arith) d.1)

-- A list that holds `a` splits at its first occurrence.
pub split_at :
    (a : ℕ) (xs : List ℕ)
    → has a xs ≡ true
    → (us : List ℕ) × (vs : List ℕ) × (xs ≡ us ++ a ∷ vs) × (erase a xs ≡ us ++ vs)
split_at a [] h = cc
split_at a (x ∷ xs) h = elim (Bool-cases (a == x)) [
  | inl here ↦ let e : a ≡ x = ground arith in ([], xs, rw e, rw here)
  | inr there ↦
      let (us, vs, e, f) = split_at a xs (ground arith) in
      (x ∷ us, vs, ap (◌∷◌ x) e, rw there (ap (◌∷◌ x) f))
]

pub erase_off : (a : ℕ) (xs : List ℕ) → has a xs ≡ false → erase a xs ≡ xs
erase_off a [] h = refl
erase_off a (x ∷ xs) h = ground (arith, erase_off a xs)

-- Every element has the property.
abbrev pub All : (ℕ → Type 0) → List ℕ → Type 0
All P [] = Unit {0}
All P (x ∷ xs) = P x × All P xs

pub All-has : (P : ℕ → Type 0) (a : ℕ) (xs : List ℕ) → All P xs → has a xs ≡ true → P a
All-has P a [] h i = cc
All-has P a (x ∷ xs) h i = elim (Bool-cases (a == x)) [
  | inl here ↦ let e : a ≡ x = ground arith in rw e h.0
  | inr there ↦ All-has P a xs h.1 (ground arith)
]

pub All-of_has : (P : ℕ → Type 0) (xs : List ℕ) → ((a : ℕ) → has a xs ≡ true → P a) → All P xs
All-of_has P [] h = tt
All-of_has P (x ∷ xs) h = (h x (ground arith), All-of_has P xs λ a i. h a (ground arith))

pub find-some :
    (test : ℕ → Bool) (xs : List ℕ) (i : ℕ)
    → find test xs ≡ some i
    → (has i xs ≡ true) × (test i ≡ true)
find-some test [] i e = cc
find-some test (x ∷ xs) i e = elim (Bool-cases (test x)) [
  | inl hit ↦ let same : x ≡ i = ground arith in (ground arith, rw same at hit)
  | inr miss ↦ let (there, passes) = find-some test xs i (rw miss at e) in (ground arith, passes)
]

pub find-none :
    (test : ℕ → Bool) (xs : List ℕ) (i : ℕ) → find test xs ≡ none → has i xs ≡ true → test i ≡ false
find-none test [] i e on = cc
find-none test (x ∷ xs) i e on = ground (arith, find-none test xs i)

pub find_same :
    (test test' : ℕ → Bool) (xs : List ℕ)
    → ((i : ℕ) → has i xs ≡ true → test i ≡ test' i)
    → find test xs ≡ find test' xs
find_same test test' [] h = refl
find_same test test' (x ∷ xs) h =
    rw (h x (ground arith), find_same test test' xs (λ i on. h i (ground arith)))

length-le-erase : (a : ℕ) (xs : List ℕ) → length xs ≤ suc (length (erase a xs))
length-le-erase a [] = omega arith
length-le-erase a (x ∷ xs) = ground (arith, length-le-erase a xs)

-- A list without repetition of numbers below `n` has at most `n` of them.
pub length-le_bound :
    (n : ℕ) (xs : List ℕ) → Distinct xs → ((i : ℕ) → has i xs ≡ true → i < n) → length xs ≤ n
length-le_bound zero [] d below = omega arith
length-le_bound zero (x ∷ xs) d below = absurd (omega (arith, below x (ground arith)))
length-le_bound (suc n) xs d below = omega (
  arith,
  length-le-erase n xs,
  length-le_bound n (erase n xs) (Distinct-erase n xs d)
      (λ i on. ground (arith, has-erase i n xs d, below i)),
)

pub find-erase :
    (test : ℕ → Bool) (a : ℕ) (xs : List ℕ) → test a ≡ false → find test (erase a xs) ≡ find test xs
find-erase test a [] miss = refl
find-erase test a (x ∷ xs) miss = elim (Bool-cases (a == x)) [
  | inl here ↦ let same : a ≡ x = ground arith in rw (here, rw same at miss)
  | inr there ↦ rw there (ap (λ o. if test x then some x else o) (find-erase test a xs miss))
]

pub Distinct-join : (xs ys : List ℕ) → Distinct xs → Distinct ys → Apart xs ys → Distinct (xs ++ ys)
Distinct-join [] ys d e apart = e
Distinct-join (x ∷ xs) ys d e apart = (
  ground (arith, has-append x xs ys, apart x),
  Distinct-join xs ys d.1 e λ a h. apart a (ground arith),
)

pub reverse_aux-append {ℓ} :
    {A : Type ℓ} (os us xs : List A)
    → reverse_aux (os ++ us) xs ≡ reverse_aux us (reverse_aux os xs)
reverse_aux-append [] us xs = refl
reverse_aux-append (o ∷ os) us xs = reverse_aux-append os us (o ∷ xs)

pub has-reverse_aux : (i : ℕ) (os xs : List ℕ) → has i (reverse_aux os xs) ≡ (has i os || has i xs)
has-reverse_aux i [] xs = refl
has-reverse_aux i (o ∷ os) xs = ground (arith, has-reverse_aux i os (o ∷ xs))
