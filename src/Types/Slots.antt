-- ===== src/Types/Slots.antt =====
-- Lists of structures and lists of the addresses of their members.
use bi_kaya.Base.{
  ℕ, suc, ◌+◌, ◌*◌, ◌<◌, find, ◌%◌, ◌≡◌, refl, ap, inl, inr, Bool, true, false, ◌||◌, ◌&&◌, List,
  [], ◌∷◌, map, arith, ◌==◌, Bool-cases, length, is_nil, head?, has, Distinct, erase,
}
use mathlib.Core.Option
use bi_kaya.Types.{member, slot, container_of}

pub has-map-slot :
    (g h i : ℕ) (xs : List ℕ)
    → has (slot g i) (map (slot h) xs) ≡ ((member g == member h) && has i xs)
has-map-slot g h i [] = ground arith
has-map-slot g h i (x ∷ xs) = ground (arith, has-map-slot g h i xs)

pub has-member :
    (h i m : ℕ) (xs : List ℕ)
    → m < 8
    → has (8 * i + m) (map (slot h) xs) ≡ ((m == member h) && has i xs)
has-member h i m [] e = ground arith
has-member h i m (x ∷ xs) e = ground (arith, has-member h i m xs)

pub Distinct-map-slot : (h : ℕ) (xs : List ℕ) → Distinct (map (slot h) xs) → Distinct xs
Distinct-map-slot h [] d = tt
Distinct-map-slot h (x ∷ xs) d = (ground (arith, has-map-slot h h x xs), Distinct-map-slot h xs d.1)

pub map-erase-slot :
    (h i : ℕ) (xs : List ℕ) → map (slot h) (erase i xs) ≡ erase (slot h i) (map (slot h) xs)
map-erase-slot h i [] = refl
map-erase-slot h i (x ∷ xs) = ground (arith, map-erase-slot h i xs)

pub is_nil-map : (h : ℕ) (xs : List ℕ) → is_nil (map (slot h) xs) ≡ is_nil xs
is_nil-map h [] = refl
is_nil-map h (x ∷ xs) = refl

pub head-map : (h : ℕ) (xs : List ℕ) → head? (map (slot h) xs) ≡ Option.map (slot h) (head? xs)
head-map h [] = refl
head-map h (x ∷ xs) = refl

pub head-off-entries :
    (n h : ℕ) (xs : List ℕ)
    → ((n % 8 == 1) || (n % 8 == 4) || (n % 8 == 5)) ≡ true
    → has n (map (slot h) xs) ≡ false
head-off-entries n h [] kind = refl
head-off-entries n h (x ∷ xs) kind = ground (arith, head-off-entries n h xs)

pub length-map : (h : ℕ) (xs : List ℕ) → length (map (slot h) xs) ≡ length xs
length-map h [] = refl
length-map h (x ∷ xs) = ap suc (length-map h xs)

pub find-map :
    (h : ℕ) (test : ℕ → Bool) (xs : List ℕ)
    → find (λ node. test (container_of node)) (map (slot h) xs) ≡ Option.map (slot h) (find test xs)
find-map h test [] = refl
find-map h test (x ∷ xs) =
    let same : container_of (slot h x) ≡ x = ground arith in
    elim (Bool-cases (test x)) [
      | inl hit ↦ rw (same, hit)
      | inr miss ↦ rw (same, miss) (find-map h test xs)
    ]
