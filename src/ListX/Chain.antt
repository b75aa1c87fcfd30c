-- ===== src/ListX/Chain.antt =====
-- Chains of `struct list_head`: what the two pointers of each node say, and how insertion and
-- removal change it.
use bi_kaya.Base.{
  ℕ, ◌≡◌, inl, inr, ◌==◌, Bool-cases, true, false, List, [], ◌∷◌, ◌++◌, arith, has, Distinct,
  has-append,
}
use bi_kaya.ListX.{Links, list_add_between, list_del_between}

-- From `a` the pointers lead both ways through `xs` to `b`.
abbrev pub Chain : Links → ℕ → List ℕ → ℕ → Type 0
Chain l a [] b = (l.next a ≡ b) × (l.prev b ≡ a)
Chain l a (x ∷ xs) b = (l.next a ≡ x) × (l.prev x ≡ a) × Chain l x xs b

abbrev pub last : ℕ → List ℕ → ℕ
last a [] = a
last a (x ∷ xs) = last x xs

abbrev pub first : List ℕ → ℕ → ℕ
first [] b = b
first (x ∷ xs) b = x

pub has-last : (a : ℕ) (xs : List ℕ) → has (last a xs) (a ∷ xs) ≡ true
has-last a [] = ground arith
has-last a (x ∷ xs) = ground (arith, has-last x xs)

pub has-first : (b : ℕ) (ys : List ℕ) → has (first ys b) (b ∷ ys) ≡ true
has-first b [] = ground arith
has-first b (y ∷ ys) = ground arith

module _ (l : Links) where
  pub next-first : (a b : ℕ) (xs : List ℕ) → Chain l a xs b → l.next a ≡ first xs b
  next-first a b [] c = c.0
  next-first a b (x ∷ xs) c = c.0

  pub prev-last : (a b : ℕ) (xs : List ℕ) → Chain l a xs b → l.prev b ≡ last a xs
  prev-last a b [] c = c.1
  prev-last a b (x ∷ xs) c = prev-last x b xs c.2

  pub Chain-split :
      (a b n : ℕ) (xs ys : List ℕ) → Chain l a (xs ++ n ∷ ys) b → Chain l a xs n × Chain l n ys b
  Chain-split a b n [] ys c = ((c.0, c.1), c.2)
  Chain-split a b n (x ∷ xs) ys c =
      let (front, back) = Chain-split x b n xs ys c.2 in ((c.0, c.1, front), back)

  pub Chain-join :
      (a b n : ℕ) (xs ys : List ℕ) → Chain l a xs n → Chain l n ys b → Chain l a (xs ++ n ∷ ys) b
  Chain-join a b n [] ys c d = (c.0, c.1, d)
  Chain-join a b n (x ∷ xs) ys c d = (c.0, c.1, Chain-join x b n xs ys c.2 d)

  -- What stands before a node of the chain is in it, or is `a`.
  pub has-prev :
      (a b n : ℕ) (xs : List ℕ) → Chain l a xs b → has n xs ≡ true → has (l.prev n) (a ∷ xs) ≡ true
  has-prev a b n [] c on = cc
  has-prev a b n (x ∷ xs) c on = elim (Bool-cases (n == x)) [
    | inl here ↦
        let same : n ≡ x = ground arith in
        let before : l.prev n ≡ a = ground (arith, c.1) in rw before (ground arith)
    | inr there ↦ ground (arith, has-prev x b n xs c.2)
  ]

  -- A chain survives writes elsewhere.
  pub Chain-frame :
      (m : Links) (a b : ℕ) (xs : List ℕ)
      → ((n : ℕ) → has n (a ∷ xs) ≡ true → m.next n ≡ l.next n)
      → ((n : ℕ) → has n (b ∷ xs) ≡ true → m.prev n ≡ l.prev n)
      → Chain l a xs b
      → Chain m a xs b
  Chain-frame m a b [] nexts prevs c = ground (arith, nexts a, prevs b)
  Chain-frame m a b (x ∷ xs) nexts prevs c = (
    ground (arith, nexts a),
    ground (arith, prevs x),
    Chain-frame m x b xs (λ n h. nexts n (ground arith)) (λ n h. prevs n (ground arith)) c.2,
  )

  -- `__list_add` between `a` and what follows it.
  pub Chain-add_front :
      (new a b : ℕ) (xs : List ℕ)
      → Chain l a xs b
      → has new (a ∷ b ∷ xs) ≡ false
      → Distinct (a ∷ xs)
      → has b xs ≡ false
      → Chain (list_add_between l new a (first xs b)) a (new ∷ xs) b
  unfolding list_add_between
  Chain-add_front new a b [] c out d e = ground arith
  Chain-add_front new a b (x ∷ xs) c out d e = (
    ground arith,
    ground arith,
    (
      ground arith,
      ground arith,
      Chain-frame _ x b xs (λ n h. ground arith) (λ n h. ground arith) c.2,
    ),
  )

  -- `__list_add` between the last node and `b`.
  pub Chain-add_back :
      (new a b : ℕ) (xs : List ℕ)
      → Chain l a xs b
      → has new (a ∷ b ∷ xs) ≡ false
      → Distinct (a ∷ xs)
      → has b xs ≡ false
      → Chain (list_add_between l new (last a xs) b) a (xs ++ new ∷ []) b
  unfolding list_add_between
  Chain-add_back new a b [] c out d e = ground arith
  Chain-add_back new a b (x ∷ xs) c out d e = (
    ground (arith, has-last x xs),
    ground arith,
    Chain-add_back new x b xs c.2 (ground arith) d.1 (ground arith),
  )

  -- `__list_add` between two nodes of the chain.
  pub Chain-add_middle :
      (new a b it : ℕ) (xs ys : List ℕ)
      → Chain l a xs it
      → Chain l it ys b
      → has new (a ∷ b ∷ (xs ++ it ∷ ys)) ≡ false
      → Distinct (a ∷ (xs ++ it ∷ ys))
      → has b (xs ++ it ∷ ys) ≡ false
      → Chain (list_add_between l new (last a xs) it) a (xs ++ new ∷ it ∷ ys) b
  unfolding list_add_between
  Chain-add_middle new a b it [] ys c d out e f =
      Chain-add_front new a b (it ∷ ys) (c.0, c.1, d) out e f
  Chain-add_middle new a b it (x ∷ xs) ys c d out e f = (
    ground (arith, has-last x xs, has-append a xs (it ∷ ys)),
    ground (arith, has-append x xs (it ∷ ys)),
    Chain-add_middle new x b it xs ys c.2 d (ground arith) e.1 (ground arith),
  )

  -- `__list_del` of a node between `xs` and `ys`.
  pub Chain-del :
      (a b n : ℕ) (xs ys : List ℕ)
      → Chain l a xs n
      → Chain l n ys b
      → Distinct (a ∷ (xs ++ ys))
      → has b (xs ++ ys) ≡ false
      → Chain (list_del_between l (last a xs) (first ys b)) a (xs ++ ys) b
  unfolding list_del_between
  Chain-del a b n [] [] c e d out = ground arith
  Chain-del a b n [] (y ∷ ys) c e d out = (
    ground arith,
    ground arith,
    Chain-frame _ y b ys (λ m h. ground arith) (λ m h. ground arith) e.2,
  )
  Chain-del a b n (x ∷ xs) ys c e d out = (
    ground (arith, has-last x xs, has-append a xs ys),
    ground (arith, has-first b ys, has-append x xs ys),
    Chain-del x b n xs ys c.2 e d.1 (ground arith),
  )
