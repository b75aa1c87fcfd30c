-- ===== src/ListX/Insert.antt =====
-- The insertions of include/listx.h on the lists at the heads.
use mathlib.Core.List.{append-nil}
use bi_kaya.Base.{
  ℕ, ◌≡◌, ap, Bool, true, false, List, [], ◌∷◌, ◌++◌, arith, has, Distinct-middle, has-middle,
  has-append,
}
use bi_kaya.ListX.{Links, put, list_add, list_add_between, list_add_tail}
use bi_kaya.ListX.Chain.{
  first, last, has-first, has-last, next-first, prev-last, Chain-split, Chain-add_front,
  Chain-add_back, Chain-add_middle,
}
use bi_kaya.ListX.Rings.{Rings, IsLoose, AgreesOff, Rings-update, off_head}

-- The insertion writes at the nodes that it is given.
add-AgreesOff :
    (l : Links) (new p q : ℕ) (xs : List ℕ)
    → has new xs ≡ true
    → has p xs ≡ true
    → has q xs ≡ true
    → AgreesOff xs l (list_add_between l new p q)
unfolding list_add_between
add-AgreesOff l new p q xs hn hp hq = record {
  nexts = λ k out. ground arith;
  prevs = λ k out. ground arith;
}

module _ {is_head : ℕ → Bool} {l : Links} {ls : ℕ → List ℕ} (r : Rings is_head l ls) where
  -- The one new entry is on no list.
  lone : (n k : ℕ) → IsLoose is_head ls n → has k (n ∷ []) ≡ true → IsLoose is_head ls k
  lone n k out i = let same : n ≡ k = ground arith in rw same at out

  -- `list_add` of an entry that is on no list, given a list head, puts the entry in front; the other
  -- lists stay as they are.
  pub list_add-Rings :
      (h n : ℕ)
      → is_head h ≡ true
      → IsLoose is_head ls n
      → Rings is_head (list_add l n h) (put ls h (n ∷ ls h))
  unfolding list_add
  list_add-Rings h n at out = rw (next-first l h h (ls h) (r.ring h at)) (
      Rings-update r _ h (n ∷ []) (n ∷ ls h) at
        (add-AgreesOff l n h (first (ls h) h) (h ∷ n ∷ ls h) (ground arith) (ground arith)
          (ground (arith, has-first h (ls h))))
        (Chain-add_front l n h h (ls h) (r.ring h at) (ground (arith, out.loose h at, out.entry))
          (off_head r h at, r.distinct h at) (off_head r h at))
        (out.loose h at, r.distinct h at) (λ k. lone n k out) (λ k i. ground arith))

  -- `list_add_tail` of an entry that is on no list, given a list head, puts the entry last; the other
  -- lists stay as they are.
  pub list_add_tail-Rings :
      (h n : ℕ)
      → is_head h ≡ true
      → IsLoose is_head ls n
      → Rings is_head (list_add_tail l n h) (put ls h (ls h ++ n ∷ []))
  unfolding list_add_tail
  list_add_tail-Rings h n at out = rw (prev-last l h h (ls h) (r.ring h at)) (
      Rings-update r _ h (n ∷ []) (ls h ++ n ∷ []) at
        (add-AgreesOff l n (last h (ls h)) h (h ∷ n ∷ ls h) (ground arith)
          (ground (arith, has-last h (ls h))) (ground arith))
        (Chain-add_back l n h h (ls h) (r.ring h at) (ground (arith, out.loose h at, out.entry))
          (off_head r h at, r.distinct h at) (off_head r h at))
        (Distinct-middle (ls h) [] n (rw append-nil (out.loose h at))
          (rw append-nil (r.distinct h at)))
        (λ k. lone n k out) (λ k i. ground (arith, has-append k (ls h) (n ∷ []))))

  -- `list_add_tail` of an entry that is on no list, given an entry of a list, puts the new entry before
  -- that entry; the other lists stay as they are.
  pub list_add_tail_before-Rings :
      (h n it : ℕ) (us vs : List ℕ)
      → is_head h ≡ true
      → IsLoose is_head ls n
      → ls h ≡ us ++ it ∷ vs
      → Rings is_head (list_add_tail l n it) (put ls h (us ++ n ∷ it ∷ vs))
  unfolding list_add_tail
  list_add_tail_before-Rings h n it us vs at out e =
      let (front, back) = Chain-split l h h it us vs (rw e at (r.ring h at)) in
      let off : has h (us ++ it ∷ vs) ≡ false = ground (arith, ap (has h) e, off_head r h at) in
      let new : has n (us ++ it ∷ vs) ≡ false = ground (arith, ap (has n) e, out.loose h at) in
      rw (prev-last l h it us front) (
        Rings-update r _ h (n ∷ []) (us ++ n ∷ it ∷ vs) at
          (add-AgreesOff l n (last h us) it (h ∷ n ∷ ls h) (ground arith)
            (ground
              (arith, has-last h us, ap (has (last h us)) e, has-append (last h us) us (it ∷ vs)))
            (ground (arith, ap (has it) e, has-middle it it us vs)))
          (Chain-add_middle l n h h it us vs front back (ground (arith, new, out.entry))
            (off, rw e at (r.distinct h at)) off)
          (Distinct-middle us (it ∷ vs) n new (rw e at (r.distinct h at))) (λ k. lone n k out)
          (λ k i. ground (arith, ap (has k) e, has-middle k n us (it ∷ vs))))
