-- ===== src/ListX/Remove.antt =====
-- The removal of include/listx.h on the lists at the heads.
use bi_kaya.Base.{
  ℕ, ◌≡◌, ap, Bool, true, false, List, [], ◌∷◌, ◌++◌, arith, has, Distinct-append, has-erase, erase,
  has-middle, has-append, split_at,
}
use bi_kaya.ListX.{Links, put, list_del, list_del_between}
use bi_kaya.ListX.Chain.{
  first, last, has-first, has-last, next-first, prev-last, Chain-split, Chain-del,
}
use bi_kaya.ListX.Rings.{Rings, IsLoose, AgreesOff, Rings-update, off_head}

-- The removal writes at the nodes that it is given.
del-AgreesOff :
    (l : Links) (p q : ℕ) (xs : List ℕ)
    → has p xs ≡ true
    → has q xs ≡ true
    → AgreesOff xs l (list_del_between l p q)
unfolding list_del_between
del-AgreesOff l p q xs hp hq = record {
  nexts = λ k out. ground arith;
  prevs = λ k out. ground arith;
}

module _ {is_head : ℕ → Bool} {l : Links} {ls : ℕ → List ℕ} (r : Rings is_head l ls) where
  del_split-Rings :
      (h n : ℕ) (us vs : List ℕ)
      → is_head h ≡ true
      → ls h ≡ us ++ n ∷ vs
      → Rings is_head (list_del l n) (put ls h (us ++ vs))
  unfolding list_del
  del_split-Rings h n us vs at e =
      let (front, back) = Chain-split l h h n us vs (rw e at (r.ring h at)) in
      let (d, gone) = Distinct-append us vs n (rw e at (r.distinct h at)) in
      let off : has h (us ++ vs) ≡ false =
        ground (arith, has-middle h n us vs, ap (has h) e, off_head r h at) in
      rw (prev-last l h n us front, next-first l n h vs back)
        (Rings-update r _ h [] (us ++ vs) at
          (del-AgreesOff l (last h us) (first vs h) (h ∷ ls h)
            (ground
              (arith, has-last h us, ap (has (last h us)) e, has-append (last h us) us (n ∷ vs)))
            (ground (
              arith,
              has-first h vs,
              ap (has (first vs h)) e,
              has-append (first vs h) us (n ∷ vs),
            )))
          (Chain-del l h h n us vs front back (off, d) off) d (λ k j. cc)
          (λ k j. ground (arith, has-middle k n us vs, ap (has k) e)))

  -- `list_del` takes an entry out of its list, wherever it stands there; the other lists stay as they
  -- are.
  pub list_del-Rings :
      (h n : ℕ)
      → is_head h ≡ true
      → has n (ls h) ≡ true
      → Rings is_head (list_del l n) (put ls h (erase n (ls h)))
  list_del-Rings h n at i =
      let (us, vs, whole, left) = split_at n (ls h) i in
      rw left (del_split-Rings h n us vs at whole)

  -- The entry is on no list afterwards.
  pub list_del-IsLoose :
      (h n : ℕ)
      → is_head h ≡ true
      → has n (ls h) ≡ true
      → IsLoose is_head (put ls h (erase n (ls h))) n
  list_del-IsLoose h n at i = record {
    entry = r.entries h n at i;
    loose = λ g e. ground (arith, has-erase n n (ls h) (r.distinct h at), r.apart g h n e at);
  }
