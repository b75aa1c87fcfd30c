-- ===== src/ListX/Rings.antt =====
-- A memory of lists: every list head stands for a list of entries, and the operations of listx.h
-- on the pointers are the operations on those lists.
use bi_kaya.Base.{
  ℕ, ◌≡◌, inl, inr, Bool, true, false, ◌||◌, List, [], ◌∷◌, ◌++◌, arith, ◌==◌, Bool-cases, is_nil,
  head?, has, Distinct, has-append,
}
use bi_kaya.ListX.{Links, put, init_list_head, list_empty, list_next}
use bi_kaya.ListX.Chain.{Chain, Chain-frame}

-- `ls h` is the list at the head `h`. No entry is in two lists, or twice in one.
pub record Rings (is_head : ℕ → Bool) (l : Links) (ls : ℕ → List ℕ) : Type 0 where
  pub ring : (h : ℕ) → is_head h ≡ true → Chain l h (ls h) h
  pub distinct : (h : ℕ) → is_head h ≡ true → Distinct (ls h)
  pub entries : (h n : ℕ) → is_head h ≡ true → has n (ls h) ≡ true → is_head n ≡ false
  pub apart :
      (g h n : ℕ)
      → is_head g ≡ true
      → is_head h ≡ true
      → has n (ls g) ≡ true
      → has n (ls h) ≡ true
      → g ≡ h

-- `n` is the address of an entry that is on no list.
pub record IsLoose (is_head : ℕ → Bool) (ls : ℕ → List ℕ) (n : ℕ) : Type 0 where
  pub entry : is_head n ≡ false
  pub loose : (h : ℕ) → is_head h ≡ true → has n (ls h) ≡ false

-- `m` differs from `l` at most at the nodes of `xs`.
pub record AgreesOff (xs : List ℕ) (l m : Links) : Type 0 where
  pub nexts : (n : ℕ) → has n xs ≡ false → m.next n ≡ l.next n
  pub prevs : (n : ℕ) → has n xs ≡ false → m.prev n ≡ l.prev n

empty_of_Chain :
    (l : Links) (h : ℕ) (xs : List ℕ)
    → Chain l h xs h
    → has h xs ≡ false
    → list_empty l h ≡ is_nil xs
unfolding list_empty
empty_of_Chain l h [] c out = ground arith
empty_of_Chain l h (x ∷ xs) c out = ground arith

next_of_Chain :
    (l : Links) (h : ℕ) (xs : List ℕ) → Chain l h xs h → has h xs ≡ false → list_next l h ≡ head? xs
unfolding list_next
next_of_Chain l h [] c out = ground arith
next_of_Chain l h (x ∷ xs) c out = ground arith

module _ {is_head : ℕ → Bool} {l : Links} {ls : ℕ → List ℕ} (r : Rings is_head l ls) where
  -- A change of one list, by entries that were on it or, those of `ns`, on none.
  pub Rings-update :
      (m : Links) (h : ℕ) (ns xs : List ℕ)
      → is_head h ≡ true
      → AgreesOff (h ∷ (ns ++ ls h)) l m
      → Chain m h xs h
      → Distinct xs
      → ((k : ℕ) → has k ns ≡ true → IsLoose is_head ls k)
      → ((k : ℕ) → has k xs ≡ true → (has k ns || has k (ls h)) ≡ true)
      → Rings is_head m (put ls h xs)
  Rings-update m h ns xs at off c d new inside = record {
    ring = λ g e. elim (Bool-cases (g == h)) [
      | inl same ↦ let same' : g ≡ h = ground arith in rw (same, same') c
      | inr other ↦ rw other (
          Chain-frame l m g g (ls g) (λ k i. off.nexts k (outside g e k other i))
            (λ k i. off.prevs k (outside g e k other i)) (r.ring g e))
    ];
    distinct = λ g e. elim (Bool-cases (g == h)) [
      | inl same ↦ rw same d
      | inr other ↦ rw other (r.distinct g e)
    ];
    entries = λ g k e i. ground (
      arith,
      inside k,
      λ (p : has k ns ≡ true). (new k p).entry,
      r.entries g k e,
      r.entries h k at,
    );
    apart = λ f g k e e' i j. ground (
      arith,
      inside k,
      λ (p : has k ns ≡ true). (new k p).loose f e,
      λ (p : has k ns ≡ true). (new k p).loose g e',
      r.apart f g k e e',
      r.apart f h k e at,
      r.apart h g k at e',
    );
  }
    where
      outside :
          (g : ℕ)
          → is_head g ≡ true
          → (k : ℕ) → (g == h) ≡ false
          → has k (g ∷ ls g) ≡ true
          → has k (h ∷ (ns ++ ls h)) ≡ false
      outside g e k other i = ground (
        arith,
        has-append k ns (ls h),
        r.apart g h k e at,
        r.entries g k e,
        r.entries h k at,
        λ (p : has k ns ≡ true). (new k p).entry,
        λ (p : has k ns ≡ true). (new k p).loose g e,
      )

  pub off_head : (h : ℕ) → is_head h ≡ true → has h (ls h) ≡ false
  off_head h at = ground (arith, r.entries h h at)

  -- `list_empty` and `list_next` read the list.
  pub list_empty-Rings : (h : ℕ) → is_head h ≡ true → list_empty l h ≡ is_nil (ls h)
  list_empty-Rings h at = empty_of_Chain l h (ls h) (r.ring h at) (off_head h at)

  pub list_next-Rings : (h : ℕ) → is_head h ≡ true → list_next l h ≡ head? (ls h)
  unfolding list_next
  list_next-Rings h at = next_of_Chain l h (ls h) (r.ring h at) (off_head h at)

  -- `INIT_LIST_HEAD` of a head empties its list.
  pub init_list_head-Rings :
      (h : ℕ) → is_head h ≡ true → Rings is_head (init_list_head l h) (put ls h [])
  unfolding init_list_head
  init_list_head-Rings h at =
      Rings-update _ h [] [] at
        (record { nexts = λ k out. ground arith; prevs = λ k out. ground arith }) (ground arith) tt
        (λ k i. cc) (λ k i. cc)

  -- `INIT_LIST_HEAD` of a node that is on no list makes it the head of an empty list.
  pub init_list_head-Rings_new :
      (h : ℕ)
      → ((g : ℕ) → is_head g ≡ true → has h (ls g) ≡ false)
      → Rings (λ g. g == h || is_head g) (init_list_head l h) (put ls h [])
  unfolding init_list_head
  init_list_head-Rings_new h out = record {
    ring = λ g e. elim (Bool-cases (g == h)) [
      | inl same ↦ let same' : g ≡ h = ground arith in rw (same, same') (ground arith)
      | inr other ↦ rw other (
          Chain-frame l (init_list_head l h) g g (ls g) (λ k i. ground (arith, out g))
            (λ k i. ground (arith, out g)) (r.ring g (ground arith)))
    ];
    distinct = λ g e. elim (Bool-cases (g == h)) [
      | inl same ↦ rw same tt
      | inr other ↦ rw other (r.distinct g (ground arith))
    ];
    entries = λ g k e i. ground (arith, r.entries g k, out g);
    apart = λ f g k e e' i j. ground (arith, r.apart f g k);
  }

  -- `INIT_LIST_HEAD` of an entry that is on no list touches no list.
  pub init_list_head-Rings_loose :
      (n : ℕ) → IsLoose is_head ls n → Rings is_head (init_list_head l n) ls
  unfolding init_list_head
  init_list_head-Rings_loose n out = record {
    ring = λ g e.
        Chain-frame l (init_list_head l n) g g (ls g)
          (λ k i. ground (arith, out.loose g e, out.entry))
          (λ k i. ground (arith, out.loose g e, out.entry)) (r.ring g e);
    distinct = r.distinct;
    entries = r.entries;
    apart = r.apart;
  }
