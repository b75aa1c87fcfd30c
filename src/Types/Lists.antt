-- ===== src/Types/Lists.antt =====
-- The lists of the kernel by the indices of their entries: a head stands for a list of processes or
-- of semaphore descriptors, and `Lists` says that the pointers in memory are these lists.
use bi_kaya.Base.{
  ℕ, ◌+◌, ◌*◌, ◌<◌, find, ◌%◌, ◌≡◌, refl, ap, sym, subst, ◌∙◌, fun_ext, inl, inr, Bool, true, false,
  ◌||◌, Option, none, some, List, [], ◌∷◌, ◌++◌, map, arith, ◌==◌, Bool-cases, length, is_nil,
  head?, has, Distinct, erase, has-erase,
}
use mathlib.Core.List.{map-append}
use mathlib.Core.Option
use bi_kaya.ListX.{
  Links, put, init_list_head, list_add, list_add_tail, list_del, list_empty, list_next, list_find,
}
use bi_kaya.ListX.Rings.{
  Rings, IsLoose, list_empty-Rings, list_next-Rings, init_list_head-Rings_new,
  init_list_head-Rings_loose,
}
use bi_kaya.ListX.Insert.{list_add-Rings, list_add_tail-Rings, list_add_tail_before-Rings}
use bi_kaya.ListX.Remove.{list_del-Rings}
use bi_kaya.ListX.Walk.{list_find-Rings}
use bi_kaya.Types.{member, slot, container_of}
use bi_kaya.Types.Slots.{
  has-map-slot, has-member, Distinct-map-slot, map-erase-slot, is_nil-map, head-map,
  head-off-entries, find-map, length-map,
}

abbrev pub entries : (ℕ → List ℕ) → ℕ → List ℕ
entries qs h = map (slot h) (qs h)

pub record Lists (live : ℕ → Bool) (l : Links) (qs : ℕ → List ℕ) : Type 0 where
  pub rings : Rings live l (entries qs)
  pub heads : (h : ℕ) → live h ≡ true → ((h % 8 == 1) || (h % 8 == 4) || (h % 8 == 5)) ≡ true

entries-put :
    (qs : ℕ → List ℕ) (h : ℕ) (xs : List ℕ)
    → put (entries qs) h (map (slot h) xs) ≡ entries (put qs h xs)
entries-put qs h xs = fun_ext λ g. elim (Bool-cases (g == h)) [
  | inl same ↦ let same' : g ≡ h = ground arith in rw (same, same')
  | inr other ↦ rw other
]

pub put_same : (qs : ℕ → List ℕ) (h : ℕ) (xs : List ℕ) → xs ≡ qs h → put qs h xs ≡ qs
put_same qs h xs e = fun_ext λ g. elim (Bool-cases (g == h)) [
  | inl same ↦ let same' : g ≡ h = ground arith in rw (same, same') e
  | inr other ↦ rw other
]

pub put-put : (qs : ℕ → List ℕ) (h : ℕ) (xs ys : List ℕ) → put (put qs h xs) h ys ≡ put qs h ys
put-put qs h xs ys = fun_ext λ g. ground arith

-- Process or descriptor `i` is on no list that is threaded through member `m`.
abbrev pub IsOff : (ℕ → Bool) → (ℕ → List ℕ) → ℕ → ℕ → Type 0
IsOff live qs m i = (h : ℕ) → live h ≡ true → member h ≡ m → has i (qs h) ≡ false

pub container-slot : (h : ℕ) (o : Option ℕ) → Option.map container_of (Option.map (slot h) o) ≡ o
container-slot h none = refl
container-slot h (some i) = ap some (ground arith)

module _ {live : ℕ → Bool} {l : Links} {qs : ℕ → List ℕ} (r : Lists live l qs) where
  -- No process is in two queues, and no descriptor, nor twice in one.
  pub distinct : (h : ℕ) → live h ≡ true → Distinct (qs h)
  distinct h at = Distinct-map-slot h (qs h) (r.rings.distinct h at)

  pub apart :
      (g h i : ℕ)
      → live g ≡ true
      → live h ≡ true
      → member g ≡ member h
      → has i (qs g) ≡ true
      → has i (qs h) ≡ true
      → g ≡ h
  apart g h i e e' same a b =
      r.rings.apart g h (slot g i) e e' (ground (arith, has-map-slot g g i (qs g)))
        (ground (arith, has-map-slot g h i (qs h)))

  slot-IsLoose :
      (h i : ℕ) → live h ≡ true → IsOff live qs (member h) i → IsLoose live (entries qs) (slot h i)
  slot-IsLoose h i at off = record {
    entry = ground (arith, r.heads (slot h i));
    loose = λ g e. ground (arith, has-map-slot h g i (qs g), off g e);
  }

  pub list_empty-Lists : (h : ℕ) → live h ≡ true → list_empty l h ≡ is_nil (qs h)
  list_empty-Lists h at = list_empty-Rings r.rings h at ∙ is_nil-map h (qs h)

  pub list_next-Lists : (h : ℕ) → live h ≡ true → list_next l h ≡ Option.map (slot h) (head? (qs h))
  list_next-Lists h at = list_next-Rings r.rings h at ∙ head-map h (qs h)

  pub list_add-Lists :
      (h i : ℕ)
      → live h ≡ true
      → IsOff live qs (member h) i
      → Lists live (list_add l (slot h i) h) (put qs h (i ∷ qs h))
  list_add-Lists h i at off = record {
    rings =
        rw (entries-put qs h (i ∷ qs h)) at
          (list_add-Rings r.rings h (slot h i) at (slot-IsLoose h i at off));
    heads = r.heads;
  }

  pub list_add_tail-Lists :
      (h i : ℕ)
      → live h ≡ true
      → IsOff live qs (member h) i
      → Lists live (list_add_tail l (slot h i) h) (put qs h (qs h ++ i ∷ []))
  list_add_tail-Lists h i at off = record {
    rings =
        subst (Rings live _)
          (ap (put (entries qs) h) (sym (map-append (slot h) (qs h) (i ∷ [])))
            ∙ entries-put qs h (qs h ++ i ∷ []))
          (list_add_tail-Rings r.rings h (slot h i) at (slot-IsLoose h i at off));
    heads = r.heads;
  }

  pub list_add_tail_before-Lists :
      (h i it : ℕ) (us vs : List ℕ)
      → live h ≡ true
      → IsOff live qs (member h) i
      → qs h ≡ us ++ it ∷ vs
      → Lists live (list_add_tail l (slot h i) (slot h it)) (put qs h (us ++ i ∷ it ∷ vs))
  list_add_tail_before-Lists h i it us vs at off e = record {
    rings =
        subst (Rings live _)
          (ap (put (entries qs) h) (sym (map-append (slot h) us (i ∷ it ∷ vs)))
            ∙ entries-put qs h (us ++ i ∷ it ∷ vs))
          (list_add_tail_before-Rings r.rings h (slot h i) (slot h it) (map (slot h) us)
            (map (slot h) vs) at (slot-IsLoose h i at off)
            (ap (map (slot h)) e ∙ map-append (slot h) us (it ∷ vs)));
    heads = r.heads;
  }

  pub list_del-Lists :
      (h i : ℕ)
      → live h ≡ true
      → has i (qs h) ≡ true
      → Lists live (list_del l (slot h i)) (put qs h (erase i (qs h)))
  list_del-Lists h i at on = record {
    rings =
        subst (Rings live _)
          (ap (put (entries qs) h) (sym (map-erase-slot h i (qs h)))
            ∙ entries-put qs h (erase i (qs h)))
          (list_del-Rings r.rings h (slot h i) at (ground (arith, has-map-slot h h i (qs h))));
    heads = r.heads;
  }

  pub list_del-IsOff :
      (h i : ℕ)
      → live h ≡ true
      → has i (qs h) ≡ true
      → IsOff live (put qs h (erase i (qs h))) (member h) i
  list_del-IsOff h i at on g e same =
      ground (arith, has-erase i i (qs h) (distinct h at), apart g h i e at same)

  -- A loop over the structures of a list, with more fuel than there are, finds the first that
  -- passes.
  pub list_find-Lists :
      (fuel : ℕ) (test : ℕ → Bool) (h : ℕ)
      → live h ≡ true
      → length (qs h) < fuel
      → list_find fuel l (λ node. test (container_of node)) h (l.next h)
        ≡ some (Option.map (slot h) (find test (qs h)))
  list_find-Lists fuel test h at enough =
      list_find-Rings r.rings fuel _ h at (omega (arith, length-map h (qs h)))
      ∙ ap some (find-map h test (qs h))

  -- `INIT_LIST_HEAD` of a head, live or not yet.
  pub init_list_head-Lists :
      (h : ℕ)
      → ((h % 8 == 1) || (h % 8 == 4) || (h % 8 == 5)) ≡ true
      → Lists (λ g. g == h || live g) (init_list_head l h) (put qs h [])
  init_list_head-Lists h kind = record {
    rings =
        subst (Rings _ _) (entries-put qs h [])
          (init_list_head-Rings_new r.rings h λ g e. head-off-entries h g (qs g) kind);
    heads = λ g e. ground (arith, r.heads g);
  }

  -- `INIT_LIST_HEAD` of a member that no list uses.
  pub init_list_head-Lists_off :
      (m i : ℕ)
      → (m == 0 || m == 2) ≡ true
      → IsOff live qs m i
      → Lists live (init_list_head l (8 * i + m)) qs
  init_list_head-Lists_off m i kind off = record {
    rings = init_list_head-Rings_loose r.rings (8 * i + m) (record {
      entry = ground (arith, r.heads (8 * i + m));
      loose = λ g e. ground (arith, has-member g i m (qs g), off g e);
    });
    heads = r.heads;
  }
