-- ===== src/ListX/Walk.antt =====
-- The loop of `list_for_each_entry` visits the entries of a list in order and ends.
use bi_kaya.Base.{
  ℕ, zero, suc, ◌+◌, ◌-◌, ◌<◌, ◌≡◌, refl, sym, ap, ◌∙◌, Option, none, ◌==◌, ==_refl, Bool, true,
  false, some, List, [], ◌∷◌, arith, length, has, find,
}
use mathlib.Core.Option
use mathlib.Core.List.{reverse, reverse_aux}
use bi_kaya.ListX.{Links, list_find, list_for_each, list_for_each_prev}
use bi_kaya.ListX.Chain.{Chain}
use bi_kaya.ListX.Rings.{Rings, off_head}

list_find-Chain :
    (fuel : ℕ) (l : Links) (test : ℕ → Bool) (a h : ℕ) (xs : List ℕ)
    → Chain l a xs h
    → has h xs ≡ false
    → length xs < fuel
    → list_find fuel l test h (l.next a) ≡ some (find test xs)
unfolding list_find
list_find-Chain zero l test a h xs c out enough = absurd (omega arith)
list_find-Chain (suc fuel) l test a h [] c out enough = ground arith
list_find-Chain (suc fuel) l test a h (x ∷ xs) c out enough =
    ground (arith, list_find-Chain fuel l test x h xs c.2)

-- The loop of `list_for_each_entry`, from the first entry on and with more fuel than the list has
-- entries, ends, and has found the first entry that passes the test, if there is one.
pub list_find-Rings :
    {is_head : ℕ → Bool} {l : Links} {ls : ℕ → List ℕ} (r : Rings is_head l ls) (fuel : ℕ)
    (test : ℕ → Bool) (h : ℕ)
    → is_head h ≡ true
    → length (ls h) < fuel
    → list_find fuel l test h (l.next h) ≡ some (find test (ls h))
list_find-Rings {ls} r fuel test h at enough =
    list_find-Chain fuel _ test h h (ls h) (r.ring h at) (ground (arith, r.entries h h at)) enough

list_for_each-Chain :
    (fuel : ℕ) (l : Links) (a h : ℕ) (xs : List ℕ)
    → Chain l a xs h
    → has h xs ≡ false
    → length xs < fuel
    → list_for_each fuel l h (l.next a) ≡ some xs
unfolding list_for_each
list_for_each-Chain zero l a h xs c out enough = absurd (omega arith)
list_for_each-Chain (suc fuel) l a h [] c out enough = ground arith
list_for_each-Chain (suc fuel) l a h (x ∷ xs) c out enough =
    let differ : (x == h) ≡ false = ground arith in
    rw (c.0, differ, list_for_each-Chain fuel l x h xs c.2 (ground arith) (omega arith)) refl

-- Backwards over `xs`, with `n` rounds left for what stands before.
list_for_each_prev-Chain :
    (n : ℕ) (l : Links) (a b h : ℕ) (xs : List ℕ)
    → Chain l a xs b
    → has h xs ≡ false
    → list_for_each_prev (length xs + n) l h (l.prev b)
      ≡ Option.map (reverse_aux xs) (list_for_each_prev n l h a)
unfolding list_for_each_prev
list_for_each_prev-Chain n l a b h [] c out =
    ap (λ m. list_for_each_prev m l h (l.prev b)) none_left
    ∙ rw c.1 (sym (identity (list_for_each_prev n l h a)))
  where
    identity : (o : Option (List ℕ)) → Option.map (reverse_aux []) o ≡ o
    identity none = refl
    identity (some ys) = refl

    none_left : 0 + n ≡ n
    none_left = omega arith
list_for_each_prev-Chain n l a b h (x ∷ xs) c out =
    ap (λ m. list_for_each_prev m l h (l.prev b)) (shift (length xs) n)
    ∙ list_for_each_prev-Chain (suc n) l x b h xs c.2 (ground arith)
    ∙ one_more
  where
    shift : (m n : ℕ) → suc m + n ≡ m + suc n
    shift m n = omega arith

    differ : (x == h) ≡ false
    differ = ground arith

    both :
        (o : Option (List ℕ))
        → Option.map (reverse_aux xs) (Option.map (λ (ns : List ℕ). x ∷ ns) o)
          ≡ Option.map (reverse_aux (x ∷ xs)) o
    both none = refl
    both (some ys) = refl

    one_more :
        Option.map (reverse_aux xs) (list_for_each_prev (suc n) l h x)
        ≡ Option.map (reverse_aux (x ∷ xs)) (list_for_each_prev n l h a)
    one_more = rw (differ, c.1) (both (list_for_each_prev n l h a))

-- On a list, with more fuel than it has entries, `list_for_each` visits the entries in order and
-- `list_for_each_prev` visits them in the reverse order, and both end.
pub list_for_each_prev-reverse :
    {is_head : ℕ → Bool} {l : Links} {ls : ℕ → List ℕ} (fuel h : ℕ)
    → Rings is_head l ls
    → is_head h ≡ true
    → length (ls h) < fuel
    → (list_for_each fuel l h (l.next h) ≡ some (ls h))
      × (list_for_each_prev fuel l h (l.prev h) ≡ some (reverse (ls h)))
unfolding list_for_each_prev
list_for_each_prev-reverse {l} {ls} fuel h r at enough =
    let n : ℕ = fuel - length (ls h) - 1 in
    let all : fuel ≡ length (ls h) + suc n = omega arith in
    (
      list_for_each-Chain fuel l h h (ls h) (r.ring h at) (off_head r h at) enough,
      ap (λ m. list_for_each_prev m l h (l.prev h)) all
          ∙ list_for_each_prev-Chain (suc n) l h h h (ls h) (r.ring h at) (off_head r h at)
          ∙ rw (==_refl h) refl,
    )
