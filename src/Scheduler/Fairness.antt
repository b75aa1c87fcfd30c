-- ===== src/Scheduler/Fairness.antt =====
-- What aging in src/scheduler.c is for: the place of a ready process from one time slice to the next.
use bi_kaya.Base.{
  ℕ, suc, ◌<◌, ◌≤◌, ◌≡◌, refl, ap, ◌∙◌, inl, inr, ◌⊎◌, true, false, List, [], ◌∷◌, arith, ◌==◌,
  if◌then◌else◌, Bool-cases, length, has, All-has,
}
use bi_kaya.Types.{rank, int_lt}
use bi_kaya.Pcb.Insert.{insert_by, has-insert_by}
use bi_kaya.Pcb.Order.{ByPriority}

-- How many stand before `p`.
abbrev pub ahead : ℕ → List ℕ → ℕ
ahead p [] = 0
ahead p (x ∷ xs) = if p == x then 0 else suc (ahead p xs)

pub ahead-lt_length : (p : ℕ) (xs : List ℕ) → has p xs ≡ true → ahead p xs < length xs
ahead-lt_length p [] on = cc
ahead-lt_length p (x ∷ xs) on = elim (Bool-cases (p == x)) [
  | inl here ↦ rw here (omega arith)
  | inr there ↦ rw there (omega (arith, ahead-lt_length p xs (ground arith)))
]

-- One who comes in at no higher priority stays behind `p`.
ahead-insert_by :
    (f : ℕ → ℕ) (c p : ℕ) (xs : List ℕ)
    → ByPriority f xs
    → has p xs ≡ true
    → rank (f c) ≤ rank (f p)
    → ahead p (insert_by f c xs) ≡ ahead p xs
unfolding insert_by
ahead-insert_by f c p [] s on low = cc
ahead-insert_by f c p (x ∷ xs) s on low = elim (Bool-cases (p == x)) [
  | inl here ↦
      let same : p ≡ x = ground arith in
      let stays : int_lt (f x) (f c) ≡ false = ground arith in rw (stays, here) refl
  | inr there ↦
      let on' : has p xs ≡ true = ground arith in
      let above : rank (f p) ≤ rank (f x) = All-has (λ y. rank (f y) ≤ rank (f x)) p xs s.0 on' in
      let stays : int_lt (f x) (f c) ≡ false = ground arith in
      rw (stays, there) (ap suc (ahead-insert_by f c p xs s.1 on' low))
]

-- `c` comes in, and the first, `next`, leaves: that is `p`, or `p` still stands in the line.
pub next_or_line :
    (f : ℕ → ℕ) (c p next : ℕ) (xs ys : List ℕ)
    → next ∷ ys ≡ insert_by f c xs
    → has p xs ≡ true
    → (next ≡ p) ⊎ (has p ys ≡ true)
next_or_line f c p next xs ys line on = elim (Bool-cases (p == next)) [
  | inl here ↦ inl (ground arith)
  | inr there ↦ inr (ground (arith, ap (has p) line, has-insert_by f p c xs))
]

-- Where `c` has no higher priority than `p`, `p` has moved up by one.
pub next_or_closer :
    (f : ℕ → ℕ) (c p next : ℕ) (xs ys : List ℕ)
    → next ∷ ys ≡ insert_by f c xs
    → ByPriority f xs
    → has p xs ≡ true
    → rank (f c) ≤ rank (f p)
    → (next ≡ p) ⊎ (suc (ahead p ys) ≡ ahead p xs)
next_or_closer f c p next xs ys line s on low = elim (Bool-cases (p == next)) [
  | inl here ↦ inl (ground arith)
  | inr there ↦ inr (rw there at (ap (ahead p) line ∙ ahead-insert_by f c p xs s on low))
]
