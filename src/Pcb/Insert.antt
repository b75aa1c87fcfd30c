-- ===== src/Pcb/Insert.antt =====
-- `pcb_insert_in_queue` of src/pcb.c is an insertion by priority.
use bi_kaya.Base.{
  false, ◌==◌, has, ◌||◌, ℕ, ◌<◌, ◌≡◌, refl, ap, sym, ◌∙◌, ◌⊎◌, inl, inr, Bool, true, none, some,
  List, [], ◌∷◌, ◌++◌, arith, if◌then◌else◌, Bool-cases, length, is_nil, find,
}
use bi_kaya.ListX.{put, list_add_tail, list_empty}
use bi_kaya.Types.{member, slot, p_next, int_lt}
use bi_kaya.Types.Lists.{
  Lists, IsOff, list_empty-Lists, list_add_tail-Lists, list_add_tail_before-Lists, list_find-Lists,
}
use bi_kaya.Machine.{Kernel, Returns, SameButLinks, fuel}
use bi_kaya.Pcb.{pcb_insert_in_queue}

-- What the queue should become: `p` before the first process of lower priority.
unfoldable pub insert_by : (ℕ → ℕ) → ℕ → List ℕ → List ℕ
insert_by priority p [] = p ∷ []
insert_by priority p (x ∷ xs) =
    if int_lt (priority x) (priority p) then p ∷ x ∷ xs else x ∷ insert_by priority p xs

-- The search decides where `p` goes.
insert_by-find :
    (priority : ℕ → ℕ) (p : ℕ) (xs : List ℕ)
    → ((find (λ i. int_lt (priority i) (priority p)) xs ≡ none)
        × (insert_by priority p xs ≡ xs ++ p ∷ []))
      ⊎ ((it : ℕ) × (us : List ℕ) × (vs : List ℕ) × (find (λ i. int_lt (priority i) (priority p)) xs
            ≡ some it)
          × (xs ≡ us ++ it ∷ vs)
          × (insert_by priority p xs ≡ us ++ p ∷ it ∷ vs))
unfolding insert_by
insert_by-find priority p [] = inl (refl, refl)
insert_by-find priority p (x ∷ xs) = elim (Bool-cases (int_lt (priority x) (priority p))) [
  | inl lower ↦ inr (x, [], xs, rw lower, refl, rw lower)
  | inr not_lower ↦ elim (insert_by-find priority p xs) [
    | inl (e, f) ↦ inl (rw not_lower e, rw not_lower (ap (◌∷◌ x) f))
    | inr (it, us, vs, e, f, g) ↦
        inr (it, x ∷ us, vs, rw not_lower e, ap (◌∷◌ x) f, rw not_lower (ap (◌∷◌ x) g))
  ]
]

insert_by-nil :
    (priority : ℕ → ℕ) (p : ℕ) (xs : List ℕ)
    → is_nil xs ≡ true
    → insert_by priority p xs ≡ xs ++ p ∷ []
unfolding insert_by
insert_by-nil priority p [] e = refl
insert_by-nil priority p (x ∷ xs) e = cc

pub has-insert_by :
    (priority : ℕ → ℕ) (a p : ℕ) (xs : List ℕ)
    → has a (insert_by priority p xs) ≡ ((a == p) || has a xs)
unfolding insert_by
has-insert_by priority a p [] = refl
has-insert_by priority a p (x ∷ xs) = elim (Bool-cases (int_lt (priority x) (priority p))) [
  | inl low ↦ rw low
  | inr not_low ↦ rw (not_low, has-insert_by priority a p xs) (ground arith)
]

pub is_nil-insert_by :
    (priority : ℕ → ℕ) (p : ℕ) (xs : List ℕ) → is_nil (insert_by priority p xs) ≡ false
unfolding insert_by
is_nil-insert_by priority p [] = refl
is_nil-insert_by priority p (x ∷ xs) = elim (Bool-cases (int_lt (priority x) (priority p))) [
  | inl low ↦ rw low
  | inr not_low ↦ rw not_low
]

module _ {live : ℕ → Bool} (k : Kernel) {qs : ℕ → List ℕ} (r : Lists live k.links qs) where
  pub pcb_insert_in_queue-insert_by :
      (h p : ℕ)
      → live h ≡ true
      → member h ≡ 0
      → IsOff live qs 0 p
      → length (qs h) < fuel
      → Returns
          (λ _ k'.
            Lists live k'.links (put qs h (insert_by (λ i. (k.pcbs i).priority) p (qs h)))
            × SameButLinks k k')
          (pcb_insert_in_queue h p k)
  unfolding pcb_insert_in_queue
  pcb_insert_in_queue-insert_by h p at via off enough = elim (Bool-cases (list_empty k.links h)) [
    | inl empty ↦ rw empty (rw (first_in empty) (at_end, refl))
    | inr others ↦
        rw
          (
            others,
            list_find-Lists r fuel (λ i. int_lt (k.pcbs i).priority (k.pcbs p).priority) h at
                enough,
          )
          (elim (insert_by-find (λ i. (k.pcbs i).priority) p (qs h)) [
            | inl (e, f) ↦ rw (e, f) (at_end, refl)
            | inr (it, us, vs, e, f, g) ↦ rw (e, g) (before it us vs f, refl)
          ])
  ]
    where
      place : slot h p ≡ p_next p
      place = omega (arith, via)

      here : IsOff live qs (member h) p
      here = rw via off

      first_in :
          list_empty k.links h ≡ true
          → insert_by (λ i. (k.pcbs i).priority) p (qs h) ≡ qs h ++ p ∷ []
      first_in empty = insert_by-nil _ p (qs h) (sym (list_empty-Lists r h at) ∙ empty)

      at_end : Lists live (list_add_tail k.links (p_next p) h) (put qs h (qs h ++ p ∷ []))
      at_end = rw place at (list_add_tail-Lists r h p at here)

      before :
          (it : ℕ) (us vs : List ℕ)
          → qs h ≡ us ++ it ∷ vs
          → Lists live (list_add_tail k.links (p_next p) (slot h it)) (put qs h (us ++ p ∷ it ∷ vs))
      before it us vs f = rw (← place) (list_add_tail_before-Lists r h p it us vs at here f)
