-- ===== src/Pcb/Remove.antt =====
-- The removals of src/pcb.c from a process queue, by position and by process.
use mathlib.Core.Option
use bi_kaya.Base.{
  ℕ, ◌<◌, ◌≡◌, refl, ap, sym, ◌∙◌, inl, inr, Bool, true, Option, none, some, List, [], ◌∷◌, arith,
  ◌==◌, if◌then◌else◌, Bool-cases, length, ==_refl, is_nil, head?, tail, find, has, erase,
  erase_off,
}
use bi_kaya.ListX.{put, list_del}
use bi_kaya.Types.{member, slot, p_next, container_of}
use bi_kaya.Types.Lists.{
  Lists, put_same, list_empty-Lists, list_next-Lists, list_del-Lists, list_find-Lists,
}
use bi_kaya.Machine.{Kernel, Run, ok, Returns, SameButLinks, fuel}
use bi_kaya.Pcb.{remove_head, pcb_queue_head, pcb_remove_from_queue, pcb_find_and_remove}

pub find-has : (p : ℕ) (xs : List ℕ) → find (λ i. i == p) xs ≡ (if has p xs then some p else none)
find-has p [] = refl
find-has p (x ∷ xs) = ground (arith, find-has p xs)

module _ {live : ℕ → Bool} (k : Kernel) {qs : ℕ → List ℕ} (r : Lists live k.links qs) where
  unlink :
      (h p : ℕ)
      → live h ≡ true
      → member h ≡ 0
      → has p (qs h) ≡ true
      → Lists live (list_del k.links (p_next p)) (put qs h (erase p (qs h)))
  unlink h p at via on =
      let place : slot h p ≡ p_next p = omega (arith, via) in
      rw place at (list_del-Lists r h p at on)

  -- `pcb_queue_head` returns the first process of the queue, or `NULL`, and changes nothing.
  pub pcb_queue_head_lem : (h : ℕ) → live h ≡ true → pcb_queue_head h k ≡ ok (head? (qs h)) k
  unfolding pcb_queue_head
  pcb_queue_head_lem h at = rw (list_empty-Lists r h at, list_next-Lists r h at) (head_of (qs h))
    where
      head_of :
          (xs : List ℕ)
          → ◌≡◌ {A = Run (Option ℕ)}
              (if is_nil xs
                then ok none k
                else ok (Option.map container_of (Option.map (slot h) (head? xs))) k)
              (ok (head? xs) k)
      head_of [] = refl
      head_of (x ∷ xs) = ap (λ (i : ℕ). ok (some i) k) (ground arith)

  -- `pcb_remove_from_queue` takes the first process out of the queue and returns it, or returns `NULL`
  -- if the queue is empty; the other lists stay as they are.
  pub pcb_remove_from_queue_lem :
      (h : ℕ)
      → live h ≡ true
      → member h ≡ 0
      → Returns
          (λ o k'.
            (o ≡ head? (qs h)) × Lists live k'.links (put qs h (tail (qs h))) × SameButLinks k k')
          (pcb_remove_from_queue h k)
  unfolding pcb_remove_from_queue
  pcb_remove_from_queue_lem h at via = rw (pcb_queue_head_lem h at) (go (qs h) refl)
    where
      go :
          (xs : List ℕ)
          → qs h ≡ xs
          → Returns
              (λ o k'.
                (o ≡ head? xs) × Lists live k'.links (put qs h (tail xs)) × SameButLinks k k')
              (remove_head (head? xs) k)
      go [] e = (refl, rw (put_same qs h [] (sym e)) r, refl)
      go (x ∷ xs) e = (
        refl,
        rw (ap (erase x) e, ==_refl x) at (unlink h x at via (ap (has x) e ∙ ground arith)),
        refl,
      )

  -- `pcb_find_and_remove` on a queue of at most 20 processes takes `p` out of the queue and returns it, if it is there; if not, it
  -- returns `NULL` and the queue stays as it is. The other lists stay as they are.
  pub pcb_find_and_remove-erase :
      (h p : ℕ)
      → live h ≡ true
      → member h ≡ 0
      → length (qs h) < fuel
      → Returns
          (λ o k'.
            (o ≡ (if has p (qs h) then some p else none))
            × Lists live k'.links (put qs h (erase p (qs h)))
            × SameButLinks k k')
          (pcb_find_and_remove h p k)
  unfolding pcb_find_and_remove
  pcb_find_and_remove-erase h p at via enough =
      rw (list_find-Lists r fuel (λ i. i == p) h at enough, find-has p (qs h))
        (elim (Bool-cases (has p (qs h))) [
          | inl here ↦ rw here (refl, unlink h p at via here, refl)
          | inr missing ↦
              rw (missing, erase_off p (qs h) missing, put_same qs h (qs h) refl) (refl, r, refl)
        ])
