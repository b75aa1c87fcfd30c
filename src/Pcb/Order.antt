-- ===== src/Pcb/Order.antt =====
-- A process queue runs from the highest priority to the lowest, and `pcb_insert_in_queue` keeps it
-- so: the new process stands behind those of its own priority.
use bi_kaya.Base.{
  ℕ, ◌≤◌, ◌<◌, ◌≡◌, refl, ap, inl, inr, true, Bool, List, [], ◌∷◌, ◌++◌, arith, Bool-cases, length,
  All,
}
use bi_kaya.ListX.{put}
use bi_kaya.Types.{member, rank, int_lt}
use bi_kaya.Types.Lists.{Lists, IsOff}
use bi_kaya.Machine.{Kernel, Returns, Returns-map, SameButLinks, fuel}
use bi_kaya.Pcb.{pcb_insert_in_queue}
use bi_kaya.Pcb.Insert.{insert_by, pcb_insert_in_queue-insert_by}

-- From the highest priority to the lowest, as `int`s.
abbrev pub ByPriority : (ℕ → ℕ) → List ℕ → Type 0
ByPriority priority [] = Unit {0}
ByPriority priority (x ∷ xs) =
    All (λ y. rank (priority y) ≤ rank (priority x)) xs × ByPriority priority xs

All-le :
    (priority : ℕ → ℕ) (x p : ℕ) (xs : List ℕ)
    → int_lt (priority x) (priority p) ≡ true
    → All (λ y. rank (priority y) ≤ rank (priority x)) xs
    → All (λ y. rank (priority y) < rank (priority p)) xs
All-le priority x p [] low h = tt
All-le priority x p (y ∷ ys) low h = (ground arith, All-le priority x p ys low h.1)

All-weaken :
    (priority : ℕ → ℕ) (x p : ℕ) (xs : List ℕ)
    → rank (priority x) ≤ rank (priority p)
    → All (λ y. rank (priority y) ≤ rank (priority x)) xs
    → All (λ y. rank (priority y) ≤ rank (priority p)) xs
All-weaken priority x p [] low h = tt
All-weaken priority x p (y ∷ ys) low h = (omega arith, All-weaken priority x p ys low h.1)

-- In an ordered queue `p` stands behind all of its priority or a higher one, before all others.
insert_by_place :
    (priority : ℕ → ℕ) (p : ℕ) (xs : List ℕ)
    → ByPriority priority xs
    → (us : List ℕ) × (vs : List ℕ) × (xs ≡ us ++ vs)
      × (insert_by priority p xs ≡ us ++ p ∷ vs)
      × All (λ x. rank (priority p) ≤ rank (priority x)) us
      × All (λ x. rank (priority x) < rank (priority p)) vs
unfolding insert_by
insert_by_place priority p [] s = ([], [], refl, refl, tt, tt)
insert_by_place priority p (x ∷ xs) s = elim (Bool-cases (int_lt (priority x) (priority p))) [
  | inl low ↦ ([], x ∷ xs, refl, rw low, tt, (ground arith, All-le priority x p xs low s.0))
  | inr not_low ↦
      let (us, vs, e, f, high, rest) = insert_by_place priority p xs s.1 in
      (x ∷ us, vs, ap (◌∷◌ x) e, rw not_low (ap (◌∷◌ x) f), (ground arith, high), rest)
]

All-insert_by :
    (P : ℕ → Type 0) (priority : ℕ → ℕ) (p : ℕ) (xs : List ℕ)
    → P p
    → All P xs
    → All P (insert_by priority p xs)
unfolding insert_by
All-insert_by P priority p [] new h = (new, tt)
All-insert_by P priority p (x ∷ xs) new h = elim (Bool-cases (int_lt (priority x) (priority p))) [
  | inl low ↦ rw low (new, h)
  | inr not_low ↦ rw not_low (h.0, All-insert_by P priority p xs new h.1)
]

pub insert_by-ByPriority :
    (priority : ℕ → ℕ) (p : ℕ) (xs : List ℕ)
    → ByPriority priority xs
    → ByPriority priority (insert_by priority p xs)
unfolding insert_by
insert_by-ByPriority priority p [] s = (tt, tt)
insert_by-ByPriority priority p (x ∷ xs) s = elim (Bool-cases (int_lt (priority x) (priority p))) [
  | inl low ↦ rw low ((ground arith, All-weaken priority x p xs (ground arith) s.0), s)
  | inr not_low ↦
      rw not_low
        (All-insert_by _ priority p xs (ground arith) s.0, insert_by-ByPriority priority p xs s.1)
]

-- `p` stands in the queue at `h` between those of its priority or a higher one and the others.
abbrev pub Ranked : (ℕ → Bool) → Kernel → (ℕ → List ℕ) → (h p : ℕ) → Kernel → Type 0
Ranked live k qs h p k' =
    (us : List ℕ) × (vs : List ℕ) × (qs h ≡ us ++ vs)
    × All (λ x. rank (k.pcbs p).priority ≤ rank (k.pcbs x).priority) us
    × All (λ x. rank (k.pcbs x).priority < rank (k.pcbs p).priority) vs
    × ByPriority (λ i. (k'.pcbs i).priority) (us ++ p ∷ vs)
    × Lists live k'.links (put qs h (us ++ p ∷ vs))
    × SameButLinks k k'

-- `pcb_insert_in_queue` on an ordered queue of at most 20 processes, for a process that is in no queue, returns: the process
-- comes behind every process of the same or a higher priority and before every one of a lower
-- priority, the others keep their order, the queue is ordered again, the other lists stay as they
-- are, and nothing but list pointers is written.
pub pcb_insert_in_queue_ordered :
    {live : ℕ → Bool} (k : Kernel) {qs : ℕ → List ℕ} (h p : ℕ)
    → Lists live k.links qs
    → live h ≡ true
    → member h ≡ 0
    → IsOff live qs 0 p
    → length (qs h) < fuel
    → ByPriority (λ i. (k.pcbs i).priority) (qs h)
    → Returns (λ _ k'. Ranked live k qs h p k') (pcb_insert_in_queue h p k)
pcb_insert_in_queue_ordered k {qs} h p r at via off enough s =
    Returns-map _ _ (pcb_insert_in_queue h p k)
      (pcb_insert_in_queue-insert_by k r h p at via off enough)
      λ _ k' (lists, same).
        let priority = λ (i : ℕ). (k.pcbs i).priority in
        let (us, vs, e, f, high, low) = insert_by_place priority p (qs h) s in
        (
          us,
          vs,
          e,
          high,
          low,
          rw (ap (λ (k : Kernel). k.pcbs) same)
              (rw f at (insert_by-ByPriority priority p (qs h) s)),
          rw f at lists,
          same,
        )
