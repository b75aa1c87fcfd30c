-- ===== src/Scheduler/Tables.antt =====
-- The queues as src/scheduler.c finds them when it ends a process: a process that is not free is in the
-- ready queue, waits for its key, or is in no queue.
use bi_kaya.Base.{
  ℕ, ◌%◌, ◌<◌, ◌≤◌, ◌≡◌, ◌≢◌, refl, ap, sym, ◌∙◌, inl, inr, ◌⊎◌, Bool, true, List, [], ◌∷◌, arith,
  ◌==◌, has, erase, All-has, All-of_has, Bool-cases, find, Option, none, some,
}
use bi_kaya.ListX.{put}
use bi_kaya.Types.{max_proc, member, rank, s_proc_q, pcb_free_head, ready_queue, semd_free, asl}
use bi_kaya.Types.Lists.{Lists}
use bi_kaya.Machine.{Kernel}
use bi_kaya.Pcb.Order.{ByPriority}
use bi_kaya.Asl.Semaphores.{Semaphores, described, waiting, queue_at, find_key}
use bi_kaya.Scheduler.Queues.{Queues, ByPriority-same}

-- The waiting lines depend on the descriptors in use, their keys and their queues.
pub waiting_same :
    (k k' : Kernel) (qs qs' : ℕ → List ℕ) (key : ℕ)
    → k'.s_keys ≡ k.s_keys
    → qs' asl ≡ qs asl
    → ((j : ℕ) → qs' (s_proc_q j) ≡ qs (s_proc_q j))
    → waiting k' qs' key ≡ waiting k qs key
unfolding waiting queue_at
waiting_same k k' qs qs' key keys active same =
    rw (keys, active) (go (find (λ j. k.s_keys j == key) (qs asl)))
  where
    go : (o : Option ℕ) → queue_at qs' o ≡ queue_at qs o
    go none = refl
    go (some j) = same j

pub record Tables (live : ℕ → Bool) (k : Kernel) (qs : ℕ → List ℕ) : Type 0 where
  pub queues : Queues live k qs
  pub every : (j : ℕ) → j < max_proc → described qs j ≡ true
  pub free_live : live pcb_free_head ≡ true
  pub places :
      (h : ℕ)
      → live h ≡ true
      → member h ≡ 0
      → (h ≡ ready_queue) ⊎ ((h ≡ pcb_free_head) ⊎ ((j : ℕ) × (h ≡ s_proc_q j) × (j < max_proc)))

pub ByPriority-erase :
    (f : ℕ → ℕ) (a : ℕ) (xs : List ℕ) → ByPriority f xs → ByPriority f (erase a xs)
ByPriority-erase f a [] s = tt
ByPriority-erase f a (x ∷ xs) s = elim (Bool-cases (a == x)) [
  | inl here ↦ rw here s.1
  | inr there ↦ rw there (
    All-of_has (λ y. rank (f y) ≤ rank (f x)) (erase a xs)
        λ y on. All-has (λ y. rank (f y) ≤ rank (f x)) y xs s.0 (has_erased a y xs on),
    ByPriority-erase f a xs s.1,
  )
]
  where
    has_erased : (a y : ℕ) (xs : List ℕ) → has y (erase a xs) ≡ true → has y xs ≡ true
    has_erased a y [] on = on
    has_erased a y (x ∷ xs) on = ground (arith, has_erased a y xs)

module _ {live : ℕ → Bool} {k : Kernel} {qs : ℕ → List ℕ} (t : Tables live k qs) where
  -- One list of processes has changed, and of the processes neither key nor priority.
  pub Tables-put :
      (k' : Kernel) (h : ℕ) (xs : List ℕ)
      → h % 8 ≢ 4
      → h ≢ asl
      → h ≢ semd_free
      → Lists live k'.links (put qs h xs)
      → ((i : ℕ) → has i xs ≡ true → i < max_proc)
      → k'.s_keys ≡ k.s_keys
      → ((i : ℕ)
          → ((k'.pcbs i).p_semkey ≡ (k.pcbs i).p_semkey)
            × ((k'.pcbs i).priority ≡ (k.pcbs i).priority))
      → ByPriority (λ i. (k.pcbs i).priority) (put qs h xs ready_queue)
      → Tables live k' (put qs h xs)
  Tables-put k' h xs a b c r inside keys same ordered = record {
    queues = record {
      semaphores = record {
        descriptors = record {
          lists = r;
          inside = λ g i at on. ground (arith, s.inside g i at, inside i);
          asl_live = s.asl_live;
          free_live = s.free_live;
          queues = λ j on. s.queues j (ground (arith, same_asl, same_free));
          idle = λ j on. ground (arith, s.idle j);
          keyed = λ i j e f g. s.keyed i j (rw same_asl at e) (rw same_asl at f) (rw keys at g);
          blocked =
              λ j i e f. rw keys ((same i).0 ∙ s.blocked j i (rw same_asl at e) (ground arith));
        };
        busy = λ j on. ground (arith, s.busy j (rw same_asl at on));
      };
      ready_live = t.queues.ready_live;
      ordered = ByPriority-same _ _ (put qs h xs ready_queue) (λ i on. (same i).1) ordered;
    };
    every = λ j lt. ground (arith, t.every j lt);
    free_live = t.free_live;
    places = t.places;
  }
    where
      s : Semaphores live k qs
      s = t.queues.semaphores

      same_asl : put qs h xs asl ≡ qs asl
      same_asl = ground arith

      same_free : put qs h xs semd_free ≡ qs semd_free
      same_free = ground arith

  -- A process in the queue of a descriptor waits for its own key.
  pub waits_by_key :
      (j i : ℕ)
      → j < max_proc
      → has i (qs (s_proc_q j)) ≡ true
      → has i (waiting k qs (k.pcbs i).p_semkey) ≡ true
  unfolding waiting queue_at
  waits_by_key j i lt on = elim (Bool-cases (has j (qs asl))) [
    | inl active ↦
        let key = t.queues.semaphores.blocked j i active on in
        rw (find_key t.queues.semaphores.descriptors j (k.pcbs i).p_semkey active (sym key)) on
    | inr idle ↦ ground (
      arith,
      t.every j lt,
      ap (has i) (t.queues.semaphores.idle j (ground (arith, t.every j lt))),
    )
  ]
