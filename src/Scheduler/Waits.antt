-- ===== src/Scheduler/Waits.antt =====
-- A ready process from the end of one time slice to the next, in src/scheduler.c.
use bi_kaya.Base.{
  ℕ, suc, ◌+◌, ◌-◌, ◌<◌, ◌≤◌, ◌≡◌, refl, ap, ◌∙◌, inl, inr, ◌⊎◌, Bool, true, false, some, List, ◌∷◌,
  arith, ◌==◌, if◌then◌else◌, Bool-cases, length, has, All-of_has,
}
use native.Mathlib.Decide.{dec_le}
use bi_kaya.Types.{StateT, max_proc, rank, word_size, ready_queue}
use bi_kaya.Types.Lists.{IsOff}
use bi_kaya.Machine.{Kernel}
use bi_kaya.Pcb.Insert.{insert_by, has-insert_by}
use bi_kaya.Pcb.Order.{ByPriority}
use bi_kaya.Asl.Semaphores.{short}
use bi_kaya.Scheduler.Queues.{Queues, Queues-frame}
use bi_kaya.Scheduler.Aging.{rank-raised, ByPriority-raised}
use bi_kaya.Scheduler.Preempt.{aged_pcbs, Preempted}
use bi_kaya.Scheduler.Fairness.{ahead, ahead-lt_length, next_or_line, next_or_closer}

-- What the machine has done by the end of a time slice: it has written to memory and to the areas of
-- saved states, and the clock has run.
pub record Slice : Type 0 where
  pub words : ℕ → ℕ
  pub states : ℕ → StateT
  pub tod : ℕ → ℕ

abbrev pub run_slice : Slice → Kernel → Kernel
run_slice u k = record k { words = u.words; states = u.states; tod = u.tod }

-- `p` is ready behind at most `n` others for good: it has reached the highest original priority, `top`,
-- and at most `n` stand before it, or it reaches `top` early enough. No priority wraps around meanwhile.
pub record Waits (live : ℕ → Bool) (top p n : ℕ) (k : Kernel) (qs : ℕ → List ℕ) : Type 0 where
  pub queues : Queues live k qs
  pub c : ℕ
  pub current : k.current_proc ≡ some c
  pub inside : c < max_proc
  pub off : IsOff live qs 0 c
  pub bounded : (i : ℕ) → i < max_proc → rank (k.pcbs i).original_priority ≤ top
  pub room : (i : ℕ) → has i (qs ready_queue) ≡ true → rank (k.pcbs i).priority + n < word_size - 1
  pub high : top + n < word_size - 1
  pub on : has p (qs ready_queue) ≡ true
  pub soon :
      ((top ≤ rank (k.pcbs p).priority) × (ahead p (qs ready_queue) < n))
      ⊎ ((rank (k.pcbs p).priority ≤ top) × (top + max_proc ≤ rank (k.pcbs p).priority + n))

pub Waits-frame :
    {live : ℕ → Bool} {top p n : ℕ} {k : Kernel} {qs : ℕ → List ℕ} (u : Slice)
    → Waits live top p n k qs
    → Waits live top p n (run_slice u k) qs
Waits-frame {k} u w = record {
  queues = Queues-frame (run_slice u k) w.queues refl refl λ i. (refl, refl);
  c = w.c;
  current = w.current;
  inside = w.inside;
  off = w.off;
  bounded = w.bounded;
  room = w.room;
  high = w.high;
  on = w.on;
  soon = w.soon;
}

-- One time slice ends, of the process `c`.
module _ {live : ℕ → Bool} (top p n : ℕ) (k : Kernel) {qs : ℕ → List ℕ}
    (w : Waits live top p (suc n) k qs) (old s : StateT) (k' : Kernel)
    (e : Preempted live k qs w.c old s k') where
  after : ℕ → ℕ
  after i = if i == w.c then (k.pcbs w.c).original_priority else (aged_pcbs k qs i).priority

  not_c : (i : ℕ) → has i (qs ready_queue) ≡ true → (i == w.c) ≡ false
  not_c i on = ground (arith, w.off ready_queue w.queues.ready_live refl)

  raised : (i : ℕ) → has i (qs ready_queue) ≡ true → rank (after i) ≡ rank (k.pcbs i).priority + 1
  unfolding after
  raised i on = rw (not_c i on, on) (rank-raised (k.pcbs i).priority (omega (arith, w.room i on)))

  ordered : ByPriority after (qs ready_queue)
  unfolding after
  ordered =
      ByPriority-raised after (λ i. (k.pcbs i).priority) (qs ready_queue)
        (All-of_has _ (qs ready_queue) λ i on. omega (arith, w.room i on))
        (λ i on. rw (not_c i on, on) refl) w.queues.ordered

  priorities : (i : ℕ) → (k'.pcbs i).priority ≡ after i
  unfolding after
  priorities i = e.priorities i

  low : rank (after w.c) ≤ top
  unfolding after
  low = ground (arith, w.bounded w.c w.inside)

  few : length (e.qs' ready_queue) < suc max_proc
  few = short e.queues.semaphores.descriptors ready_queue e.queues.ready_live

  line : e.next ∷ e.qs' ready_queue ≡ insert_by after w.c (qs ready_queue)
  unfolding after
  line = e.line

  member :
      (i : ℕ) → has i (e.next ∷ e.qs' ready_queue) ≡ has i (insert_by after w.c (qs ready_queue))
  member i = ap (has i) line

  next_inside : e.next < max_proc
  next_inside = ground (
    arith,
    member e.next,
    has-insert_by after e.next w.c (qs ready_queue),
    w.inside,
    w.queues.semaphores.inside ready_queue e.next w.queues.ready_live,
  )

  room' : (i : ℕ) → has i (e.qs' ready_queue) ≡ true → rank (k'.pcbs i).priority + n < word_size - 1
  room' i on = rw (priorities i) (elim (Bool-cases (i == w.c)) [
    | inl here ↦ let same : i ≡ w.c = ground arith in rw same (omega (arith, low, w.high))
    | inr other ↦
        let before : has i (qs ready_queue) ≡ true =
          ground (arith, member i, has-insert_by after i w.c (qs ready_queue)) in
        omega (arith, raised i before, w.room i before)
  ])

  soon' :
      (e.next ≡ p)
      ⊎ (((top ≤ rank (k'.pcbs p).priority) × (ahead p (e.qs' ready_queue) < n))
          ⊎ ((rank (k'.pcbs p).priority ≤ top) × (top + max_proc ≤ rank (k'.pcbs p).priority + n)))
  soon' = elim w.soon [
    | inl (reached, few') ↦ closer reached few'
    | inr (below, enough) ↦ elim (dec_le (rank (k.pcbs p).priority + 1) top) [
      | yes still ↦ inr (inr (omega (arith, priority', still), omega (arith, priority', enough)))
      | no reached ↦ closer (omega (arith, reached, below)) (
          omega (
            arith,
            reached,
            below,
            enough,
            ahead-lt_length p (qs ready_queue) w.on,
            short w.queues.semaphores.descriptors ready_queue w.queues.ready_live,
          ))
    ]
  ]
    where
      priority' : rank (k'.pcbs p).priority ≡ rank (k.pcbs p).priority + 1
      priority' = ap rank (priorities p) ∙ raised p w.on

      closer :
          top ≤ rank (k.pcbs p).priority
          → ahead p (qs ready_queue) < suc n
          → (e.next ≡ p)
            ⊎ (((top ≤ rank (k'.pcbs p).priority) × (ahead p (e.qs' ready_queue) < n))
                ⊎ ((rank (k'.pcbs p).priority ≤ top)
                    × (top + max_proc ≤ rank (k'.pcbs p).priority + n)))
      closer reached near =
          elim (next_or_closer after w.c p e.next (qs ready_queue) (e.qs' ready_queue) line ordered
            w.on (omega (arith, low, raised p w.on, reached))) [
              | inl runs ↦ inl runs
              | inr moved ↦
                  inr (inl (omega (arith, priority', reached), omega (arith, moved, near)))
            ]

  pub step : (e.next ≡ p) ⊎ Waits live top p n k' e.qs'
  step = elim soon' [
    | inl runs ↦ inl runs
    | inr later ↦
        elim (next_or_line after w.c p e.next (qs ready_queue) (e.qs' ready_queue) line w.on) [
          | inl runs ↦ inl runs
          | inr on ↦ inr (record {
            queues = e.queues;
            c = e.next;
            current = e.current;
            inside = next_inside;
            off = e.gone;
            bounded = λ i lt. rw (e.originals i) (w.bounded i lt);
            room = room';
            high = omega (arith, w.high);
            on = on;
            soon = later;
          })
        ]
  ]
