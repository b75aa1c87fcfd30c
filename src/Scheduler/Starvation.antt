-- ===== src/Scheduler/Starvation.antt =====
-- No ready process starves while time slices end: aging in src/scheduler.c raises it until it runs.
use bi_kaya.Base.{
  ℕ, zero, suc, ◌+◌, ◌-◌, ◌<◌, ◌≤◌, ◌≡◌, ap, ◌∙◌, inl, inr, ◌⊎◌, Bool, true, false, some, List,
  arith, ◌==◌, has, All-of_has, subst,
}
use native.Mathlib.Decide.{dec_le}
use bi_kaya.Types.{StateT, max_proc, null, rank, word_size, ready_queue}
use bi_kaya.Types.Lists.{IsOff}
use bi_kaya.Machine.{Kernel, Leaves, Leaves-map}
use bi_kaya.Asl.Semaphores.{short}
use bi_kaya.Scheduler.{scheduler_resume}
use bi_kaya.Scheduler.Queues.{Queues}
use bi_kaya.Scheduler.Preempt.{Preempted}
use bi_kaya.Scheduler.Resume.{Resumed, scheduler_resume-Leaves}
use bi_kaya.Scheduler.Waits.{Slice, run_slice, Waits, Waits-frame, step}
use bi_kaya.Scheduler.Fairness.{ahead, ahead-lt_length}

-- `p` is the current process now, or when at most `n` more time slices have ended.
abbrev pub RunsWithin : (old p : ℕ) → ℕ → (ℕ → Slice) → Kernel → Type 0
RunsWithin old p zero us k = k.current_proc ≡ some p
RunsWithin old p (suc n) us k =
    (k.current_proc ≡ some p)
    ⊎ Leaves (λ _ k'. RunsWithin old p n (λ i. us (suc i)) (run_slice (us 0) k'))
        (scheduler_resume true old k)

current-RunsWithin :
    (old p n : ℕ) (us : ℕ → Slice) (k : Kernel) → k.current_proc ≡ some p → RunsWithin old p n us k
current-RunsWithin old p zero us k e = e
current-RunsWithin old p (suc n) us k e = inl e

Waits-RunsWithin :
    {live : ℕ → Bool} (top p old n : ℕ) (us : ℕ → Slice) (k : Kernel) {qs : ℕ → List ℕ}
    → (old == null) ≡ false
    → Waits live top p n k qs
    → RunsWithin old p n us k
Waits-RunsWithin top p old zero us k there w = absurd (elim w.soon [
  | inl (_, near) ↦ omega (arith, near)
  | inr (below, enough) ↦ omega (arith, below, enough)
])
Waits-RunsWithin {live} top p old (suc n) us k {qs} there w = inr (
    Leaves-map _ _ (scheduler_resume true old k)
      (scheduler_resume-Leaves k true old w.queues running
        (λ over. All-of_has _ (qs ready_queue) λ i on. omega (arith, w.room i on)))
      λ s k'.
        go (λ k1 qs1. Waits-RunsWithin top p old n (λ i. us (suc i)) k1 {qs = qs1} there) s k')
  where
    running :
        (i : ℕ)
        → k.current_proc ≡ some i
        → ((old == null) ≡ false) × (i < max_proc) × IsOff live qs 0 i
    running i e =
        let same : w.c ≡ i = ground (arith, e, w.current) in
        (there, ground (arith, w.inside), subst (IsOff live qs 0) same w.off)

    go :
        ((k1 : Kernel) (qs1 : ℕ → List ℕ)
          → Waits live top p n k1 qs1
          → RunsWithin old p n (λ i. us (suc i)) k1)
        → (s : StateT) (k' : Kernel) → Resumed k w.queues true old s k'
        → RunsWithin old p n (λ i. us (suc i)) (run_slice (us 0) k')
    go rest s k' (inl (none_runs, _)) = ground (arith, w.current)
    go rest s k' (inr (inl (_, _, unended, _, _, _))) = cc
    go rest s k' (inr (inr (i, runs, _, e))) =
        let same : i ≡ w.c = ground (arith, w.current) in
        elim (step top p n k w (k.states old) s k'
          (subst (λ c. Preempted live k qs c (k.states old) s k') same e)) [
            | inl next ↦ current-RunsWithin old p n _ _ (e.current ∙ ap some next)
            | inr later ↦ rest _ _ (Waits-frame (us 0) later)
          ]

-- While time slices end, each with `scheduler_resume`, and whatever the processes do to memory in
-- between, a ready process `p` becomes the current process when at most 20 time slices have ended more
-- than its priority is below `top`, the highest original priority of all. The queues are well-formed, the
-- current process is in none of them, the old state is not `NULL`, and no priority wraps around in that
-- many time slices.
pub scheduler_resume-RunsWithin :
    {live : ℕ → Bool} (k : Kernel) {qs : ℕ → List ℕ} (old p c top n : ℕ) (us : ℕ → Slice)
    → Queues live k qs
    → k.current_proc ≡ some c
    → c < max_proc
    → IsOff live qs 0 c
    → (old == null) ≡ false
    → has p (qs ready_queue) ≡ true
    → ((i : ℕ) → i < max_proc → rank (k.pcbs i).original_priority ≤ top)
    → n ≡ top - rank (k.pcbs p).priority + max_proc
    → top + n < word_size - 1
    → ((i : ℕ) → has i (qs ready_queue) ≡ true → rank (k.pcbs i).priority + n < word_size - 1)
    → RunsWithin old p n us k
scheduler_resume-RunsWithin {live} k {qs} old p c top n us q current inside off there on bounded
      bound high room =
    Waits-RunsWithin top p old n us k there (record {
      queues = q;
      c = c;
      current = current;
      inside = inside;
      off = off;
      bounded = bounded;
      room = room;
      high = high;
      on = on;
      soon = soon;
    })
  where
    soon :
        ((top ≤ rank (k.pcbs p).priority) × (ahead p (qs ready_queue) < n))
        ⊎ ((rank (k.pcbs p).priority ≤ top) × (top + max_proc ≤ rank (k.pcbs p).priority + n))
    soon = elim (dec_le top (rank (k.pcbs p).priority)) [
      | yes reached ↦ inl (
        reached,
        omega (
          arith,
          bound,
          ahead-lt_length p (qs ready_queue) on,
          short q.semaphores.descriptors ready_queue q.ready_live,
        ),
      )
      | no below ↦ inr (omega (arith, below), omega (arith, below, bound))
    ]
