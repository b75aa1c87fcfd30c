-- ===== src/Scheduler/Resume.antt =====
-- `scheduler_resume` of src/scheduler.c: who runs when a handler is done.
use bi_kaya.Base.{
  ℕ, ◌-◌, ◌<◌, ◌≡◌, refl, ap, ◌∙◌, fun_ext, inl, inr, ◌⊎◌, Bool, true, false, Option, none, some,
  List, arith, ◌==◌, if◌then◌else◌, All, All-has, All-of_has,
}
use bi_kaya.Types.{StateT, word_size, max_proc, null, rank, ready_queue}
use bi_kaya.Types.Lists.{IsOff}
use bi_kaya.Machine.{
  Kernel, Leaves, Leaves-bind, Leaves-map, Leaves-early, Leaves-assoc, and_then, ◌>>◌,
}
use bi_kaya.Umps.{load_state}
use bi_kaya.Pcb.Insert.{insert_by}
use bi_kaya.Scheduler.{
  scheduler_account_time, preempt, resume_current, select_next, scheduler_resume,
}
use bi_kaya.Scheduler.Queues.{Queues, Queues-frame}
use bi_kaya.Scheduler.Run.{Selected, select_next_lem}
use bi_kaya.Scheduler.Time.{
  Accounted, SameButClock, Accounted-SameButClock, scheduler_account_time-Accounted,
}
use bi_kaya.Scheduler.Preempt.{aged_pcbs, Preempted, preempt_select}

-- Accounting comes first, which does not show in what is run.
Preempted-Accounted :
    {live : ℕ → Bool} (k k1 : Kernel) {qs : ℕ → List ℕ} (p old : ℕ) (s : StateT) (k' : Kernel)
    → Accounted true k k1
    → Preempted live k1 qs p (k1.states old) s k'
    → Preempted live k qs p (k.states old) s k'
Preempted-Accounted k k1 {qs} p old s k' a e = record {
  next = e.next;
  qs' = e.qs';
  state = e.state ∙ ground (arith, (same e.next).p_s, states);
  saved = λ i. e.saved i ∙ ground (arith, (same i).p_s, states);
  current = e.current;
  line = e.line ∙ ap (λ f. insert_by f p (qs ready_queue)) (fun_ext line);
  queues = e.queues;
  gone = e.gone;
  others = e.others;
  keys = e.keys ∙ ap (λ (m : Kernel). m.s_keys) a.same;
  words = λ b ne. e.words b ne ∙ ap (λ (m : Kernel). m.words b) a.same;
  priorities = λ i. e.priorities i ∙ line i;
  originals = λ i. e.originals i ∙ (same i).original_priority;
  parents = λ i. e.parents i ∙ (same i).p_parent;
}
  where
    same : (i : ℕ) → SameButClock (k.pcbs i) (k1.pcbs i)
    same = Accounted-SameButClock true k k1 a

    states : k1.states ≡ k.states
    states = ap (λ (m : Kernel). m.states) a.same

    line :
        (i : ℕ)
        → (if i == p then (k1.pcbs p).original_priority else (aged_pcbs k1 qs i).priority)
          ≡ (if i == p then (k.pcbs p).original_priority else (aged_pcbs k qs i).priority)
    line i = ground (arith, (same i).priority, (same p).original_priority)

pub account :
    {live : ℕ → Bool} {kernel : Bool} (k : Kernel) {qs : ℕ → List ℕ}
    → Queues live k qs
    → (k1 : Kernel) → Accounted kernel k k1
    → Queues live k1 qs
account {kernel} k q k1 a =
    Queues-frame k1 q (ap (λ (m : Kernel). m.links) a.same) (ap (λ (m : Kernel). m.s_keys) a.same)
      λ i. let c = Accounted-SameButClock kernel k k1 a i in (c.p_semkey, c.priority)

-- Who runs after `scheduler_resume`, according to the running process and its time slice.
abbrev pub Resumed :
    {live : ℕ → Bool} (k : Kernel) {qs : ℕ → List ℕ}
    → Queues live k qs
    → Bool
    → ℕ
    → StateT
    → Kernel
    → Type 0
Resumed {live} k {qs} q ended old s k' =
    ((k.current_proc ≡ none) × Selected k q s k')
    ⊎ (((p : ℕ) × (k.current_proc ≡ some p)
          × (ended ≡ false)
          × (s ≡ k.states old)
          × Queues live k' qs
          × Accounted true k k')
        ⊎ ((p : ℕ) × (k.current_proc ≡ some p)
            × (ended ≡ true)
            × Preempted live k qs p (k.states old) s k'))

-- `scheduler_resume` leaves the kernel, given well-formed queues, for a current process, if there is
-- one, an old state that is not `NULL`, an index within the table and that it is in no queue, and,
-- where its time slice has ended, for the ready processes priorities that one more does not wrap
-- around. Without a current process the first ready process runs, or the idle state where there is
-- none. A current process whose time slice has not ended goes on with the old state, after the
-- accounting of time. Otherwise it gets the old state and its original priority, the processes that
-- were ready are raised by one, it takes its place among them, and the first of all runs; the states
-- of the other processes are as before, the queues are well-formed again, and it is in none of them.
pub scheduler_resume-Leaves :
    {live : ℕ → Bool} (k : Kernel) {qs : ℕ → List ℕ} (ended : Bool) (old : ℕ) (q : Queues live k qs)
    → ((p : ℕ)
        → k.current_proc ≡ some p
        → ((old == null) ≡ false) × (p < max_proc) × IsOff live qs 0 p)
    → (ended ≡ true → All (λ i. rank (k.pcbs i).priority < word_size - 1) (qs ready_queue))
    → Leaves (Resumed k q ended old) (scheduler_resume ended old k)
unfolding scheduler_resume resume_current load_state
scheduler_resume-Leaves {live} k {qs} ended old q running small = go k.current_proc refl ended refl
  where
    go :
        (o : Option ℕ)
        → k.current_proc ≡ o
        → (t : Bool) → ended ≡ t
        → Leaves (Resumed k q t old) (and_then (resume_current t old o k) (λ _. select_next))
    go none e t same = Leaves-map _ _ (select_next k) (select_next_lem k q) λ s k' sel. inl (e, sel)
    go (some p) e false same =
        Leaves-early _ (resume_current false old (some p) k) (λ _. select_next)
          (Leaves-bind _ _ (scheduler_account_time true k) _
            (scheduler_account_time-Accounted true k)
            λ _ k1 a. rw (running p e).0 (
              inr
                (inl (p, e, refl, ap (λ (m : Kernel). m.states old) a.same, account k q k1 a, a))))
    go (some p) e true over =
        Leaves-assoc _ (scheduler_account_time true k) (λ _. preempt p old) (λ _. select_next)
          (Leaves-bind _ _ (scheduler_account_time true k) _
            (scheduler_account_time-Accounted true k)
            λ _ k1 a.
              Leaves-map _ _ ((preempt p old >> select_next) k1)
                (preempt_select k1 (account k q k1 a) p old (running p e).0 (running p e).2
                  (running p e).1 (small1 k1 a))
                λ s k' after. inr (inr (p, e, refl, Preempted-Accounted k k1 p old s k' a after)))
      where
        small1 :
            (k1 : Kernel)
            → Accounted true k k1
            → All (λ i. rank (k1.pcbs i).priority < word_size - 1) (qs ready_queue)
        small1 k1 a = All-of_has _ (qs ready_queue) λ i on.
            rw (Accounted-SameButClock true k k1 a i).priority (
              All-has (λ j. rank (k.pcbs j).priority < word_size - 1) i (qs ready_queue)
                (small over) on)
