-- ===== src/Scheduler/Run.antt =====
-- `scheduler_run` of src/scheduler.c, and the choice between it and the idle state.
use bi_kaya.Base.{
  ℕ, ◌*◌, ◌%◌, ◌≤◌, ◌≡◌, ◌≢◌, refl, sym, fun_ext, subst, inl, inr, ◌⊎◌, Bool, some, List, [], ◌∷◌,
  arith, ◌==◌, if◌then◌else◌, is_nil, Bool-cases, ==_refl, All,
}
use bi_kaya.ListX.{Links, put}
use bi_kaya.Types.{StateT, Pcb, word_size, rank, ready_queue}
use bi_kaya.Types.Lists.{Lists, IsOff, list_del-IsOff, list_empty-Lists}
use bi_kaya.Machine.{Kernel, Leaves, Leaves-bind, Leaves-map}
use bi_kaya.Umps.{bus_reg_timer, bus_reg_time_scale, get_todlo, set_timer}
use bi_kaya.Pcb.{pcb_remove_from_queue, pcb_is_queue_empty}
use bi_kaya.Pcb.Order.{ByPriority}
use bi_kaya.Pcb.Remove.{pcb_remove_from_queue_lem}
use bi_kaya.Scheduler.{dispatch, ldst, scheduler_run, select_next}
use bi_kaya.Scheduler.Queues.{Queues, Semaphores-ready, ByPriority-same}

-- `p` has been taken from the front of the ready queue, with `ps` behind it, and runs from now on.
pub record Dispatched (live : ℕ → Bool) (k : Kernel) (qs : ℕ → List ℕ) (p : ℕ) (ps : List ℕ)
    (s : StateT) (k' : Kernel) : Type 0 where
  pub state : s ≡ (k.pcbs p).p_s
  pub current : k'.current_proc ≡ some p
  pub highest : All (λ x. rank (k.pcbs x).priority ≤ rank (k.pcbs p).priority) ps
  pub queues : Queues live k' (put qs ready_queue ps)
  pub gone : IsOff live (put qs ready_queue ps) 0 p
  pub slice : k'.words bus_reg_timer ≡ 3000 * k.words bus_reg_time_scale % word_size
  pub started :
      (k'.pcbs p).start_tm
      ≡ (if (k.pcbs p).start_tm == 0 then k.tod 0 % word_size else (k.pcbs p).start_tm)
  pub others : (i : ℕ) → i ≢ p → k'.pcbs i ≡ k.pcbs i
  pub keys : k'.s_keys ≡ k.s_keys
  pub states : k'.states ≡ k.states
  pub words : (a : ℕ) → a ≢ bus_reg_timer → k'.words a ≡ k.words a
  pub parents : (i : ℕ) → (k'.pcbs i).p_parent ≡ (k.pcbs i).p_parent
  pub saved : (i : ℕ) → (k'.pcbs i).p_s ≡ (k.pcbs i).p_s
  pub kept :
      (i : ℕ)
      → ((k'.pcbs i).priority ≡ (k.pcbs i).priority)
        × ((k'.pcbs i).original_priority ≡ (k.pcbs i).original_priority)

abbrev started_at : ℕ → Pcb → Pcb
started_at tm b = record b { start_tm = tm }

-- A start time that is there stays.
started_same : (pcbs : ℕ → Pcb) (p : ℕ) → pcbs ≡ put pcbs p (started_at (pcbs p).start_tm (pcbs p))
started_same pcbs p = fun_ext λ i. elim (Bool-cases (i == p)) [
  | inl here ↦ let same : i ≡ p = ground arith in rw (here, same) refl
  | inr other ↦ rw other refl
]

module _ {live : ℕ → Bool} (k : Kernel) {qs : ℕ → List ℕ} (q : Queues live k qs) where
  ordered_tail :
      (p : ℕ) (ps : List ℕ)
      → qs ready_queue ≡ p ∷ ps
      → ByPriority (λ i. (k.pcbs i).priority) (p ∷ ps)
  ordered_tail p ps whole = rw whole at q.ordered

  dispatched :
      (p : ℕ) (ps : List ℕ) (k' : Kernel) (tm : ℕ)
      → qs ready_queue ≡ p ∷ ps
      → Lists live k'.links (put qs ready_queue ps)
      → k'.s_keys ≡ k.s_keys
      → k'.current_proc ≡ some p
      → k'.states ≡ k.states
      → k'.pcbs ≡ put k.pcbs p (started_at tm (k.pcbs p))
      → tm ≡ (if (k.pcbs p).start_tm == 0 then k.tod 0 % word_size else (k.pcbs p).start_tm)
      → k'.words ≡ put k.words bus_reg_timer (3000 * k.words bus_reg_time_scale % word_size)
      → Dispatched live k qs p ps (k'.pcbs p).p_s k'
  dispatched p ps k' tm whole r keys current states pcbs at slice = record {
    state = rw pcbs (ground arith);
    current = current;
    highest = (ordered_tail p ps whole).0;
    queues = record {
      semaphores =
          Semaphores-ready k' ps q.semaphores r
            (λ i on. q.semaphores.inside ready_queue i q.ready_live (rw whole (ground arith))) keys
            (λ i. rw pcbs (ground arith));
      ready_live = q.ready_live;
      ordered = ByPriority-same _ _ ps (λ i on. rw pcbs (ground arith)) (ordered_tail p ps whole).1;
    };
    gone = gone;
    slice = rw slice refl;
    words = λ a ne. rw slice (ground arith);
    started = rw pcbs (ground arith);
    others = λ i ne. rw pcbs (ground arith);
    keys = keys;
    states = states;
    parents = λ i. rw pcbs (ground arith);
    saved = λ i. rw pcbs (ground arith);
    kept = λ i. (rw pcbs (ground arith), rw pcbs (ground arith));
  }
    where
      gone : IsOff live (put qs ready_queue ps) 0 p
      gone =
          rw (whole, ==_refl p) at
            (list_del-IsOff q.semaphores.lists ready_queue p q.ready_live (rw whole (ground arith)))

  dispatch_lem :
      (p : ℕ) (ps : List ℕ) (l : Links)
      → qs ready_queue ≡ p ∷ ps
      → Lists live l (put qs ready_queue ps)
      → Leaves (Dispatched live k qs p ps) (dispatch (some p) (record k { links = l }))
  unfolding dispatch get_todlo set_timer
  dispatch_lem p ps l whole r = elim (Bool-cases ((k.pcbs p).start_tm == 0)) [
    | inl first ↦
        rw first
          (dispatched p ps _ (k.tod 0 % word_size) whole r refl refl refl refl (rw first refl) refl)
    | inr later ↦ rw later (
        dispatched p ps _ (k.pcbs p).start_tm whole r refl refl refl (started_same k.pcbs p)
          (rw later refl) refl)
  ]

  -- `scheduler_run` with well-formed queues and `p` in front of the ready queue leaves the kernel with
  -- the state of `p`: no ready process has a higher priority, `p` is the current process and in no queue
  -- any more, the queues are well-formed again, the timer is set to a time slice, the start time of `p`
  -- is that of the clock if it had none, and the other processes are as before.
  pub scheduler_run_lem :
      (p : ℕ) (ps : List ℕ)
      → qs ready_queue ≡ p ∷ ps
      → Leaves (Dispatched live k qs p ps) (scheduler_run k)
  unfolding scheduler_run
  scheduler_run_lem p ps whole =
      Leaves-bind _ _ (pcb_remove_from_queue ready_queue k) dispatch
        (pcb_remove_from_queue_lem k q.semaphores.lists ready_queue q.ready_live refl)
        λ o k' (got, lists, same).
          subst (λ m. Leaves (Dispatched live k qs p ps) (dispatch o m)) (sym same)
            (rw (got, whole) (dispatch_lem p ps k'.links whole (rw whole at lists)))

  -- The idle state, where nobody is ready, or the first of the ready queue.
  abbrev pub Selected : StateT → Kernel → Type 0
  Selected s k' =
      ((qs ready_queue ≡ []) × (s ≡ k.idle_proc_state) × (k' ≡ k))
      ⊎ ((p : ℕ) × (ps : List ℕ) × (qs ready_queue ≡ p ∷ ps) × Dispatched live k qs p ps s k')

  pub select_next_lem : Leaves Selected (select_next k)
  unfolding select_next pcb_is_queue_empty
  select_next_lem =
      rw (list_empty-Lists q.semaphores.lists ready_queue q.ready_live) (go (qs ready_queue) refl)
    where
      go :
          (xs : List ℕ)
          → qs ready_queue ≡ xs
          → Leaves Selected ((if is_nil xs then ldst k.idle_proc_state else scheduler_run) k)
      go [] e = inl (e, refl, refl)
      go (p ∷ ps) e =
          Leaves-map _ _ (scheduler_run k) (scheduler_run_lem p ps e) λ s k' d. inr (p, ps, e, d)
