-- ===== src/Scheduler/Preempt.antt =====
-- The end of a time slice in `scheduler_resume` of src/scheduler.c.
use bi_kaya.Base.{
  ℕ, ◌-◌, ◌<◌, ◌≡◌, ◌≢◌, refl, ap, sym, ◌∙◌, fun_ext, inl, inr, Bool, true, false, some, List, ◌∷◌,
  arith, ◌==◌, if◌then◌else◌, Bool-cases, is_nil, nil_of_is_nil, has, All,
}
use bi_kaya.ListX.{put}
use bi_kaya.Types.{StateT, Pcb, word_size, max_proc, null, rank, ready_queue}
use bi_kaya.Types.Lists.{IsOff, list_empty-Lists}
use bi_kaya.Machine.{Kernel, Leaves, Leaves-bind, Leaves-map, ◌>>◌}
use bi_kaya.Umps.{bus_reg_timer, load_state}
use bi_kaya.Pcb.{pcb_is_queue_empty}
use bi_kaya.Pcb.Insert.{insert_by, is_nil-insert_by}
use bi_kaya.Scheduler.{set_state, scheduler_enqueue_process, preempt, select_next}
use bi_kaya.Scheduler.Queues.{Queues, Queues-frame, Enqueued, scheduler_enqueue_process_lem}
use bi_kaya.Scheduler.Run.{Selected, select_next_lem}
use bi_kaya.Scheduler.Aging.{aged, aging-aged, aged-Queues}

abbrev pub aged_pcbs : Kernel → (ℕ → List ℕ) → ℕ → Pcb
aged_pcbs k qs i = if has i (qs ready_queue) then aged (k.pcbs i) else k.pcbs i

-- The process `p` as it is put back, with the state `s`.
abbrev pub preempted : Kernel → (ℕ → List ℕ) → ℕ → StateT → Kernel
preempted k qs p s = record k { pcbs = put (aged_pcbs k qs) p (set_state s (k.pcbs p)) }

module _ {live : ℕ → Bool} (k : Kernel) {qs : ℕ → List ℕ} (q : Queues live k qs) where
  alone_same : is_nil (qs ready_queue) ≡ true → k.pcbs ≡ aged_pcbs k qs
  alone_same alone = fun_ext λ i. rw (nil_of_is_nil (qs ready_queue) alone) refl

  off_same : (p : ℕ) → IsOff live qs 0 p → aged_pcbs k qs p ≡ k.pcbs p
  off_same p off = rw (off ready_queue q.ready_live refl) refl

  -- With nobody ready there is nothing to age.
  preempt-enqueue :
      (p old : ℕ)
      → (old == null) ≡ false
      → IsOff live qs 0 p
      → preempt p old k ≡ scheduler_enqueue_process p (preempted k qs p (k.states old))
  unfolding preempt load_state pcb_is_queue_empty
  preempt-enqueue p old there off = elim (Bool-cases (is_nil (qs ready_queue))) [
    | inl alone ↦
        rw (list_empty-Lists q.semaphores.lists ready_queue q.ready_live, alone, there)
          (ap
            (λ (m : ℕ → Pcb).
              scheduler_enqueue_process p
                (record k { pcbs = put m p (set_state (k.states old) (k.pcbs p)) }))
            (alone_same alone))
    | inr others ↦
        rw
          (
            list_empty-Lists q.semaphores.lists ready_queue q.ready_live,
            others,
            aging-aged k q,
            there,
            off_same p off,
          )
          refl
  ]

-- `p` has been put back with the state `s`, and the first of the ready queue, `next`, runs.
pub record Preempted (live : ℕ → Bool) (k : Kernel) (qs : ℕ → List ℕ) (p : ℕ) (old : StateT)
    (s : StateT) (k' : Kernel) : Type 0 where
  pub next : ℕ
  pub qs' : ℕ → List ℕ
  pub state : s ≡ (if next == p then old else (k.pcbs next).p_s)
  pub saved : (i : ℕ) → (k'.pcbs i).p_s ≡ (if i == p then old else (k.pcbs i).p_s)
  pub current : k'.current_proc ≡ some next
  pub line :
      next ∷ qs' ready_queue
      ≡ insert_by
          (λ i. if i == p then (k.pcbs p).original_priority else (aged_pcbs k qs i).priority)
          p
          (qs ready_queue)
  pub queues : Queues live k' qs'
  pub gone : IsOff live qs' 0 next
  pub others : (h : ℕ) → h ≢ ready_queue → qs' h ≡ qs h
  pub keys : k'.s_keys ≡ k.s_keys
  pub words : (a : ℕ) → a ≢ bus_reg_timer → k'.words a ≡ k.words a
  pub priorities :
      (i : ℕ)
      → (k'.pcbs i).priority
        ≡ (if i == p then (k.pcbs p).original_priority else (aged_pcbs k qs i).priority)
  pub originals : (i : ℕ) → (k'.pcbs i).original_priority ≡ (k.pcbs i).original_priority
  pub parents : (i : ℕ) → (k'.pcbs i).p_parent ≡ (k.pcbs i).p_parent

module _ {live : ℕ → Bool} (k : Kernel) {qs : ℕ → List ℕ} (q : Queues live k qs) (p old : ℕ)
    (there : (old == null) ≡ false) (off : IsOff live qs 0 p) (inside : p < max_proc)
    (small : All (λ i. rank (k.pcbs i).priority < word_size - 1) (qs ready_queue)) where
  abbrev m : Kernel
  m = preempted k qs p (k.states old)

  m-Queues : Queues live m qs
  m-Queues =
      Queues-frame m (aged-Queues k q small) refl refl
        λ i. (ground (arith, off_same k q p off), ground (arith, off_same k q p off))

  then_select :
      (k1 : Kernel) (qs1 : ℕ → List ℕ)
      → Enqueued live m qs p k1 qs1
      → Leaves (Preempted live k qs p (k.states old)) (select_next k1)
  then_select k1 qs1 e =
      Leaves-map _ _ (select_next k1) (select_next_lem k1 e.queues) λ s k'. selected s k'
    where
      priority1 :
          (i : ℕ)
          → (k1.pcbs i).priority
            ≡ (if i == p then (k.pcbs p).original_priority else (aged_pcbs k qs i).priority)
      priority1 i = rw (ap (λ (n : Kernel). n.pcbs) e.same) (ground arith)

      original1 : (i : ℕ) → (k1.pcbs i).original_priority ≡ (k.pcbs i).original_priority
      original1 i = rw (ap (λ (n : Kernel). n.pcbs) e.same) (ground arith)

      parent1 : (i : ℕ) → (k1.pcbs i).p_parent ≡ (k.pcbs i).p_parent
      parent1 i = rw (ap (λ (n : Kernel). n.pcbs) e.same) (ground arith)

      state1 : (i : ℕ) → (k1.pcbs i).p_s ≡ (if i == p then k.states old else (k.pcbs i).p_s)
      state1 i = rw (ap (λ (n : Kernel). n.pcbs) e.same) (ground arith)

      selected :
          (s : StateT) (k' : Kernel)
          → Selected k1 e.queues s k'
          → Preempted live k qs p (k.states old) s k'
      selected s k' (inl (empty, _, _)) = ground (
        arith,
        ap is_nil empty,
        ap is_nil e.ready,
        is_nil-insert_by (λ i. (k1.pcbs i).priority) p (qs ready_queue),
      )
      selected s k' (inr (next, ps, whole, d)) = record {
        next = next;
        qs' = put qs1 ready_queue ps;
        state = d.state ∙ state1 next;
        saved = λ i. d.saved i ∙ state1 i;
        current = d.current;
        line = sym whole ∙ e.ready ∙ ap (λ f. insert_by f p (qs ready_queue)) (fun_ext priority1);
        queues = d.queues;
        gone = d.gone;
        others = λ h ne. ground (arith, e.others h ne);
        keys = d.keys ∙ ap (λ (n : Kernel). n.s_keys) e.same;
        words = λ a ne. d.words a ne ∙ ap (λ (n : Kernel). n.words a) e.same;
        priorities = λ i. (d.kept i).0 ∙ priority1 i;
        originals = λ i. (d.kept i).1 ∙ original1 i;
        parents = λ i. d.parents i ∙ parent1 i;
      }

  pub preempt_select :
      Leaves (Preempted live k qs p (k.states old)) ((preempt p old >> select_next) k)
  preempt_select = rw (preempt-enqueue k q p old there off) (
      Leaves-bind _ _ (scheduler_enqueue_process p m) (λ _. select_next)
        (scheduler_enqueue_process_lem m p m-Queues off inside)
        λ _ k1 (qs1, e). then_select k1 qs1 e)
