-- ===== src/Interrupts/Unblock.antt =====
-- `unblock_process` of src/interrupts.c.
use bi_kaya.Base.{
  ℕ, ◌≡◌, ◌≢◌, refl, ap, sym, fun_ext, ==_refl, ◌∙◌, inl, inr, Bool, some, List, [], arith, head?,
  tail, has, ◌%◌, ◌==◌, if◌then◌else◌,
}
use bi_kaya.ListX.{put}
use bi_kaya.Types.{Pcb, null, member, ready_queue, semd_free, asl}
use bi_kaya.Machine.{Kernel, fault, Returns, Returns-bind, Returns-deref, Returns-fault}
use bi_kaya.Umps.{set_sysreturn}
use bi_kaya.Pcb.Insert.{insert_by}
use bi_kaya.Asl.{set_semkey, asl_remove_blocked}
use bi_kaya.Asl.Semaphores.{described, waiting}
use bi_kaya.Asl.Remove.{asl_remove_blocked_lem}
use bi_kaya.Scheduler.{scheduler_enqueue_process}
use bi_kaya.Scheduler.Queues.{Queues, Queues-frame, reset_priority}
use bi_kaya.Scheduler.Block.{waiting-frame}
use bi_kaya.Syscalls.Verhogen.{Readied, scheduler_enqueue_process-Readied}
use bi_kaya.Interrupts.{unblock_process}

-- The first process that waited for `key` is ready, with the status as its result.
pub record Unblocked (live : ℕ → Bool) (k : Kernel) (qs : ℕ → List ℕ) (key status p : ℕ)
    (k' : Kernel) (qs' : ℕ → List ℕ) : Type 0 where
  pub queues : Queues live k' qs'
  pub remaining : waiting k' qs' key ≡ tail (waiting k qs key)
  pub others : (o : ℕ) → o ≢ key → waiting k' qs' o ≡ waiting k qs o
  pub ready : qs' ready_queue ≡ insert_by (λ i. (k'.pcbs i).priority) p (qs ready_queue)
  pub kept : (i : ℕ) → described qs' i ≡ described qs i
  pub only : (h i : ℕ) → member h ≡ 0 → i ≢ p → has i (qs' h) ≡ has i (qs h)
  pub elsewhere : (h : ℕ) → h % 8 ≢ 4 → h ≢ asl → h ≢ semd_free → h ≢ ready_queue → qs' h ≡ qs h
  pub parents : (i : ℕ) → (k'.pcbs i).p_parent ≡ (k.pcbs i).p_parent
  pub current : k'.current_proc ≡ k.current_proc
  pub words : k'.words ≡ k.words
  pub priorities :
      (i : ℕ)
      → ((k'.pcbs i).original_priority ≡ (k.pcbs i).original_priority)
        × ((k'.pcbs i).priority
            ≡ (if i == p then (k.pcbs p).original_priority else (k.pcbs i).priority))
  pub states :
      (i : ℕ)
      → (k'.pcbs i).p_s ≡ (if i == p then set_sysreturn status (k.pcbs p).p_s else (k.pcbs i).p_s)

module _ {live : ℕ → Bool} (k : Kernel) {qs : ℕ → List ℕ} (q : Queues live k qs)
    (key status : ℕ) where
  returned :
      (p : ℕ) (k1 : Kernel) (qs1 : ℕ → List ℕ)
      → Readied k q key p k1 qs1
      → Unblocked live k qs key status p
          (record k1 {
            pcbs =
                put k1.pcbs p (record (k1.pcbs p) { p_s = set_sysreturn status (k1.pcbs p).p_s });
          })
          qs1
  returned p k1 qs1 r = record {
    queues = Queues-frame _ r.queues refl refl λ i. (ground arith, ground arith);
    remaining = waiting-frame k1 _ qs1 key refl ∙ r.remaining;
    others = λ o ne. waiting-frame k1 _ qs1 o refl ∙ r.others o ne;
    current = ap (λ (m : Kernel). m.current_proc) r.same;
    words = ap (λ (m : Kernel). m.words) r.same;
    priorities = λ i. (
      ground (arith, ap (λ (m : Kernel). (m.pcbs i).original_priority) r.same),
      ground (arith, ap (λ (m : Kernel). (m.pcbs i).priority) r.same),
    );
    parents = λ i. ground (arith, ap (λ (m : Kernel). (m.pcbs i).p_parent) r.same);
    kept = r.kept;
    only = r.only;
    elsewhere = r.elsewhere;
    ready = r.ready ∙ ap (λ f. insert_by f p (qs ready_queue)) (fun_ext priorities);
    states = λ i. rw (ap (λ (m : Kernel). m.pcbs) r.same) (state_at i);
  }
    where
      woken : Pcb
      woken = set_semkey null (reset_priority (k.pcbs p))

      state_at :
          (i : ℕ)
          → (put
              (put k.pcbs p woken)
              p
              (record (put k.pcbs p woken p) {
                p_s = set_sysreturn status (put k.pcbs p woken p).p_s;
              })
              i).p_s
            ≡ (if i == p then set_sysreturn status (k.pcbs p).p_s else (k.pcbs i).p_s)
      state_at i = rw (==_refl p) (ground arith)

      priorities :
          (i : ℕ)
          → (k1.pcbs i).priority
            ≡ (put k1.pcbs p
                (record (k1.pcbs p) { p_s = set_sysreturn status (k1.pcbs p).p_s })
                i).priority
      priorities i = ground arith

  -- `unblock_process` with well-formed queues, for a key for which `p` waits first, returns: `p`
  -- leaves the queue of the key and joins the ready queue at its original priority, with the status of
  -- the device as the result of its system call; the processes that wait for other keys stay where
  -- they are, and no other process gets another priority or state.
  pub unblock_process-Unblocked :
      (p : ℕ)
      → head? (waiting k qs key) ≡ some p
      → Returns
          (λ _ k'. (qs' : ℕ → List ℕ) × Unblocked live k qs key status p k' qs')
          (unblock_process key status k)
  unfolding unblock_process
  unblock_process-Unblocked p first =
      Returns-bind _ _ (asl_remove_blocked key k) _ (asl_remove_blocked_lem k q.semaphores key)
        λ o k1 (got, removed). elim removed [
          | inl (missing, _) ↦ ground (arith, sym missing ∙ got ∙ first)
          | inr (i, there, woken) ↦
              let same : i ≡ p = ground (arith, sym there ∙ got ∙ first) in
              Returns-deref _ o p k1 _ (got ∙ first) (
                Returns-bind _ _ (scheduler_enqueue_process p k1) _
                  (scheduler_enqueue_process-Readied k q key p k1 first (rw same at woken))
                  λ _ k2 (qs2, r). (qs2, returned p k2 qs2 r))
        ]

  -- `unblock_process` for a key for which nobody waits, with well-formed queues, follows a `NULL`
  -- pointer.
  pub unblock_process-fault : waiting k qs key ≡ [] → unblock_process key status k ≡ fault
  unfolding unblock_process
  unblock_process-fault nobody =
      Returns-fault _ (asl_remove_blocked key k) _ (asl_remove_blocked_lem k q.semaphores key)
        λ o k1 (got, _). rw (got ∙ ap head? nobody) refl
