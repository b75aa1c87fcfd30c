-- ===== src/Syscalls/Verhogen.antt =====
-- `verhogen` of src/syscalls.c on the semaphores.
use bi_kaya.Base.{
  ℕ, ◌+◌, ◌%◌, ◌<◌, ◌≡◌, ◌≢◌, refl, ap, sym, ◌∙◌, fun_ext, inl, inr, ◌⊎◌, Bool, true, false, Option,
  none, some, List, [], ◌∷◌, arith, ◌==◌, ==_refl, Bool-cases, is_nil, head?, tail, erase, has,
  find,
}
use bi_kaya.ListX.{put}
use bi_kaya.Types.{member, Pcb, max_proc, word_size, null, s_proc_q, ready_queue, semd_free, asl}
use bi_kaya.Machine.{Kernel, Returns, Returns-bind, Returns-map, Returns-deref}
use bi_kaya.Pcb.Insert.{insert_by, has-insert_by}
use bi_kaya.Asl.{set_semkey, asl_remove_blocked}
use bi_kaya.Asl.Semaphores.{described, waiting, waiting-none, queue_at, asl_semd-find, found_key}
use bi_kaya.Asl.Remove.{Woken, waiting-some, asl_remove_blocked_lem}
use bi_kaya.Scheduler.{scheduler_enqueue_process}
use bi_kaya.Scheduler.Queues.{
  Queues, ByPriority-same, reset_priority, scheduler_enqueue_process_lem,
}
use bi_kaya.Scheduler.Block.{waiting-frame}
use bi_kaya.Syscalls.{wake, verhogen}

head-is_nil : (xs : List ℕ) → head? xs ≡ none → is_nil xs ≡ true
head-is_nil [] e = refl
head-is_nil (x ∷ xs) e = ground (arith, e)

-- The processes that wait for a key do not depend on the ready queue.
pub waiting-elsewhere :
    (k : Kernel) (qs qs' : ℕ → List ℕ) (key : ℕ)
    → ((h : ℕ) → h ≢ ready_queue → qs' h ≡ qs h)
    → waiting k qs' key ≡ waiting k qs key
unfolding waiting queue_at
waiting-elsewhere k qs qs' key same =
    rw (same asl (omega arith)) (go (find (λ j. k.s_keys j == key) (qs asl)))
  where
    go : (o : Option ℕ) → queue_at qs' o ≡ queue_at qs o
    go none = refl
    go (some j) = same (s_proc_q j) (omega arith)

module _ {live : ℕ → Bool} (k : Kernel) {qs : ℕ → List ℕ} (q : Queues live k qs) where
  waiting-inside : (key p : ℕ) → has p (waiting k qs key) ≡ true → p < max_proc
  unfolding waiting
  waiting-inside key p on = go (find (λ j. k.s_keys j == key) (qs asl)) refl on
    where
      go :
          (o : Option ℕ)
          → find (λ j. k.s_keys j == key) (qs asl) ≡ o
          → has p (queue_at qs o) ≡ true
          → p < max_proc
      go none e h = ground arith
      go (some j) e h =
          let (active, _) = found_key q.semaphores.descriptors j key e in
          q.semaphores.inside (s_proc_q j) p (q.semaphores.queues j (ground arith)) h

  -- `p` was the first in the queue of `key`; it is in the ready queue at its original priority.
  pub record Readied (key p : ℕ) (k' : Kernel) (qs' : ℕ → List ℕ) : Type 0 where
    pub first : head? (waiting k qs key) ≡ some p
    pub queues : Queues live k' qs'
    pub remaining : waiting k' qs' key ≡ tail (waiting k qs key)
    pub others : (o : ℕ) → o ≢ key → waiting k' qs' o ≡ waiting k qs o
    pub ready : qs' ready_queue ≡ insert_by (λ i. (k'.pcbs i).priority) p (qs ready_queue)
    pub elsewhere : (h : ℕ) → h % 8 ≢ 4 → h ≢ asl → h ≢ semd_free → h ≢ ready_queue → qs' h ≡ qs h
    pub kept : (i : ℕ) → described qs' i ≡ described qs i
    pub only : (h i : ℕ) → member h ≡ 0 → i ≢ p → has i (qs' h) ≡ has i (qs h)
    pub same : k' ≡ record k {
      links = k'.links;
      pcbs = put k.pcbs p (set_semkey null (reset_priority (k.pcbs p)));
    }

  erase_first : (p : ℕ) (xs : List ℕ) → head? xs ≡ some p → erase p xs ≡ tail xs
  erase_first p [] e = refl
  erase_first p (x ∷ xs) e = let same : x ≡ p = ground arith in rw (same, ==_refl p) refl

  has_first : (p : ℕ) (xs : List ℕ) → head? xs ≡ some p → has p xs ≡ true
  has_first p [] e = ground arith
  has_first p (x ∷ xs) e = ground arith

  -- The process that has been taken from its queue goes to the ready queue.
  pub scheduler_enqueue_process-Readied :
      (key p : ℕ) (k1 : Kernel)
      → head? (waiting k qs key) ≡ some p
      → Woken live k qs key p k1
      → Returns (λ _ k'. (qs' : ℕ → List ℕ) × Readied key p k' qs') (scheduler_enqueue_process p k1)
  scheduler_enqueue_process-Readied key p k1 first (qs1, left, same) =
      Returns-map _ _ (scheduler_enqueue_process p k1)
        (scheduler_enqueue_process_lem k1 p q1 left.gone
          (waiting-inside key p (has_first p _ first)))
        λ _ k' (qs', e). (
          qs',
          record {
            first = first;
            queues = e.queues;
            remaining =
                waiting-elsewhere k' qs1 qs' key e.others
                ∙ waiting-frame k1 k' qs1 key (ap (λ (m : Kernel). m.s_keys) e.same)
                ∙ left.remaining
                ∙ erase_first p (waiting k qs key) first;
            others = λ o ne.
                waiting-elsewhere k' qs1 qs' o e.others
                ∙ waiting-frame k1 k' qs1 o (ap (λ (m : Kernel). m.s_keys) e.same)
                ∙ left.others o ne;
            ready =
                e.ready
                ∙ ap (insert_by (λ i. (k'.pcbs i).priority) p)
                    (left.elsewhere ready_queue (omega arith) (omega arith) (omega arith));
            elsewhere = λ h a b c d. e.others h d ∙ left.elsewhere h a b c;
            kept = λ i. ground (
              arith,
              ap (has i) (e.others asl (omega arith)),
              ap (has i) (e.others semd_free (omega arith)),
              left.kept i,
            );
            only = λ h i via ne. elim (Bool-cases (h == ready_queue)) [
              | inl at_ready ↦
                  let same' : h ≡ ready_queue = ground arith in
                  rw same' (
                    ground (
                      arith,
                      ap (has i) e.ready,
                      has-insert_by (λ a. (k'.pcbs a).priority) i p (qs1 ready_queue),
                      left.only ready_queue i refl ne,
                    ))
              | inr other ↦ ap (has i) (e.others h (ground arith)) ∙ left.only h i via ne
            ];
            same =
                e.same
                ∙ ap {A = Kernel}
                    (λ m. record m {
                      links = k'.links;
                      pcbs = put m.pcbs p (reset_priority (m.pcbs p));
                    })
                    same
                ∙ ap {A = ℕ → Pcb} (λ f. record k { links = k'.links; pcbs = f })
                    (fun_ext λ i. twice i);
          },
        )
    where
      twice :
          (i : ℕ)
          → put
              (put k.pcbs p (set_semkey null (k.pcbs p)))
              p
              (reset_priority (put k.pcbs p (set_semkey null (k.pcbs p)) p))
              i
            ≡ put k.pcbs p (set_semkey null (reset_priority (k.pcbs p))) i
      twice i = ground arith

      q1 : Queues live k1 qs1
      q1 = record {
        semaphores = left.invariant;
        ready_live = q.ready_live;
        ordered = rw (left.elsewhere ready_queue (omega arith) (omega arith) (omega arith)) (
            ByPriority-same _ _ (qs ready_queue)
              (λ i on. ap (λ (m : Kernel). (m.pcbs i).priority) same ∙ ground arith) q.ordered);
      }

  -- The value of the semaphore is one more, or a process is ready.
  abbrev pub Raised : ℕ → Kernel → Type 0
  Raised semaddr k' =
      ((waiting k qs semaddr ≡ [])
        × (k' ≡ record k { words = put k.words semaddr ((k.words semaddr + 1) % word_size) }))
      ⊎ ((p : ℕ) × (qs' : ℕ → List ℕ) × Readied semaddr p k' qs')

  -- `verhogen` of a semaphore that is not `NULL`, with well-formed queues, returns. If nobody waits
  -- for the semaphore its value is one more, as a word, and nothing else is written. Otherwise the
  -- first process that waits for it leaves its queue and joins the ready queue at its original
  -- priority, behind the processes of that priority or a higher one; the processes that wait for other
  -- keys and the value of the semaphore are as before.
  pub verhogen-Raised :
      (semaddr : ℕ)
      → (semaddr == null) ≡ false
      → Returns (λ _ k'. Raised semaddr k') (verhogen semaddr k)
  unfolding verhogen wake
  verhogen-Raised semaddr there =
      rw (asl_semd-find q.semaphores.descriptors semaddr)
        (by_key (find (λ j. k.s_keys j == semaddr) (qs asl)) refl)
    where
      by_key :
          (o : Option ℕ)
          → find (λ j. k.s_keys j == semaddr) (qs asl) ≡ o
          → Returns (λ _ k'. Raised semaddr k') (wake semaddr o k)
      by_key none e = rw there (inl (waiting-none k qs semaddr e, refl))
      by_key (some j) e =
          Returns-bind _ _ (asl_remove_blocked semaddr k) _
            (asl_remove_blocked_lem k q.semaphores semaddr)
            λ o k1 (got, removed). elim removed [
              | inl (missing, _) ↦ ground (
                arith,
                head-is_nil (waiting k qs semaddr),
                sym got ∙ missing,
                ap is_nil (waiting-some k q.semaphores semaddr j e),
                q.semaphores.busy j (found_key q.semaphores.descriptors j semaddr e).0,
              )
              | inr (p, found, woken) ↦ Returns-deref _ o p k1 _ found (
                  Returns-map _ _ (scheduler_enqueue_process p k1)
                    (scheduler_enqueue_process-Readied semaddr p k1 (sym got ∙ found) woken)
                    λ _ k' (qs', r). inr (p, qs', r))
            ]
