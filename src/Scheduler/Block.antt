-- ===== src/Scheduler/Block.antt =====
-- `scheduler_block_current` of src/scheduler.c, and what waking and blocking mean for the queues.
use bi_kaya.Base.{
  ℕ, ◌%◌, ◌<◌, ◌≡◌, ◌≢◌, refl, ap, sym, ◌∙◌, fun_ext, inl, inr, ◌⊎◌, Bool, true, false, none, some,
  List, [], arith, ◌==◌, find, has,
}
use bi_kaya.ListX.{put}
use bi_kaya.Types.{member, StateT, max_proc, null, ready_queue, semd_free, asl}
use bi_kaya.Types.Lists.{IsOff}
use bi_kaya.Machine.{Kernel, Returns, Returns-bind, Returns-map, Returns-deref}
use bi_kaya.Umps.{load_state}
use bi_kaya.Pcb.Insert.{insert_by}
use bi_kaya.Asl.{asl_insert_blocked}
use bi_kaya.Asl.Semaphores.{described, waiting, queue_at}
use bi_kaya.Asl.Join.{Joined}
use bi_kaya.Asl.Insert.{Inserted, asl_insert_blocked_lem}
use bi_kaya.Scheduler.{set_state, scheduler_account_time, scheduler_block_current}
use bi_kaya.Scheduler.Queues.{Queues, Queues-frame, ByPriority-same}
use bi_kaya.Scheduler.Resume.{account}
use bi_kaya.Scheduler.Time.{Accounted, Accounted-SameButClock, scheduler_account_time-Accounted}

-- The processes waiting for a key depend on the keys of the descriptors.
pub waiting-frame :
    (k k' : Kernel) (qs : ℕ → List ℕ) (key : ℕ)
    → k'.s_keys ≡ k.s_keys
    → waiting k' qs key ≡ waiting k qs key
unfolding waiting
waiting-frame k k' qs key e =
    ap (λ (keys : ℕ → ℕ). queue_at qs (find (λ j. keys j == key) (qs asl))) e

pub Joined-Queues :
    {live : ℕ → Bool} (k : Kernel) {qs : ℕ → List ℕ} (key p : ℕ) (k' : Kernel) (qs' : ℕ → List ℕ)
    → Queues live k qs
    → Joined live k qs key p k' qs'
    → Queues live k' qs'
Joined-Queues k {qs} key p k' qs' q j = record {
  semaphores = j.invariant;
  ready_live = q.ready_live;
  ordered =
      rw (j.elsewhere ready_queue (omega arith) (omega arith) (omega arith))
        (ByPriority-same _ _ (qs ready_queue) (λ i on. rw j.stamped (ground arith)) q.ordered);
}

-- The current process waits for `key` with the state `s`, and nobody is current.
pub record Blocked (live : ℕ → Bool) (k : Kernel) (qs : ℕ → List ℕ) (key p : ℕ) (s : StateT)
    (k' : Kernel) (qs' : ℕ → List ℕ) : Type 0 where
  pub queues : Queues live k' qs'
  pub joined : waiting k' qs' key ≡ insert_by (λ i. (k.pcbs i).priority) p (waiting k qs key)
  pub others : (o : ℕ) → o ≢ key → waiting k' qs' o ≡ waiting k qs o
  pub elsewhere : (h : ℕ) → h % 8 ≢ 4 → h ≢ asl → h ≢ semd_free → qs' h ≡ qs h
  pub words : k'.words ≡ k.words
  pub levels :
      (i : ℕ)
      → ((k'.pcbs i).priority ≡ (k.pcbs i).priority)
        × ((k'.pcbs i).original_priority ≡ (k.pcbs i).original_priority)
  pub parents : (i : ℕ) → (k'.pcbs i).p_parent ≡ (k.pcbs i).p_parent
  pub kept : (i : ℕ) → described qs' i ≡ described qs i
  pub only : (h i : ℕ) → member h ≡ 0 → i ≢ p → has i (qs' h) ≡ has i (qs h)
  pub state : (k'.pcbs p).p_s ≡ s
  pub current : k'.current_proc ≡ none

-- Without a descriptor the process is dropped: nobody is current, and it waits nowhere.
abbrev pub BlockedOrDropped : (ℕ → Bool) → Kernel → (ℕ → List ℕ) → ℕ → ℕ → StateT → Kernel → Type 0
BlockedOrDropped live k qs key p s k' =
    ((waiting k qs key ≡ []) × (qs semd_free ≡ []) × Queues live k' qs × (k'.current_proc ≡ none))
    ⊎ ((qs' : ℕ → List ℕ) × Blocked live k qs key p s k' qs')

module _ {live : ℕ → Bool} (k : Kernel) {qs : ℕ → List ℕ} (q : Queues live k qs) where
  abbrev stored : ℕ → StateT → Kernel
  stored p s = record k { pcbs = put k.pcbs p (set_state s (k.pcbs p)) }

  stored-Queues : (p : ℕ) (s : StateT) → Queues live (stored p s) qs
  stored-Queues p s = Queues-frame (stored p s) q refl refl λ i. (ground arith, ground arith)

  block :
      (key p : ℕ) (s : StateT) (k1 : Kernel)
      → Accounted true (stored p s) k1
      → Queues live k1 qs
      → IsOff live qs 0 p
      → p < max_proc
      → Returns
          (λ _ k'. BlockedOrDropped live k qs key p s (record k' { current_proc = none }))
          (asl_insert_blocked key p k1)
  block key p s k1 a q1 off inside =
      Returns-map _ _ (asl_insert_blocked key p k1)
        (asl_insert_blocked_lem k1 key p q1.semaphores off inside) λ failed k'. go failed k'
    where
      keys : k1.s_keys ≡ k.s_keys
      keys = ap (λ (m : Kernel). m.s_keys) a.same

      priorities : (i : ℕ) → (k1.pcbs i).priority ≡ (k.pcbs i).priority
      priorities i = (Accounted-SameButClock true (stored p s) k1 a i).priority ∙ ground arith

      go :
          (failed : Bool) (k' : Kernel)
          → Inserted live k1 qs key p failed k'
          → BlockedOrDropped live k qs key p s (record k' { current_proc = none })
      go failed k' (inl (_, same, empty, free)) = inl (
        sym (waiting-frame k k1 qs key keys) ∙ empty,
        free,
        Queues-frame _ q1 (ap (λ (m : Kernel). m.links) same) (ap (λ (m : Kernel). m.s_keys) same)
            (λ i. (
              ap (λ (m : Kernel). (m.pcbs i).p_semkey) same,
              ap (λ (m : Kernel). (m.pcbs i).priority) same,
            )),
        refl,
      )
      go failed k' (inr (qs', _, j)) = inr (
        qs',
        record {
          queues = Queues-frame _ (Joined-Queues k1 key p k' qs' q1 j) refl refl λ i. (refl, refl);
          joined =
              waiting-frame k' _ qs' key refl
              ∙ j.joined
              ∙ rw (waiting-frame k k1 qs key keys)
                  (ap (λ f. insert_by f p (waiting k qs key)) (fun_ext priorities));
          others =
              λ o ne. waiting-frame k' _ qs' o refl ∙ j.others o ne ∙ waiting-frame k k1 qs o keys;
          elsewhere = j.elsewhere;
          words = j.words ∙ ap (λ (m : Kernel). m.words) a.same;
          levels = λ i. rw j.stamped (
              ground (
                arith,
                priorities i,
                (Accounted-SameButClock true (stored p s) k1 a i).original_priority,
              ));
          parents = λ i.
              rw j.stamped
                (ground (arith, (Accounted-SameButClock true (stored p s) k1 a i).p_parent));
          kept = j.kept;
          only = j.only;
          state =
              rw j.stamped (ground (arith, (Accounted-SameButClock true (stored p s) k1 a p).p_s));
          current = refl;
        },
      )

  -- `scheduler_block_current key a` with well-formed queues, `p` being the current process, an entry of
  -- the table and in no queue, and `a` not `NULL`, returns. `p` joins the queue of `key` by its
  -- priority with the state at `a`; the queues of the other keys, the ready queue, the free list and
  -- the process tree are as before, the queues are well-formed again, and no process is current. If the
  -- key has no descriptor and none is free, no process is current either, but `p` is in no queue.
  pub scheduler_block_current_lem :
      (key a p : ℕ)
      → k.current_proc ≡ some p
      → (a == null) ≡ false
      → IsOff live qs 0 p
      → p < max_proc
      → Returns
          (λ _ k'. BlockedOrDropped live k qs key p (k.states a) k')
          (scheduler_block_current key a k)
  unfolding scheduler_block_current load_state
  scheduler_block_current_lem key a p e there off inside = Returns-deref _ k.current_proc p k _ e (
      rw there (
        Returns-bind _ _ (scheduler_account_time true m) _ (scheduler_account_time-Accounted true m)
          λ _ k1 done.
            Returns-deref _ k1.current_proc p k1 _
              (ap (λ (n : Kernel). n.current_proc) done.same ∙ e)
              (Returns-bind _ _ (asl_insert_blocked key p k1) _
                (block key p (k.states a) k1 done (accounted k1 done) off inside) λ _ k2 b. b)))
    where
      m : Kernel
      m = stored p (k.states a)

      accounted : (k1 : Kernel) → Accounted true m k1 → Queues live k1 qs
      accounted k1 done = account m (stored-Queues p (k.states a)) k1 done
