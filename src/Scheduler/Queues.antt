-- ===== src/Scheduler/Queues.antt =====
-- The invariant of the process queues that src/scheduler.c works on, and the ready queue.
use bi_kaya.Base.{
  ℕ, ◌<◌, ◌≤◌, ◌≡◌, ◌≢◌, refl, ap, ◌∙◌, Bool, true, List, [], ◌∷◌, arith, has, All-has, All-of_has,
}
use bi_kaya.ListX.{put}
use bi_kaya.Types.{Pcb, max_proc, rank, ready_queue}
use bi_kaya.Types.Lists.{Lists, IsOff}
use bi_kaya.Machine.{Kernel, Returns, Returns-map}
use bi_kaya.Pcb.{pcb_insert_in_queue}
use bi_kaya.Pcb.Insert.{insert_by, has-insert_by, pcb_insert_in_queue-insert_by}
use bi_kaya.Pcb.Order.{ByPriority, insert_by-ByPriority}
use bi_kaya.Asl.Semaphores.{Semaphores, short}
use bi_kaya.Scheduler.{scheduler_enqueue_process}

-- The semaphores are well-formed, and the ready queue is ordered.
pub record Queues (live : ℕ → Bool) (k : Kernel) (qs : ℕ → List ℕ) : Type 0 where
  pub semaphores : Semaphores live k qs
  pub ready_live : live ready_queue ≡ true
  pub ordered : ByPriority (λ i. (k.pcbs i).priority) (qs ready_queue)

-- The semaphores do not depend on the ready queue, nor on what a process has but its key.
pub Semaphores-ready :
    {live : ℕ → Bool} {k : Kernel} {qs : ℕ → List ℕ} (k' : Kernel) (xs : List ℕ)
    → Semaphores live k qs
    → Lists live k'.links (put qs ready_queue xs)
    → ((i : ℕ) → has i xs ≡ true → i < max_proc)
    → k'.s_keys ≡ k.s_keys
    → ((i : ℕ) → (k'.pcbs i).p_semkey ≡ (k.pcbs i).p_semkey)
    → Semaphores live k' (put qs ready_queue xs)
Semaphores-ready k' xs s r inside keys semkeys = record {
  descriptors = record {
    lists = r;
    inside = λ h i at on. ground (arith, s.inside h i at, inside i);
    asl_live = s.asl_live;
    free_live = s.free_live;
    queues = s.queues;
    idle = λ j on. ground (arith, s.idle j on);
    keyed = λ i j a b e. s.keyed i j a b (rw keys at e);
    blocked = λ j i a b. rw keys (semkeys i ∙ s.blocked j i a (ground arith));
  };
  busy = λ j on. ground (arith, s.busy j on);
}

-- So writes to other fields change nothing.
pub Semaphores-frame :
    {live : ℕ → Bool} {k : Kernel} {qs : ℕ → List ℕ} (k' : Kernel)
    → Semaphores live k qs
    → k'.links ≡ k.links
    → k'.s_keys ≡ k.s_keys
    → ((i : ℕ) → (k'.pcbs i).p_semkey ≡ (k.pcbs i).p_semkey)
    → Semaphores live k' qs
Semaphores-frame {live} {qs} k' s links keys semkeys = record {
  descriptors = record {
    lists = rw links s.lists;
    inside = s.inside;
    asl_live = s.asl_live;
    free_live = s.free_live;
    queues = s.queues;
    idle = s.idle;
    keyed = λ i j a b e. s.keyed i j a b (rw keys at e);
    blocked = λ j i a b. rw keys (semkeys i ∙ s.blocked j i a b);
  };
  busy = s.busy;
}

pub ByPriority-same :
    (f g : ℕ → ℕ) (xs : List ℕ)
    → ((i : ℕ) → has i xs ≡ true → f i ≡ g i)
    → ByPriority g xs
    → ByPriority f xs
ByPriority-same f g [] same s = tt
ByPriority-same f g (x ∷ xs) same s = (
  All-of_has (λ y. rank (f y) ≤ rank (f x)) xs
      (λ y on.
        rw (same y (ground arith), same x (ground arith))
          (All-has (λ y. rank (g y) ≤ rank (g x)) y xs s.0 on)),
  ByPriority-same f g xs (λ i on. same i (ground arith)) s.1,
)

-- Writes to fields other than the priorities and the keys.
pub Queues-frame :
    {live : ℕ → Bool} {k : Kernel} {qs : ℕ → List ℕ} (k' : Kernel)
    → Queues live k qs
    → k'.links ≡ k.links
    → k'.s_keys ≡ k.s_keys
    → ((i : ℕ)
        → ((k'.pcbs i).p_semkey ≡ (k.pcbs i).p_semkey)
          × ((k'.pcbs i).priority ≡ (k.pcbs i).priority))
    → Queues live k' qs
Queues-frame k' q links keys same = record {
  semaphores = Semaphores-frame k' q.semaphores links keys (λ i. (same i).0);
  ready_live = q.ready_live;
  ordered = ByPriority-same _ _ _ (λ i on. (same i).1) q.ordered;
}

abbrev pub reset_priority : Pcb → Pcb
reset_priority b = record b { priority = b.original_priority }

-- `p` has joined the ready queue at its original priority.
pub record Enqueued (live : ℕ → Bool) (k : Kernel) (qs : ℕ → List ℕ) (p : ℕ) (k' : Kernel)
    (qs' : ℕ → List ℕ) : Type 0 where
  pub queues : Queues live k' qs'
  pub ready : qs' ready_queue ≡ insert_by (λ i. (k'.pcbs i).priority) p (qs ready_queue)
  pub others : (h : ℕ) → h ≢ ready_queue → qs' h ≡ qs h
  pub same : k' ≡ record k { links = k'.links; pcbs = put k.pcbs p (reset_priority (k.pcbs p)) }

-- `scheduler_enqueue_process`, for a process of the table that is in no queue and with the queues
-- well-formed, returns: the process has its original priority and stands in the ready queue behind
-- the processes of that priority or a higher one, the other lists stay as they are, the queues are
-- well-formed again, and nothing else is written.
pub scheduler_enqueue_process_lem :
    {live : ℕ → Bool} (k : Kernel) {qs : ℕ → List ℕ} (p : ℕ)
    → Queues live k qs
    → IsOff live qs 0 p
    → p < max_proc
    → Returns
        (λ _ k'. (qs' : ℕ → List ℕ) × Enqueued live k qs p k' qs')
        (scheduler_enqueue_process p k)
unfolding scheduler_enqueue_process
scheduler_enqueue_process_lem {live} k {qs} p q off inside =
    Returns-map _ _ (pcb_insert_in_queue ready_queue p m)
      (pcb_insert_in_queue-insert_by m q.semaphores.lists ready_queue p q.ready_live refl off
        (short q.semaphores.descriptors ready_queue q.ready_live))
      λ _ k' (lists, same). (
        put qs ready_queue xs,
        record {
          queues = record {
            semaphores =
                Semaphores-ready k' xs q.semaphores lists
                  (λ i on. ground (
                    arith,
                    has-insert_by priority i p (qs ready_queue),
                    q.semaphores.inside ready_queue i q.ready_live,
                  ))
                  (ap (λ (n : Kernel). n.s_keys) same)
                  (λ i. ap (λ (n : Kernel). (n.pcbs i).p_semkey) same ∙ ground arith);
            ready_live = q.ready_live;
            ordered =
                rw (ap (λ (n : Kernel). n.pcbs) same)
                  (insert_by-ByPriority priority p (qs ready_queue) before);
          };
          ready = rw (ap (λ (n : Kernel). n.pcbs) same) refl;
          others = λ h ne. ground arith;
          same = same;
        },
      )
  where
    m : Kernel
    m = record k { pcbs = put k.pcbs p (reset_priority (k.pcbs p)) }

    priority : ℕ → ℕ
    priority i = (m.pcbs i).priority

    xs : List ℕ
    xs = insert_by priority p (qs ready_queue)

    before : ByPriority priority (qs ready_queue)
    before =
        ByPriority-same _ _ (qs ready_queue)
          (λ i on. ground (arith, off ready_queue q.ready_live refl)) q.ordered
