-- ===== src/Scheduler/Release.antt =====
-- The end of `kill_tree` of src/scheduler.c: a process leaves its semaphore and the ready queue, and is free.
use bi_kaya.Base.{
  ℕ, ◌%◌, ◌<◌, ◌≡◌, refl, ap, ◌∙◌, inl, inr, Bool, false, List, ◌∷◌, arith, has, erase, has-erase,
}
use bi_kaya.ListX.{put, list_add}
use bi_kaya.Types.{max_proc, slot, p_next, p_sib, pcb_free_head, ready_queue}
use bi_kaya.Types.Lists.{IsOff, distinct, list_add-Lists}
use bi_kaya.Types.Siblings.{list_add-sibs}
use bi_kaya.Machine.{Kernel, Cmd, Returns, Returns-bind, SameButLinks, ◌>>◌}
use bi_kaya.Pcb.{pcb_find_and_remove, pcb_free}
use bi_kaya.Asl.{asl_find_and_remove_blocked}
use bi_kaya.Asl.Semaphores.{waiting}
use bi_kaya.Scheduler.Tables.{waiting_same, Tables, Tables-put, ByPriority-erase}
use bi_kaya.Scheduler.Withdraw.{
  Away, asl_find_and_remove_blocked-Away, unready, pcb_find_and_remove-unready, unready-Lists,
  unready-sibs,
}

-- `c` is the first of the free list, and in no other queue.
pub record Released (live : ℕ → Bool) (k : Kernel) (qs : ℕ → List ℕ) (c : ℕ) (k' : Kernel)
    (qs' : ℕ → List ℕ) : Type 0 where
  pub tables : Tables live k' qs'
  pub free : qs' pcb_free_head ≡ c ∷ qs pcb_free_head
  pub ready : qs' ready_queue ≡ erase c (qs ready_queue)
  pub waits : (key : ℕ) → waiting k' qs' key ≡ erase c (waiting k qs key)
  pub children : (h : ℕ) → h % 8 ≡ 1 → qs' h ≡ qs h
  pub sibs : (i : ℕ) → k'.links.next (p_sib i) ≡ k.links.next (p_sib i)
  pub same : SameButLinks k k'

module _ {live : ℕ → Bool} (k : Kernel) {qs : ℕ → List ℕ} (c : ℕ) (inside : c < max_proc)
    (taken : has c (qs pcb_free_head) ≡ false) (k1 : Kernel) (qs1 : ℕ → List ℕ)
    (a : Away live k qs c k1 qs1) where
  abbrev without : ℕ → List ℕ
  without = put qs1 ready_queue (erase c (qs1 ready_queue))

  abbrev k2 : Kernel
  k2 = record k1 { links = unready k1 a.tables c }

  t2 : Tables live k2 without
  t2 =
      Tables-put a.tables k2 ready_queue (erase c (qs1 ready_queue)) (omega arith) (omega arith)
        (omega arith) (unready-Lists k1 a.tables c)
        (λ i on. a.tables.queues.semaphores.inside ready_queue i a.tables.queues.ready_live (
          ground (
            arith,
            has-erase i c (qs1 ready_queue)
                (distinct a.tables.queues.semaphores.lists ready_queue a.tables.queues.ready_live),
          )))
        refl (λ i. (refl, refl)) (ByPriority-erase _ c (qs1 ready_queue) a.tables.queues.ordered)

  off : IsOff live without 0 c
  off h at via = elim (a.tables.places h at via) [
    | inl at_ready ↦ rw at_ready (
        ground (
          arith,
          has-erase c c (qs1 ready_queue)
              (distinct a.tables.queues.semaphores.lists ready_queue a.tables.queues.ready_live),
        ))
    | inr (inl at_free) ↦
        rw at_free
          (ap (has c) (a.elsewhere pcb_free_head (omega arith) (omega arith) (omega arith)) ∙ taken)
    | inr (inr (j, at_sem, lt)) ↦ ground (arith, a.gone j, at_sem, at)
  ]

  abbrev freed : ℕ → List ℕ
  freed = put without pcb_free_head (c ∷ qs1 pcb_free_head)

  abbrev k3 : Kernel
  k3 = record k2 { links = list_add k2.links (p_next c) pcb_free_head }

  t3 : Tables live k3 freed
  t3 =
      let place : slot pcb_free_head c ≡ p_next c = omega arith in
      Tables-put t2 k3 pcb_free_head (c ∷ qs1 pcb_free_head) (omega arith) (omega arith)
        (omega arith)
        (rw place at (list_add-Lists t2.queues.semaphores.lists pcb_free_head c t2.free_live off))
        (λ i on.
          ground
            (arith, inside, a.tables.queues.semaphores.inside pcb_free_head i a.tables.free_live))
        refl (λ i. (refl, refl)) t2.queues.ordered

  freed-Released : Released live k qs c k3 freed
  freed-Released = record {
    tables = t3;
    free = ap (◌∷◌ c) (a.elsewhere pcb_free_head (omega arith) (omega arith) (omega arith));
    ready = ap (erase c) (a.elsewhere ready_queue (omega arith) (omega arith) (omega arith));
    waits = λ key.
        waiting_same k1 k3 qs1 freed key refl (ground arith) (λ j. ground arith) ∙ a.waits key;
    children = λ h kind. ground (arith, a.elsewhere h);
    sibs = λ i.
        list_add-sibs k2.links (p_next c) pcb_free_head i (omega arith) (omega arith)
        ∙ unready-sibs k1 a.tables c i
        ∙ a.sibs i;
    same = ap (λ (n : Kernel). record n { links = k3.links }) a.same;
  }

-- The last three calls of `kill_tree c`.
abbrev pub release : ℕ → Cmd (Unit {0})
release c = do asl_find_and_remove_blocked c; pcb_find_and_remove ready_queue c; pcb_free c

pub release-Released :
    {live : ℕ → Bool} (k : Kernel) {qs : ℕ → List ℕ} (c : ℕ)
    → Tables live k qs
    → c < max_proc
    → has c (qs pcb_free_head) ≡ false
    → Returns (λ _ k'. (qs' : ℕ → List ℕ) × Released live k qs c k' qs') (release c k)
unfolding pcb_free
release-Released {live} k {qs} c t inside taken =
    Returns-bind _ _ (asl_find_and_remove_blocked c k) _ (asl_find_and_remove_blocked-Away k t c)
      λ _ k1 (qs1, a).
        rw (pcb_find_and_remove-unready k1 a.tables c)
          (freed k c inside taken k1 qs1 a, freed-Released k c inside taken k1 qs1 a)
