-- ===== src/Kernel/Alloc.antt =====
-- `pcb_alloc` of src/pcb.c with the queues well-formed: the new process is in no queue, and they are
-- well-formed still.
use bi_kaya.Base.{
  ℕ, ◌≡◌, ◌≢◌, ap, subst, Bool, true, false, ◌||◌, some, List, [], ◌∷◌, arith, ◌==◌, has, Distinct,
}
use bi_kaya.ListX.{put}
use bi_kaya.Types.{p_child, pcb_free_head, ready_queue, s_proc_q, asl}
use bi_kaya.Types.Lists.{Lists, IsOff, distinct, apart}
use bi_kaya.Machine.{Kernel, Returns, Returns-map}
use bi_kaya.Pcb.{zero_pcb, pcb_alloc}
use bi_kaya.Pcb.Free.{pcb_alloc-some}
use bi_kaya.Scheduler.Queues.{Queues, ByPriority-same}

-- The list of children of `p` is a list now.
abbrev pub alloc_live : (ℕ → Bool) → ℕ → ℕ → Bool
alloc_live live p h = h == p_child p || live h

abbrev pub alloc_lists : (ℕ → List ℕ) → ℕ → List ℕ → ℕ → List ℕ
alloc_lists qs p ps = put (put qs pcb_free_head ps) (p_child p) []

module _ {live : ℕ → Bool} (k : Kernel) {qs : ℕ → List ℕ} (q : Queues live k qs) (p : ℕ)
    (ps : List ℕ) (at : live pcb_free_head ≡ true) (whole : qs pcb_free_head ≡ p ∷ ps) where
  on : has p (qs pcb_free_head) ≡ true
  on = rw whole (ground arith)

  pub not_left : has p ps ≡ false
  not_left =
      let d : Distinct (p ∷ ps) =
        subst Distinct whole (distinct q.semaphores.lists pcb_free_head at) in
      d.0

  pub alloc-IsOff : IsOff (alloc_live live p) (alloc_lists qs p ps) 0 p
  alloc-IsOff h e via = ground (arith, not_left, apart q.semaphores.lists h pcb_free_head p)

  was_in :
      (h i : ℕ) → has i ((alloc_lists qs p ps) h) ≡ true → (has i (qs h) ≡ true) × (h ≢ p_child p)
  was_in h i a = ground (arith, ap (has i) whole)

  same_at : (h : ℕ) → h ≢ p_child p → h ≢ pcb_free_head → (alloc_lists qs p ps) h ≡ qs h
  same_at h a b = ground arith

  pub same_asl : (alloc_lists qs p ps) asl ≡ qs asl
  same_asl = same_at asl (omega arith) (omega arith)

  pub same_ready : (alloc_lists qs p ps) ready_queue ≡ qs ready_queue
  same_ready = same_at ready_queue (omega arith) (omega arith)

  alloc-Queues :
      (k' : Kernel)
      → Lists (alloc_live live p) k'.links (alloc_lists qs p ps)
      → k'.s_keys ≡ k.s_keys
      → k'.pcbs ≡ put k.pcbs p zero_pcb
      → Queues (alloc_live live p) k' (alloc_lists qs p ps)
  alloc-Queues k' r keys pcbs = record {
    semaphores = record {
      descriptors = record {
        lists = r;
        inside = λ h i e a. ground (arith, was_in h i a, q.semaphores.inside h i);
        asl_live = ground (arith, q.semaphores.asl_live);
        free_live = ground (arith, q.semaphores.free_live);
        queues = λ j a. ground (arith, q.semaphores.queues j);
        idle = λ j a. ground (arith, q.semaphores.idle j);
        keyed = λ i j a b e.
            q.semaphores.keyed i j (rw same_asl at a) (rw same_asl at b) (rw keys at e);
        blocked = λ j i a b.
            rw (keys, pcbs)
              (ground (
                arith,
                q.semaphores.blocked j i (rw same_asl at a),
                apart q.semaphores.lists (s_proc_q j) pcb_free_head p
                    (q.semaphores.queues j (ground arith)) at,
              ));
      };
      busy = λ j a. ground (arith, q.semaphores.busy j (rw same_asl at a));
    };
    ready_live = ground (arith, q.ready_live);
    ordered = rw same_ready (
        ByPriority-same _ _ (qs ready_queue)
          (λ i a.
            rw pcbs (
              ground (arith, apart q.semaphores.lists ready_queue pcb_free_head p q.ready_live at)))
          q.ordered);
  }

  pub pcb_alloc-Queues :
      IsOff live qs 2 p
      → Returns
          (λ o k'.
            (o ≡ some p)
            × Queues (alloc_live live p) k' (alloc_lists qs p ps)
            × (k' ≡ record k { links = k'.links; pcbs = put k.pcbs p zero_pcb }))
          (pcb_alloc k)
  pcb_alloc-Queues off =
      Returns-map _ _ (pcb_alloc k) (pcb_alloc-some k q.semaphores.lists p ps at whole off)
        λ o k' (got, r, same). (
          got,
          alloc-Queues k' r (ap (λ (m : Kernel). m.s_keys) same) (ap (λ (m : Kernel). m.pcbs) same),
          same,
        )
