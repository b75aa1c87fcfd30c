-- ===== src/Kernel/First.antt =====
-- `scheduler_init` of src/scheduler.c: the first process.
use bi_kaya.Base.{
  ℕ, ◌+◌, ◌-◌, ◌%◌, ◌≡◌, refl, ap, ◌∙◌, Bool, true, List, ◌∷◌, arith, has, ==_refl, ◌≢◌, none,
}
use bi_kaya.ListX.{put}
use bi_kaya.Types.{
  StateT, Pcb, word_size, default_priority, pcb_free_head, ready_queue, semd_free, asl,
}
use bi_kaya.Types.Lists.{IsOff}
use bi_kaya.Machine.{Kernel, Returns, Returns-map, Returns-bind, Returns-deref}
use bi_kaya.Umps.{ram_top, frame_size, set_sp}
use bi_kaya.Pcb.{zero_pcb, pcb_alloc}
use bi_kaya.Pcb.Insert.{insert_by}
use bi_kaya.Asl.Semaphores.{described}
use bi_kaya.Scheduler.{set_state, kernel_status, scheduler_init, scheduler_enqueue_process}
use bi_kaya.Scheduler.Queues.{Queues, Queues-frame, scheduler_enqueue_process_lem}
use bi_kaya.Kernel.Alloc.{alloc_live, alloc_lists, alloc-IsOff, same_ready, pcb_alloc-Queues}

-- The state in which the process at `code` starts.
abbrev pub first_state : Kernel → (cpu : StateT) (code : ℕ) → StateT
first_state k cpu code =
    kernel_status
      (record (set_sp ((ram_top k + word_size - frame_size) % word_size) cpu) { pc_epc = code })

-- `p` alone has left the free list and is ready to run from that state, with the default priority.
pub record Started (live : ℕ → Bool) (k : Kernel) (qs : ℕ → List ℕ) (p : ℕ) (ps : List ℕ)
    (s : StateT) (k' : Kernel) : Type 0 where
  pub qs' : ℕ → List ℕ
  pub queues : Queues (alloc_live live p) k' qs'
  pub ready : qs' ready_queue ≡ insert_by (λ i. (k'.pcbs i).priority) p (qs ready_queue)
  pub kept : (j : ℕ) → described qs' j ≡ described qs j
  pub lists : (h : ℕ) → h ≢ ready_queue → qs' h ≡ alloc_lists qs p ps h
  pub state : (k'.pcbs p).p_s ≡ s
  pub priority : (k'.pcbs p).original_priority ≡ default_priority
  pub states : k'.states ≡ k.states
  pub parent : (k'.pcbs p).p_parent ≡ none

module _ {live : ℕ → Bool} (k : Kernel) {qs : ℕ → List ℕ} (q : Queues live k qs) (p : ℕ)
    (ps : List ℕ) (at : live pcb_free_head ≡ true) (whole : qs pcb_free_head ≡ p ∷ ps)
    (off : IsOff live qs 2 p) where
  pub scheduler_init-Started :
      (idle_cpu cpu : StateT) (idle_code code : ℕ)
      → Returns
          (λ _ k'. Started live k qs p ps (first_state k cpu code) k')
          (scheduler_init idle_cpu cpu idle_code code k)
  unfolding scheduler_init ram_top
  scheduler_init-Started idle_cpu cpu idle_code code =
      Returns-bind _ _ (pcb_alloc m) _ (pcb_alloc-Queues m idle_kept p ps at whole off)
        λ o k1 (got, q1, same). Returns-deref _ o p k1 _ got (started k1 q1 same)
    where
      m : Kernel
      m = record k { idle_proc_state = kernel_status (record idle_cpu { pc_epc = idle_code }) }

      idle_kept : Queues live m qs
      idle_kept = Queues-frame m q refl refl λ i. (refl, refl)

      same_top :
          (k1 : Kernel)
          → k1 ≡ record m { links = k1.links; pcbs = put m.pcbs p zero_pcb }
          → first_state k1 cpu code ≡ first_state k cpu code
      same_top k1 same =
          ap (λ (ws : ℕ → ℕ). first_state (record k { words = ws }) cpu code)
            (ap (λ (n : Kernel). n.words) same)

      stored : Kernel → ℕ → Pcb
      stored k1 = put k1.pcbs p (set_state (first_state k1 cpu code) (k1.pcbs p))

      prepared : Kernel → Kernel
      prepared k1 = record k1 {
        pcbs = put (stored k1) p (record (stored k1 p) { original_priority = default_priority });
      }

      started :
          (k1 : Kernel)
          → Queues (alloc_live live p) k1 (alloc_lists qs p ps)
          → k1 ≡ record m { links = k1.links; pcbs = put m.pcbs p zero_pcb }
          → Returns
              (λ _ k'. Started live k qs p ps (first_state k cpu code) k')
              (scheduler_enqueue_process p (prepared k1))
      started k1 q1 same =
          Returns-map _ _ (scheduler_enqueue_process p (prepared k1))
            (scheduler_enqueue_process_lem (prepared k1) p
              (Queues-frame (prepared k1) q1 refl refl λ i. (ground arith, ground arith))
              (alloc-IsOff m idle_kept p ps at whole)
              (q.semaphores.inside pcb_free_head p at (rw whole (ground arith))))
            λ _ k' (qs', e). record {
              qs' = qs';
              queues = e.queues;
              ready =
                  e.ready
                  ∙ ap (insert_by (λ i. (k'.pcbs i).priority) p)
                      (same_ready m idle_kept p ps at whole);
              kept = λ j. ground (
                arith,
                ap (has j) (e.others asl (omega arith)),
                ap (has j) (e.others semd_free (omega arith)),
              );
              lists = e.others;
              state = rw (ap (λ (n : Kernel). n.pcbs) e.same, ==_refl p) (same_top k1 same);
              priority = rw (ap (λ (n : Kernel). n.pcbs) e.same, ==_refl p) refl;
              states = ap (λ (n : Kernel). n.states) e.same ∙ ap (λ (n : Kernel). n.states) same;
              parent =
                  rw (ap (λ (n : Kernel). n.pcbs) e.same, ==_refl p)
                    (ap (λ (n : Kernel). (n.pcbs p).p_parent) same ∙ rw (==_refl p) refl);
            }
