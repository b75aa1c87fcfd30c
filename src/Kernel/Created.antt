-- ===== src/Kernel/Created.antt =====
-- What `create_process` of src/syscalls.c makes of a sound kernel.
use bi_kaya.Base.{ℕ, ◌≡◌, ◌≢◌, ◌⊎◌, Bool, some, List, [], ◌∷◌, ◌++◌, ◌==◌, if◌then◌else◌}
use bi_kaya.ListX.{put}
use bi_kaya.Types.{null, p_child, pcb_free_head, ready_queue}
use bi_kaya.Machine.{Kernel}
use bi_kaya.Pcb.{zero_pcb}
use bi_kaya.Pcb.Insert.{insert_by}
use bi_kaya.Syscalls.{pid_word, syscall_success, syscall_failure}
use bi_kaya.Kernel.Alloc.{alloc_live}
use bi_kaya.Kernel.Sound.{Sound}

-- `p`, the first free process, is the last child of `c` and is ready, with the state and the priority that
-- were given.
pub record Created (live : ℕ → Bool) (k : Kernel) (qs : ℕ → List ℕ) (state priority cpid c p : ℕ)
    (ps : List ℕ) (k' : Kernel) (qs' : ℕ → List ℕ) : Type 0 where
  pub sound : Sound (alloc_live live p) k' qs'
  pub free : qs' pcb_free_head ≡ ps
  pub ready : qs' ready_queue ≡ insert_by (λ i. (k'.pcbs i).priority) p (qs ready_queue)
  pub siblings : qs' (p_child c) ≡ qs (p_child c) ++ p ∷ []
  pub childless : qs' (p_child p) ≡ []
  pub lists :
      (h : ℕ) → h ≢ pcb_free_head → h ≢ ready_queue → h ≢ p_child c → h ≢ p_child p → qs' h ≡ qs h
  pub created : k'.pcbs p ≡ record zero_pcb {
    p_s = k.states state;
    original_priority = priority;
    priority = priority;
    p_parent = some c;
  }
  pub others : (i : ℕ) → i ≢ p → k'.pcbs i ≡ k.pcbs i
  pub words : k'.words ≡ (if cpid == null then k.words else put k.words cpid (pid_word (some p)))
  pub current : k'.current_proc ≡ k.current_proc

-- There is no free process, or the first is created.
abbrev pub CreatedOrFull :
    (live : ℕ → Bool) → Kernel → (ℕ → List ℕ) → (state priority cpid c r : ℕ) → Kernel → Type 0
CreatedOrFull live k qs state priority cpid c r k' =
    ((qs pcb_free_head ≡ []) × (r ≡ syscall_failure) × (k' ≡ k))
    ⊎ ((r ≡ syscall_success)
        × ((p : ℕ) × (ps : List ℕ) × (qs' : ℕ → List ℕ) × (qs pcb_free_head ≡ p ∷ ps)
            × Created live k qs state priority cpid c p ps k' qs'))
