-- ===== src/Syscalls/SpecPassUp.antt =====
-- `spec_pass_up` of src/syscalls.c, and the exception that it is for.
use bi_kaya.Base.{ℕ, ◌+◌, ◌<◌, ◌≡◌, ◌≢◌, refl, ap, ◌∙◌, true, false, some, arith, ◌==◌, ltb}
use bi_kaya.ListX.{put}
use bi_kaya.Types.{StateT, Pcb, null}
use bi_kaya.Machine.{Kernel, Returns, Returns-deref, Leaves, Leaves-bind, Leaves-map, ◌>>=◌}
use bi_kaya.Scheduler.{scheduler_handle_exception}
use bi_kaya.Scheduler.Exceptions.{scheduler_handle_exception-PassedUp}
use bi_kaya.Syscalls.{syscall_success, spec_pass_up}

abbrev pub declared : (type old_area new_area : ℕ) → Pcb → Pcb
declared type old_area new_area b = record b {
  exc_areas = put (put b.exc_areas type new_area) (3 + type) old_area;
}

-- `spec_pass_up` for a type below 3 for which the current process `p` has declared no handler returns
-- success, and has written the two areas of that type into the block of `p` and nothing else.
pub spec_pass_up-declared :
    (k : Kernel) (type old_area new_area p : ℕ)
    → k.current_proc ≡ some p
    → type < 3
    → (k.pcbs p).exc_areas type ≡ null
    → Returns
        (λ r k'.
          (r ≡ syscall_success)
          × (k'.pcbs p ≡ declared type old_area new_area (k.pcbs p))
          × ((i : ℕ) → i ≢ p → k'.pcbs i ≡ k.pcbs i)
          × (k' ≡ record k { pcbs = k'.pcbs }))
        (spec_pass_up type old_area new_area k)
unfolding spec_pass_up
spec_pass_up-declared k type old_area new_area p e few none_yet =
    let in1 : ltb type 6 ≡ true = ground arith in
    let in2 : ltb (3 + type) 6 ≡ true = ground arith in
    Returns-deref _ k.current_proc p k _ e
      (rw (in1, none_yet, in2) (refl, ground arith, (λ i ne. ground arith), refl))

-- After it, an exception of that type whose state has been saved leaves the kernel with that state in
-- the old area and the state of the new area loaded, where neither area is `NULL`.
pub spec_pass_up-scheduler_handle_exception :
    (k : Kernel) (type old_area new_area old_state p : ℕ)
    → k.current_proc ≡ some p
    → type < 3
    → (k.pcbs p).exc_areas type ≡ null
    → (old_area == null) ≡ false
    → (new_area == null) ≡ false
    → (old_state == null) ≡ false
    → Leaves
        (λ s k'.
          (k'.states ≡ put k.states old_area (k.states old_state))
          × (s ≡ k'.states new_area)
          × (k'.current_proc ≡ some p))
        ((spec_pass_up type old_area new_area >>= λ _. scheduler_handle_exception type old_state) k)
spec_pass_up-scheduler_handle_exception k type old_area new_area old_state p e few none_yet
      old_there new_there there =
    Leaves-bind _ _ (spec_pass_up type old_area new_area k) _
      (spec_pass_up-declared k type old_area new_area p e few none_yet)
      λ _ k1 (_, areas, _, same). passed k1 areas same
  where
    passed :
        (k1 : Kernel)
        → k1.pcbs p ≡ declared type old_area new_area (k.pcbs p)
        → k1 ≡ record k { pcbs = k1.pcbs }
        → Leaves
            (λ s k'.
              (k'.states ≡ put k.states old_area (k.states old_state))
              × (s ≡ k'.states new_area)
              × (k'.current_proc ≡ some p))
            (scheduler_handle_exception type old_state k1)
    passed k1 areas same =
        let at_new : (k1.pcbs p).exc_areas type ≡ new_area =
          ap (λ (b : Pcb). b.exc_areas type) areas ∙ ground arith in
        let at_old : (k1.pcbs p).exc_areas (3 + type) ≡ old_area =
          ap (λ (b : Pcb). b.exc_areas (3 + type)) areas ∙ ground arith in
        let states : k1.states ≡ k.states = ap (λ (m : Kernel). m.states) same in
        let current : k1.current_proc ≡ some p = ap (λ (m : Kernel). m.current_proc) same ∙ e in
        Leaves-map _ _ (scheduler_handle_exception type old_state k1)
          (scheduler_handle_exception-PassedUp k1 type old_state p current few (rw at_new new_there)
            (rw at_old old_there) there)
          λ s k' up. (
            up.states
                ∙ ap (λ a. put k1.states a (k1.states old_state)) at_old
                ∙ ap (λ (f : ℕ → StateT). put f old_area (f old_state)) states,
            up.handler ∙ ap k'.states at_new,
            up.current ∙ current,
          )
