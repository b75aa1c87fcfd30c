-- ===== src/Kernel/Handlers.antt =====
-- `syscall_handler` of src/syscalls.c from entry to `LDST`, in a sound kernel.
use bi_kaya.Base.{
  ℕ, ◌≡◌, refl, ap, sym, ◌∙◌, inl, inr, Bool, true, false, some, List, ◌==◌, Bool-cases, suc, subst,
}
use bi_kaya.Types.{StateT}
use bi_kaya.Machine.{Kernel, Leaves, Leaves-bind, Leaves-map}
use bi_kaya.Machine.Ends.{Ends-leave}
use bi_kaya.Umps.{sysbk_oldarea, cause_exc, cause_syscall, load_state, store_state}
use bi_kaya.Scheduler.{scheduler_account_time, scheduler_resume}
use bi_kaya.Scheduler.Time.{Accounted, Accounted-SameButClock, scheduler_account_time-Accounted}
use bi_kaya.Syscalls.{syscall_handler}
use bi_kaya.Kernel.Ancestors.{ancestor-same}
use bi_kaya.Kernel.Sound.{Accounted-Sound, Sound, Sound-frame, Stands}
use bi_kaya.Kernel.Switches.{scheduler_resume-Sound}
use bi_kaya.Kernel.Calls.{Proper, syscall-Stands}

-- The states that the exceptions save are not looked at.
Accounted-Proper :
    (k : Kernel) (kernel : Bool) (k1 : Kernel) (states : ℕ → StateT) (s : StateT) (c : ℕ)
    → Accounted kernel k k1
    → Proper k s c
    → Proper (record k1 { states = states }) s c
Accounted-Proper k kernel k1 states s c a proper = record {
  given = proper.given;
  target = λ p t e.
      let (small, spares) = proper.target p t e in
      (
        small,
        λ d n running up. spares d n (sym (ap (λ (m : Kernel). m.current_proc) a.same) ∙ running) (
            sym (
              ancestor-same k (record k1 { states = states })
                (λ i. (Accounted-SameButClock kernel k k1 a i).p_parent) (suc n) d)
            ∙ up),
      );
  times = proper.times;
  raised = proper.raised;
  lowered = proper.lowered;
  device = proper.device;
  word = λ t. rw (ap (λ (m : Kernel). m.words) a.same) (proper.word t);
  type = proper.type;
  areas = rw (Accounted-SameButClock kernel k k1 a c).exc_areas proper.areas;
}

resumes :
    (k : Kernel) → Stands k → Leaves (λ _ k'. Stands k') (scheduler_resume false sysbk_oldarea k)
resumes k (live, (qs, s)) =
    Leaves-map _ _ (scheduler_resume false sysbk_oldarea k)
      (scheduler_resume-Sound k s false sysbk_oldarea (λ p e. refl) (λ over. cc))
      λ _ k' sound. (live, sound)

-- `syscall_handler`, entered in a sound state with a current process `c`, leaves the kernel, and the
-- kernel is sound. If the saved state is that of a system call, its arguments are proper (`Proper`):
-- the state for `create_process` is not `NULL`, the process for `terminate_process` is an entry of
-- the table and `c` does not stand below it, the semaphore for `verhogen` or `passeren`, the device
-- for `wait_io` and the three addresses for the times of `c` are not `NULL`, the semaphore for
-- `passeren` is a word, the type for `spec_pass_up` is below 3, and `c`, where it has declared a new
-- area for system calls, has declared an old one.
pub syscall_handler-Stands :
    {live : ℕ → Bool} (k : Kernel) {qs : ℕ → List ℕ} (c : ℕ)
    → Sound live k qs
    → k.current_proc ≡ some c
    → ((cause_exc (k.states sysbk_oldarea).cause == cause_syscall) ≡ true
        → Proper k (k.states sysbk_oldarea) c)
    → Leaves (λ _ k'. Stands k') (syscall_handler k)
unfolding syscall_handler load_state store_state
syscall_handler-Stands {live} k {qs} c s e proper =
    Leaves-bind _ _ (scheduler_account_time false k) _ (scheduler_account_time-Accounted false k)
      λ _ k1 a.
        let current : k1.current_proc ≡ some c = ap (λ (m : Kernel). m.current_proc) a.same ∙ e in
        let s1 = Accounted-Sound k s false k1 a in
        elim (Bool-cases (cause_exc (k1.states sysbk_oldarea).cause == cause_syscall)) [
          | inl call ↦ rw call (
              Ends-leave Stands _ _
                (syscall-Stands _ (Sound-frame k1 s1 _ refl refl refl refl)
                  (k1.states sysbk_oldarea) c current (called k1 a _ call))
                λ _ k2 sound. resumes k2 sound)
          | inr break ↦ rw break (resumes k1 (live, (qs, s1)))
        ]
  where
    called :
        (k1 : Kernel)
        → Accounted false k k1
        → (states : ℕ → StateT)
        → (cause_exc (k1.states sysbk_oldarea).cause == cause_syscall) ≡ true
        → Proper (record k1 { states = states }) (k1.states sysbk_oldarea) c
    called k1 a states =
        subst
          (λ (f : ℕ → StateT).
            (cause_exc (f sysbk_oldarea).cause == cause_syscall) ≡ true
            → Proper (record k1 { states = states }) (f sysbk_oldarea) c)
          (sym (ap (λ (m : Kernel). m.states) a.same))
          λ call. Accounted-Proper k false k1 states (k.states sysbk_oldarea) c a (proper call)
