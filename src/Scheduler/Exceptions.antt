-- ===== src/Scheduler/Exceptions.antt =====
-- `scheduler_handle_exception` of src/scheduler.c for a process that has declared a handler.
use bi_kaya.Base.{ℕ, ◌+◌, ◌<◌, ◌≡◌, refl, ap, ◌∙◌, true, false, some, arith, ◌==◌, ltb}
use bi_kaya.ListX.{put}
use bi_kaya.Types.{StateT, null}
use bi_kaya.Machine.{Kernel, Leaves, Leaves-bind, Leaves-deref}
use bi_kaya.Umps.{load_state, store_state}
use bi_kaya.Scheduler.{pass_up, scheduler_account_time, scheduler_handle_exception}
use bi_kaya.Scheduler.Time.{Accounted-SameButClock, scheduler_account_time-Accounted}

-- The state of the exception is where `p` wants it, and the handler of `p` runs.
pub record PassedUp (k : Kernel) (p type : ℕ) (old : StateT) (s : StateT) (k' : Kernel)
    : Type 0 where
  pub states : k'.states ≡ put k.states ((k.pcbs p).exc_areas (3 + type)) old
  pub handler : s ≡ k'.states ((k.pcbs p).exc_areas type)
  pub current : k'.current_proc ≡ k.current_proc
  pub links : k'.links ≡ k.links

-- `scheduler_handle_exception` for a type below 3, where the current process `p` has declared two areas
-- for the type and the exception has saved a state, leaves the kernel: that state is in the old area of
-- `p`, the state of the new area is loaded, and `p` stays the current process.
pub scheduler_handle_exception-PassedUp :
    (k : Kernel) (type old p : ℕ)
    → k.current_proc ≡ some p
    → type < 3
    → ((k.pcbs p).exc_areas type == null) ≡ false
    → ((k.pcbs p).exc_areas (3 + type) == null) ≡ false
    → (old == null) ≡ false
    → Leaves (PassedUp k p type (k.states old)) (scheduler_handle_exception type old k)
unfolding scheduler_handle_exception pass_up load_state store_state
scheduler_handle_exception-PassedUp k type old p e few new_there old_there there =
    Leaves-bind _ _ (scheduler_account_time false k) _ (scheduler_account_time-Accounted false k)
      λ _ k1 a.
        let areas : (k1.pcbs p).exc_areas ≡ (k.pcbs p).exc_areas =
          (Accounted-SameButClock false k k1 a p).exc_areas in
        let in1 : ltb type 6 ≡ true = ground arith in
        let in2 : ltb (3 + type) 6 ≡ true = ground arith in
        Leaves-deref _ k1.current_proc p k1 _ (ap (λ (m : Kernel). m.current_proc) a.same ∙ e) (
          rw (in1, areas, new_there, there, in2, areas, old_there)
            (Leaves-bind _ _ (scheduler_account_time true _) _
              (scheduler_account_time-Accounted true _)
              λ _ k2 b. rw new_there (record {
                states =
                    ap (λ (m : Kernel). m.states) b.same
                    ∙ ap (λ (f : ℕ → StateT). put f ((k.pcbs p).exc_areas (3 + type)) (f old))
                        (ap (λ (m : Kernel). m.states) a.same);
                handler = refl;
                current =
                    ap (λ (m : Kernel). m.current_proc) b.same
                    ∙ ap (λ (m : Kernel). m.current_proc) a.same;
                links = ap (λ (m : Kernel). m.links) b.same ∙ ap (λ (m : Kernel). m.links) a.same;
              })))
