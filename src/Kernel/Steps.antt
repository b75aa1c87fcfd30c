-- ===== src/Kernel/Steps.antt =====
-- The kernel as a machine that takes steps: what the handlers do between entry and `LDST`, and what
-- the processes do in between.
use bi_kaya.Base.{
  ℕ, ◌-◌, ◌<◌, ◌≡◌, refl, subst, inl, inr, Bool, none, some, List, [], ◌∷◌, arith, ◌==◌, head?,
  Option-cases, false, true, Option,
}
use bi_kaya.Types.{StateT, max_proc, null, rank, word_size}
use bi_kaya.Machine.{Kernel, Run, ok, loaded, Returns, Leaves}
use bi_kaya.Umps.{sysbk_oldarea, int_oldarea}
use bi_kaya.Asl.Semaphores.{waiting}
use bi_kaya.Scheduler.{scheduler_account_time, scheduler_resume, scheduler_handle_exception}
use bi_kaya.Scheduler.Waits.{Slice, run_slice}
use bi_kaya.Syscalls.{
  verhogen, passeren, wait_io, create_process, terminate_process, spec_pass_up, syscall_handler,
  or_current,
}
use bi_kaya.Interrupts.{unblock_process, interrupts_handler}
use bi_kaya.Interrupts.Unblock.{unblock_process-fault}
use bi_kaya.Kernel.Sound.{
  Sound, IsSound, Stands, Sound-frame, verhogen-Sound, unblock_process-Sound,
}
use bi_kaya.Kernel.Waits.{wait_io-Sound, account-Sound}
use bi_kaya.Kernel.Alloc.{alloc_live}
use bi_kaya.Kernel.Created.{CreatedOrFull}
use bi_kaya.Kernel.Create.{create_process-CreatedOrFull}
use bi_kaya.Kernel.Ancestors.{Spares}
use bi_kaya.Kernel.Terminate.{Terminated, terminate_process-Sound}
use bi_kaya.Kernel.PassUp.{BothAreas, scheduler_handle_exception-Sound, spec_pass_up-Sound}
use bi_kaya.Kernel.Calls.{Proper}
use bi_kaya.Kernel.Handlers.{syscall_handler-Stands}
use bi_kaya.Kernel.Served.{AreLow, Attended}
use bi_kaya.Kernel.Interrupts.{interrupts_handler-Sound}
use bi_kaya.Interrupts.Pending.{pending_requests}
use bi_kaya.Kernel.Switches.{passeren-Sound, scheduler_resume-Sound}

-- `machine`: processes run, devices write their registers, and the kernel writes words and saved
-- states. The others are calls that return, or leave the kernel, in state `k'`.
pub data Step (k k' : Kernel) : Type 0 where
  machine : (u : Slice) → k' ≡ run_slice u k → Step k k'
  accounts : (kernel : Bool) → scheduler_account_time kernel k ≡ ok tt k' → Step k k'
  raises : (semaddr : ℕ) → (semaddr == null) ≡ false → verhogen semaddr k ≡ ok tt k' → Step k k'
  passes :
      (semaddr p : ℕ)
      → k.current_proc ≡ some p
      → (semaddr == null) ≡ false
      → k.words semaddr < word_size
      → passeren semaddr k ≡ ok tt k'
      → Step k k'
  waits :
      (command device subdev p : ℕ)
      → k.current_proc ≡ some p
      → (device == null) ≡ false
      → wait_io command device subdev k ≡ ok tt k'
      → Step k k'
  creates :
      (state priority cpid c r : ℕ)
      → (state == null) ≡ false
      → k.current_proc ≡ some c
      → create_process state priority cpid k ≡ ok r k'
      → Step k k'
  terminates :
      (pid : Option ℕ) (p r : ℕ)
      → or_current pid k.current_proc ≡ some p
      → p < max_proc
      → Spares k p
      → terminate_process pid k ≡ ok r k'
      → Step k k'
  declares :
      (type old_area new_area p r : ℕ)
      → k.current_proc ≡ some p
      → type < 3
      → spec_pass_up type old_area new_area k ≡ ok r k'
      → Step k k'
  handles :
      (type old p : ℕ) (s : StateT)
      → k.current_proc ≡ some p
      → type < 3
      → BothAreas k type p
      → (old == null) ≡ false
      → scheduler_handle_exception type old k ≡ loaded s k'
      → Step k k'
  calls :
      (p : ℕ) (s : StateT)
      → k.current_proc ≡ some p
      → Proper k (k.states sysbk_oldarea) p
      → syscall_handler k ≡ loaded s k'
      → Step k k'
  interrupts :
      (s : StateT)
      → AreLow k
      → ((live : ℕ → Bool) (qs : ℕ → List ℕ)
          → Sound live k qs
          → Attended k qs [] (pending_requests k.words (k.states int_oldarea).cause))
      → interrupts_handler k ≡ loaded s k'
      → Step k k'
  unblocks : (key status : ℕ) → unblock_process key status k ≡ ok tt k' → Step k k'
  resumes :
      (ended : Bool) (old : ℕ) (s : StateT)
      → ((p : ℕ) → k.current_proc ≡ some p → (old == null) ≡ false)
      → (ended ≡ true → (i : ℕ) → i < max_proc → rank (k.pcbs i).priority < word_size - 1)
      → scheduler_resume ended old k ≡ loaded s k'
      → Step k k'

pub data Reach (k : Kernel) : Kernel → Type 0 where
  here : Reach k k
  next : {k1 k2 : Kernel} → Reach k k1 → Step k1 k2 → Reach k k2

returned {ℓ} :
    {A : Type ℓ} (P : A → Kernel → Type 0) (r : Run A) (a : A) (k' : Kernel)
    → Returns P r
    → r ≡ ok a k'
    → P a k'
returned P r a k' h e = subst (Returns P) e h

left :
    (P : StateT → Kernel → Type 0) (r : Run (Unit {0})) (s : StateT) (k' : Kernel)
    → Leaves P r
    → r ≡ loaded s k'
    → P s k'
left P r s k' h e = subst (Leaves P) e h

none_first : (xs : List ℕ) → head? xs ≡ none → xs ≡ []
none_first [] e = refl
none_first (x ∷ xs) e = ground (arith, e)

module _ {live : ℕ → Bool} where
  pub Step-IsSound : {k k' : Kernel} → IsSound live k → Step k k' → Stands k'
  Step-IsSound {k} {k'} (qs, s) (machine u e) =
      (live, (qs, rw e (Sound-frame k s (run_slice u k) refl refl refl refl)))
  Step-IsSound {k} {k'} (qs, s) (accounts kernel e) =
      (live, returned _ _ tt k' (account-Sound k qs kernel s) e)
  Step-IsSound {k} {k'} (qs, s) (raises a there e) =
      (live, returned _ _ tt k' (verhogen-Sound k s a there) e)
  Step-IsSound {k} {k'} (qs, s) (passes a p c there word e) =
      (live, returned _ _ tt k' (passeren-Sound k s a p c there word) e)
  Step-IsSound {k} {k'} (qs, s) (waits command device subdev p c there e) =
      (live, returned _ _ tt k' (wait_io-Sound k qs command device subdev p s c there) e)
  Step-IsSound {k} {k'} (qs, s) (creates state priority cpid c r there running e) =
      created
        (returned _ _ r k' (create_process-CreatedOrFull k s state priority cpid c there running) e)
    where
      created : CreatedOrFull live k qs state priority cpid c r k' → Stands k'
      created (inl (_, _, same)) = (live, (qs, rw same s))
      created (inr (_, (p, _, qs', _, d))) = (alloc_live live p, (qs', d.sound))
  Step-IsSound {k} {k'} (qs, s) (terminates pid p r target lt spares e) =
      ended (returned _ _ r k' (terminate_process-Sound k s pid p target lt spares) e)
    where
      ended : Terminated k s p r k' → Stands k'
      ended (inl (_, _, same)) = (live, (qs, rw same s))
      ended (inr (_, _, (qs', _, _, s'))) = (live, (qs', s'))
  Step-IsSound {k} {k'} (qs, s) (declares type old_area new_area p r c few e) =
      (live, returned _ _ r k' (spec_pass_up-Sound k s type old_area new_area p c few) e)
  Step-IsSound {k} {k'} (qs, s) (handles type old p st c few both there e) =
      (live, left _ _ st k' (scheduler_handle_exception-Sound k s type old p c few both there) e)
  Step-IsSound {k} {k'} (qs, s) (calls p st c proper e) =
      left _ _ st k' (syscall_handler-Stands k p s c λ _. proper) e
  Step-IsSound {k} {k'} (qs, s) (interrupts st low attended e) =
      (live, left _ _ st k' (interrupts_handler-Sound k qs s low (attended live qs s)) e)
  Step-IsSound {k} {k'} (qs, s) (unblocks key status e) =
      elim (Option-cases (head? (waiting k qs key))) [
        | inl nobody ↦
            let faulted = unblock_process-fault k s.queues key status (none_first _ nobody) in cc
        | inr (p, first) ↦
            (live, returned _ _ tt k' (unblock_process-Sound k s key status p first) e)
      ]
  Step-IsSound {k} {k'} (qs, s) (resumes ended old st there small e) =
      (live, left _ _ st k' (scheduler_resume-Sound k s ended old there small) e)

-- Every state that the kernel reaches from a sound one is sound: by `syscall_handler`,
-- `interrupts_handler` and `scheduler_handle_exception` from entry to `LDST`, by accounting of time,
-- `verhogen`, `passeren`, `wait_io`, `create_process`, `terminate_process`, `spec_pass_up`,
-- `unblock_process` and `scheduler_resume` alone, and with whatever processes and devices do in
-- between to words of memory, saved states and the clock. System calls have proper arguments
-- (`Proper`), so that no semaphore or device is `NULL`, somebody waits for each device that has an
-- interrupt, a process that has declared a new area for an exception has declared an old one, and no
-- priority wraps around.
pub Reach-IsSound : {live : ℕ → Bool} {k k' : Kernel} → IsSound live k → Reach k k' → Stands k'
Reach-IsSound {live} h here = (live, h)
Reach-IsSound {live} h (next {k1} r st) =
    let (now, sound) = Reach-IsSound h r in Step-IsSound {live = now} {k = k1} sound st
