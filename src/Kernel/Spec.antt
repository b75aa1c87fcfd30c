-- ===== src/Kernel/Spec.antt =====
-- What the kernel promises about semaphores and scheduling, without memory: queues as lists, a waiting
-- line for each key, and who runs.
use bi_kaya.Base.{
  ℕ, ◌+◌, ◌-◌, ◌%◌, ◌<◌, ◌≡◌, ◌≢◌, Bool, true, false, Option, none, some, List, [], ◌∷◌, ◌==◌,
  if◌then◌else◌, has,
}
use bi_kaya.ListX.{put}
use bi_kaya.Types.{max_proc, null, rank, word_size}
use bi_kaya.Machine.{Kernel, Run, Cmd, ok, loaded, fault, out_of_fuel}
use bi_kaya.Umps.{bus_reg_timer, sysbk_oldarea}
use bi_kaya.Pcb.Insert.{insert_by}
use bi_kaya.Scheduler.{scheduler_resume}
use bi_kaya.Syscalls.{verhogen, passeren}

-- `value` is that of the semaphores, `base` and `level` the original and the current priorities.
pub record Spec : Type 0 where
  pub ready : List ℕ
  pub waiting : ℕ → List ℕ
  pub running : Option ℕ
  pub value : ℕ → ℕ
  pub base : ℕ → ℕ
  pub level : ℕ → ℕ

pub data Call : Type 0 where
  raise : ℕ → Call
  pass : ℕ → Call
  resume : Bool → Call

-- `V`: the value goes up, or the first in the line is ready at its original priority.
abbrev pub spec_raise : ℕ → List ℕ → Spec → Spec
spec_raise key [] s = record s { value = put s.value key ((s.value key + 1) % word_size) }
spec_raise key (p ∷ ps) s =
    let level' = put s.level p (s.base p) in
    record s { waiting = put s.waiting key ps; level = level'; ready = insert_by level' p s.ready }

-- `P`: the value goes down, or the running process joins the line.
abbrev pub spec_pass : ℕ → Option ℕ → Spec → Spec
spec_pass key none s = s
spec_pass key (some p) s =
    if s.value key == 0
    then record s {
      waiting = put s.waiting key (insert_by s.level p (s.waiting key));
      running = none;
    }
    else record s { value = put s.value key (s.value key - 1) }

abbrev pub take_first : List ℕ → Spec → Spec
take_first [] s = s
take_first (p ∷ ps) s = record s { running = some p; ready = ps }

-- The levels when the time slice of `c` ends.
abbrev pub aged_levels : Spec → ℕ → ℕ → ℕ
aged_levels s c i =
    if i == c then s.base c else if has i s.ready then (s.level i + 1) % word_size else s.level i

abbrev pub spec_resume : Bool → Option ℕ → Spec → Spec
spec_resume ended none s = take_first s.ready s
spec_resume false (some c) s = s
spec_resume true (some c) s =
    take_first (insert_by (aged_levels s c) c s.ready) (record s { level = aged_levels s c })

abbrev pub spec_step : Call → Spec → Spec
spec_step (raise key) s = spec_raise key (s.waiting key) s
spec_step (pass key) s = spec_pass key s.running s
spec_step (resume ended) s = spec_resume ended s.running s

abbrev pub spec_steps : List Call → Spec → Spec
spec_steps [] s = s
spec_steps (c ∷ cs) s = spec_steps cs (spec_step c s)

-- A process runs where one has to, semaphores are words, neither at `NULL` nor the timer, and no priority wraps around.
abbrev pub Allowed : Call → Spec → Type 0
Allowed (raise key) s = ((key == null) ≡ false) × (key ≢ bus_reg_timer)
Allowed (pass key) s =
    ((key == null) ≡ false)
    × (key ≢ bus_reg_timer)
    × (s.value key < word_size)
    × ((p : ℕ) × (s.running ≡ some p))
Allowed (resume ended) s = (i : ℕ) → i < max_proc → rank (s.level i) < word_size - 1

abbrev pub AllAllowed : List Call → Spec → Type 0
AllAllowed [] s = Unit {0}
AllAllowed (c ∷ cs) s = Allowed c s × AllAllowed cs (spec_step c s)

-- The kernel: the memory after a call has returned or has left the kernel.
abbrev pub memory_of : Run (Unit {0}) → Option Kernel
memory_of (ok a k) = some k
memory_of (loaded s k) = some k
memory_of fault = none
memory_of out_of_fuel = none

abbrev pub call : Call → Cmd (Unit {0})
call (raise key) = verhogen key
call (pass key) = passeren key
call (resume ended) = scheduler_resume ended sysbk_oldarea

abbrev pub continue : (Kernel → Option Kernel) → Option Kernel → Option Kernel
continue f none = none
continue f (some k) = f k

abbrev pub calls : List Call → Kernel → Option Kernel
calls [] k = some k
calls (c ∷ cs) k = continue (calls cs) (memory_of (call c k))
