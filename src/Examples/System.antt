-- ===== src/Examples/System.antt =====
-- The theorems about the kernel as a whole, at that memory.
use bi_kaya.Base.{
  ℕ, ◌≡◌, refl, inl, inr, true, false, some, List, [], ◌∷◌, arith, ◌==◌, if◌then◌else◌, Bool-cases,
}
use bi_kaya.Types.{max_proc, s_proc_q, ready_queue, asl}
use bi_kaya.Machine.{Kernel, Returns, Leaves}
use bi_kaya.Asl.Semaphores.{waiting}
use bi_kaya.Asl.Semaphores.{queue_at}
use bi_kaya.Pcb.{zero_state}
use bi_kaya.Pcb.Insert.{insert_by}
use bi_kaya.Umps
use bi_kaya.Uarm
use bi_kaya.Umps.{get_todlo}
use bi_kaya.Uarm.Devices.{get_dev_key-interrupts_get_dev_key}
use bi_kaya.Interrupts.{interrupts_get_dev_key}
use bi_kaya.Scheduler.{scheduler_block_current}
use bi_kaya.Scheduler.Block.{Blocked}
use bi_kaya.Kernel.{Image, main}
use bi_kaya.Kernel.Boot.{boot_live, static_links}
use bi_kaya.Kernel.Alloc.{alloc_live}
use bi_kaya.Kernel.First.{first_state}
use bi_kaya.Kernel.Start.{Installed, main-IsSound}
use bi_kaya.Kernel.Switches.{scheduler_block_current-Blocked}
use bi_kaya.Kernel.Spec.{Spec, Call, raise, pass, resume, AllAllowed, calls, spec_steps}
use bi_kaya.Kernel.Implements.{Implements}
use bi_kaya.Kernel.Refines.{calls-Implements}
use bi_kaya.Kernel.Sound.{Sound, IsSound}
use bi_kaya.Examples.{sample_key, memory}
use bi_kaya.Examples.Whole.{table_heads, whole, whole_lists, whole-Sound, elsewhere-free}

-- Process 8 runs; 2 and 1 wait for the first disk; 5 and 4 are ready.
abbrev pub whole_spec : Spec
whole_spec = record {
  ready = 5 ∷ 4 ∷ [];
  waiting = λ key. if key == sample_key then 2 ∷ 1 ∷ [] else [];
  running = some 8;
  value = λ _. 0;
  base = λ i. i;
  level = λ i. i;
}

pub whole-Implements : Implements table_heads whole whole_spec
unfolding waiting queue_at
whole-Implements = record {
  qs = whole_lists;
  sound = whole-Sound;
  ready = rw (elsewhere-free ready_queue refl) refl;
  waits = λ key. rw (elsewhere-free asl refl) (elim (Bool-cases (key == sample_key)) [
    | inl same ↦
        let same' : key ≡ sample_key = ground arith in
        rw same' (rw (elsewhere-free (s_proc_q 3) refl) refl)
    | inr other ↦ let miss : (sample_key == key) ≡ false = ground arith in rw (other, miss) refl
  ]);
  running = refl;
  value = λ a ne. refl;
  base = λ i. refl;
  level = λ i. refl;
}

-- 8 wakes 2, waits for key 200, 5 runs, wakes 8, and its time slice ends.
abbrev some_calls : List Call
some_calls = raise sample_key ∷ pass 200 ∷ resume false ∷ raise 200 ∷ resume true ∷ []

some_calls-AllAllowed : AllAllowed some_calls whole_spec
unfolding insert_by
some_calls-AllAllowed = (
  (refl, omega arith),
  (
    (refl, omega arith, omega arith, (8, refl)),
    ((λ i lt. ground arith), ((refl, omega arith), ((λ i lt. ground arith), tt))),
  ),
)

calls-Implements_example :
    (k' : Kernel) × (calls some_calls whole ≡ some k')
    × Implements table_heads k' (spec_steps some_calls whole_spec)
calls-Implements_example =
    calls-Implements some_calls whole whole_spec whole-Implements some_calls-AllAllowed

scheduler_block_current-Blocked_example :
    Returns
      (λ _ k'.
        (qs' : ℕ → List ℕ) × Blocked table_heads whole whole_lists 300 8 (whole.states 4096) k' qs'
        × Sound table_heads k' qs')
      (scheduler_block_current 300 4096 whole)
scheduler_block_current-Blocked_example =
    scheduler_block_current-Blocked whole whole-Sound 300 4096 8 refl refl

abbrev cold : Kernel
cold = record memory { links = static_links }

abbrev image : Image
image = record {
  interrupts_code = 536871000;
  tlb_code = 536872000;
  trap_code = 536873000;
  syscall_code = 536874000;
  idle_code = 536875000;
  test_code = 536876000;
}

main-IsSound_example :
    Leaves
      (λ s k'.
        (s ≡ first_state cold zero_state image.test_code)
        × (k'.current_proc ≡ some 19)
        × Installed image cold k'.states
        × IsSound (alloc_live (boot_live max_proc) 19) k')
      (main image zero_state zero_state cold)
main-IsSound_example = main-IsSound image zero_state zero_state cold refl

get_dev_key-interrupts_get_dev_key_example :
    (Uarm.get_dev_key (Uarm.dev_reg_addr 7 3) 1 ≡ interrupts_get_dev_key (Umps.dev_reg_addr 7 3) 1)
    × (Uarm.is_terminal (Uarm.dev_reg_addr 7 3) ≡ (7 == Uarm.il_terminal))
    × (Umps.is_terminal (Umps.dev_reg_addr 7 3) ≡ (7 == Umps.il_terminal))
get_dev_key-interrupts_get_dev_key_example =
    get_dev_key-interrupts_get_dev_key 7 3 1 (omega arith) (omega arith) (omega arith) (omega arith)
