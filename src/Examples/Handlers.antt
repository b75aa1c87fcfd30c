-- ===== src/Examples/Handlers.antt =====
-- The theorems of src/syscalls.c and src/interrupts.c at the sample memory.
use bi_kaya.Base.{ℕ, ◌+◌, ◌*◌, ◌^◌, ◌≡◌, ◌<◌, refl, some, List, arith}
use bi_kaya.ListX.{put}
use bi_kaya.Machine.{ok, fault, Returns, Leaves, ◌>>=◌}
use bi_kaya.Umps.{dev_reg_addr, int_is_pending}
use bi_kaya.Asl.Semaphores.{waiting}
use bi_kaya.Scheduler.{scheduler_handle_exception}
use bi_kaya.Syscalls.{verhogen, spec_pass_up}
use bi_kaya.Syscalls.Verhogen.{Raised, verhogen-Raised}
use bi_kaya.Syscalls.SpecPassUp.{spec_pass_up-scheduler_handle_exception}
use bi_kaya.Interrupts.{
  devices_semkeys, semkey_at, interrupts_get_dev_key, unblock_process, handle_lines,
}
use bi_kaya.Interrupts.Keys.{row, interrupts_get_dev_key-semkey_at, interrupts_get_dev_key-distinct}
use bi_kaya.Interrupts.Unblock.{Unblocked, unblock_process-Unblocked, unblock_process-fault}
use bi_kaya.Interrupts.Lines.{handle_lines-printer}
use bi_kaya.Examples.{sample_key, heads, sample_lists, memory, memory-Queues}

verhogen_example :
    Returns (λ _ k'. Raised memory memory-Queues sample_key k') (verhogen sample_key memory)
verhogen_example = verhogen-Raised memory memory-Queues sample_key refl

pass_up_example :
    Leaves
      (λ s k'.
        (k'.states ≡ put memory.states 8192 (memory.states 4096))
        × (s ≡ k'.states 12288)
        × (k'.current_proc ≡ some 8))
      ((spec_pass_up 1 8192 12288 >>= λ _. scheduler_handle_exception 1 4096) memory)
pass_up_example =
    spec_pass_up-scheduler_handle_exception memory 1 8192 12288 4096 8 refl (omega arith) refl refl
      refl refl

-- Reception from the last terminal: the last entry of the matrix.
get_dev_key_example :
    (interrupts_get_dev_key (dev_reg_addr 7 7) 1 ≡ semkey_at (row 7 1) 7)
    × (semkey_at (row 7 1) 7 < devices_semkeys + 4 * 48)
get_dev_key_example =
    interrupts_get_dev_key-semkey_at 7 7 1 (omega arith) (omega arith) (omega arith) (omega arith)

same_dev_key_example : (◌≡◌ {A = ℕ} 6 6) × (◌≡◌ {A = ℕ} 2 2) × (row 6 0 ≡ row 6 1)
unfolding interrupts_get_dev_key
same_dev_key_example =
    interrupts_get_dev_key-distinct 6 2 0 6 2 1 (omega arith) (omega arith) (omega arith)
      (omega arith) (omega arith) (omega arith) (omega arith) (omega arith) same_key
  where
    same_key :
        interrupts_get_dev_key (dev_reg_addr 6 2) 0 ≡ interrupts_get_dev_key (dev_reg_addr 6 2) 1
    same_key = refl

unblock_process_example :
    Returns
      (λ _ k'. (qs' : ℕ → List ℕ) × Unblocked heads memory sample_lists sample_key 5 2 k' qs')
      (unblock_process sample_key 5 memory)
unfolding waiting
unblock_process_example = unblock_process-Unblocked memory memory-Queues sample_key 5 2 refl

unblock_nobody_example : unblock_process 300 5 memory ≡ fault
unfolding waiting
unblock_nobody_example = unblock_process-fault memory memory-Queues 300 5 refl

-- Bit 14 of the cause register is that of the printers.
printer_example : handle_lines (2 ^ 14) memory ≡ ok tt memory
unfolding int_is_pending
printer_example = handle_lines-printer (2 ^ 14) memory refl refl refl refl refl refl
