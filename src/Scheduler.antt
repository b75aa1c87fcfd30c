-- ===== src/Scheduler.antt =====
-- src/scheduler.c: the ready queue, the running process, time accounting and termination.
pub mod Queues
pub mod Run
pub mod Time
pub mod Aging
pub mod Preempt
pub mod Resume
pub mod Block
pub mod Exceptions
pub mod Fairness
pub mod Waits
pub mod Starvation
pub mod Tables
pub mod Withdraw
pub mod Release
pub mod Forest
pub mod Detach
pub mod Killed
pub mod Kill
pub mod Terminate
use bi_kaya.Base.{
  ℕ, zero, suc, ◌+◌, ◌-◌, ◌*◌, ◌%◌, ◌^◌, Bool, true, false, Option, none, some, if◌then◌else◌, ◌==◌,
  ltb,
}
use bi_kaya.Types.{StateT, Pcb, default_priority, null, word_size, p_child, ready_queue}
use bi_kaya.Machine.{
  Kernel, Cmd, ok, loaded, fault, out_of_fuel, pure, and_then, ◌>>=◌, ◌>>◌, get, modify, set_pcb,
  deref, for_each_entry, fuel,
}
use bi_kaya.Umps.{
  kernel_mode, all_int_enable, vm_off, set_sp, ram_top, frame_size, get_todlo, set_timer,
  bus_reg_time_scale, load_state, store_state,
}
use bi_kaya.Pcb.{
  pcb_alloc, pcb_free, pcb_insert_in_queue, pcb_is_queue_empty, pcb_remove_from_queue,
  pcb_find_and_remove, pcb_find_and_remove_child,
}
use bi_kaya.Asl.{asl_insert_blocked, asl_find_and_remove_blocked}

abbrev pub time_slice_ms : ℕ
time_slice_ms = 3

abbrev pub set_state : StateT → Pcb → Pcb
set_state s b = record b { p_s = s }

-- `LDST`.
abbrev pub ldst {ℓ} : {A : Type ℓ} → StateT → Cmd A
ldst s k = loaded s k

-- `a - b` on `uint32_t`.
abbrev pub sub32 : ℕ → ℕ → ℕ
sub32 a b = (a + word_size - b) % word_size

-- `TIME_SLICE`, in the ticks of the clock.
abbrev pub time_slice : Kernel → ℕ
time_slice k = time_slice_ms * 1000 * k.words bus_reg_time_scale % word_size

-- `priority = original_priority`, then into the ready queue.
unfoldable pub scheduler_enqueue_process : ℕ → Cmd (Unit {0})
scheduler_enqueue_process proc = do
  set_pcb proc λ b. record b { priority = b.original_priority }
  pcb_insert_in_queue ready_queue proc

-- The status of a state in kernel mode, with interrupts enabled and virtual memory off.
unfoldable pub kernel_status : StateT → StateT
kernel_status s = record s { status = vm_off (all_int_enable (kernel_mode s.status)) }

-- `idle_cpu` and `cpu` are the processor states that the two `STST` store, `idle_code` and `code` are the addresses of
-- `idle_process_code` and of the first process.
unfoldable pub scheduler_init : (idle_cpu cpu : StateT) (idle_code code : ℕ) → Cmd (Unit {0})
unfolding kernel_status
scheduler_init idle_cpu cpu idle_code code = do
  modify λ k. record k { idle_proc_state = kernel_status (record idle_cpu { pc_epc = idle_code }) }
  found ← pcb_alloc
  init_proc ← deref found
  k ← get
  set_pcb init_proc (
      set_state (
        kernel_status (record (set_sp ((ram_top k + word_size - frame_size) % word_size) cpu) {
          pc_epc = code;
        })))
  set_pcb init_proc λ b. record b { original_priority = default_priority }
  scheduler_enqueue_process init_proc

unfoldable pub aging : Cmd (Unit {0})
aging =
    for_each_entry (λ it. set_pcb it λ b. record b { priority = (b.priority + 1) % word_size })
      ready_queue

-- The time since the last switch, as kernel or user time of a process.
unfoldable pub charge : Bool → ℕ → Pcb → Pcb
charge kernel elapsed b =
    if kernel
    then record b { kernel_tm = (b.kernel_tm + elapsed) % 2 ^ 64 }
    else record b { user_tm = (b.user_tm + elapsed) % 2 ^ 64 }

pub charge_current : Bool → Option ℕ → Cmd (Unit {0})
unfolding charge
charge_current kernel none k = ok tt k
charge_current kernel (some p) k =
    and_then (get_todlo k) λ now. set_pcb p (charge kernel (sub32 now k.switch_tick))

unfoldable pub scheduler_account_time : Bool → Cmd (Unit {0})
unfolding charge_current
scheduler_account_time kernel = do
  k ← get
  charge_current kernel k.current_proc
  now ← get_todlo
  modify λ k'. record k' { switch_tick = now }

unfoldable pub start_clock : ℕ → Cmd (Unit {0})
start_clock p = do
  k ← get
  if (k.pcbs p).start_tm == 0
      then (do now ← get_todlo; set_pcb p λ b. record b { start_tm = now })
      else pure tt

-- `scheduler_run` with the process that it has taken from the ready queue.
unfoldable pub dispatch : Option ℕ → Cmd (Unit {0})
unfolding start_clock
dispatch next = do
  modify λ k. record k { current_proc = next }
  p ← deref next
  start_clock p
  now ← get_todlo
  modify λ k. record k { switch_tick = now }
  k ← get
  set_timer (time_slice k)
  k' ← get
  ldst (k'.pcbs p).p_s

unfoldable pub scheduler_run : Cmd (Unit {0})
unfolding dispatch
scheduler_run = pcb_remove_from_queue ready_queue >>= dispatch

-- The end of `scheduler_resume`: nobody runs.
unfoldable pub select_next : Cmd (Unit {0})
select_next = do
  idle ← pcb_is_queue_empty ready_queue
  k ← get
  if idle then ldst k.idle_proc_state else scheduler_run

-- The time slice of `p` has ended.
unfoldable pub preempt : ℕ → ℕ → Cmd (Unit {0})
preempt p old_state = do
  alone ← pcb_is_queue_empty ready_queue
  if alone then pure tt else aging
  s ← load_state old_state
  set_pcb p (set_state s)
  scheduler_enqueue_process p

pub resume_current : Bool → ℕ → Option ℕ → Cmd (Unit {0})
unfolding preempt
resume_current time_slice_ended old_state none = pure tt
resume_current time_slice_ended old_state (some p) = do
  scheduler_account_time true
  if time_slice_ended then preempt p old_state else (do s ← load_state old_state; ldst s)

unfoldable pub scheduler_resume : Bool → ℕ → Cmd (Unit {0})
unfolding resume_current select_next
scheduler_resume time_slice_ended old_state = do
  k ← get
  resume_current time_slice_ended old_state k.current_proc
  select_next

-- The result of `asl_insert_blocked` is not looked at.
unfoldable pub scheduler_block_current : ℕ → ℕ → Cmd (Unit {0})
scheduler_block_current semaddr proc_state = do
  k ← get
  p ← deref k.current_proc
  s ← load_state proc_state
  set_pcb p (set_state s)
  scheduler_account_time true
  k' ← get
  p' ← deref k'.current_proc
  asl_insert_blocked semaddr p'
  modify λ m. record m { current_proc = none }

-- On fuel: the depth of the process tree. The loop goes on from a child that has been taken off the
-- list, whose own pointers `list_del` has left in place.
unfoldable pub kill_tree : ℕ → ℕ → Cmd (Unit {0})
kill_tree zero pid = λ _. out_of_fuel
kill_tree (suc depth) pid = do
  for_each_entry (kill_tree depth) (p_child pid)
  pcb_find_and_remove_child pid
  asl_find_and_remove_blocked pid
  pcb_find_and_remove ready_queue pid
  pcb_free pid

abbrev pub same_proc : ℕ → Option ℕ → Bool
same_proc pid none = false
same_proc pid (some p) = pid == p

unfoldable pub scheduler_kill_process : ℕ → Cmd (Unit {0})
scheduler_kill_process pid = do
  modify
      λ k. record k { current_proc = if same_proc pid k.current_proc then none else k.current_proc }
  kill_tree fuel pid

-- `exc_new_areas[type]` and `exc_old_areas[type]`; past the end of the PCB is a fault.
abbrev pub exc_area : ℕ → ℕ → Cmd ℕ
exc_area p i k = if ltb i 6 then ok ((k.pcbs p).exc_areas i) k else fault

-- The types of exceptions, which are the indices of their areas.
abbrev pub specpassup_sysbk_type : ℕ
specpassup_sysbk_type = 0

abbrev pub specpassup_tlb_type : ℕ
specpassup_tlb_type = 1

abbrev pub specpassup_trap_type : ℕ
specpassup_trap_type = 2

unfoldable pub pass_up : ℕ → ℕ → ℕ → ℕ → Cmd (Unit {0})
pass_up p type old_state new_area = do
  s ← load_state old_state
  old_area ← exc_area p (3 + type)
  store_state old_area s
  scheduler_account_time true
  handler ← load_state new_area
  ldst handler

unfoldable pub scheduler_handle_exception : ℕ → ℕ → Cmd (Unit {0})
unfolding pass_up
scheduler_handle_exception type old_state = do
  scheduler_account_time false
  k ← get
  p ← deref k.current_proc
  new_area ← exc_area p type
  if new_area == null
      then (do scheduler_kill_process p; scheduler_resume false null)
      else pass_up p type old_state new_area
