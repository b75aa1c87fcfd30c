-- ===== src/Syscalls.antt =====
-- src/syscalls.c: the eight system calls and their handler. `old_state` is `SYSBK_OLDAREA`, to
-- which the handler sets it before it is read.
pub mod Verhogen
pub mod Passeren
pub mod SpecPassUp
use bi_kaya.Base.{ℕ, zero, suc, ◌+◌, ◌-◌, ◌%◌, true, false, Option, none, some, if◌then◌else◌, ◌==◌}
use bi_kaya.ListX.{put}
use bi_kaya.Types.{StateT, null, word_size}
use bi_kaya.Machine.{Cmd, pure, ◌>>=◌, ◌>>◌, get, set_pcb, deref}
use bi_kaya.Umps.{
  word_bytes, sysbk_oldarea, cause_exc, cause_syscall, sysarg, set_sysreturn, is_terminal,
  get_todlo, non_null, store_word, load_state, store_state,
}
use bi_kaya.Pcb.{pcb_alloc, pcb_insert_child, pcb_is_free}
use bi_kaya.Asl.{asl_semd, asl_remove_blocked}
use bi_kaya.Scheduler.{
  set_state, sub32, exc_area, scheduler_enqueue_process, scheduler_account_time, scheduler_resume,
  scheduler_block_current, scheduler_kill_process, scheduler_handle_exception,
  specpassup_sysbk_type,
}
use bi_kaya.Interrupts.{interrupts_get_dev_key}

-- The numbers of the system calls.
abbrev pub getcputime : ℕ
getcputime = 1

abbrev pub createprocess : ℕ
createprocess = 2

abbrev pub terminateprocess : ℕ
terminateprocess = 3

abbrev pub verhogen_no : ℕ
verhogen_no = 4

abbrev pub passeren_no : ℕ
passeren_no = 5

abbrev pub waitio : ℕ
waitio = 6

abbrev pub specpassup : ℕ
specpassup = 7

abbrev pub getpid : ℕ
getpid = 8

abbrev pub syscall_success : ℕ
syscall_success = 0

-- -1
abbrev pub syscall_failure : ℕ
syscall_failure = 0xffff_ffff

-- A `pid_t` as a machine word: `NULL` is 0 and entry `i` of `pcbTable` is `i + 1`.
abbrev pub pid_word : Option ℕ → ℕ
pid_word none = 0
pid_word (some p) = suc p

abbrev pub word_pid : ℕ → Option ℕ
word_pid zero = none
word_pid (suc p) = some p

-- `if (a) *a = v`.
abbrev pub store_if : ℕ → ℕ → Cmd (Unit {0})
store_if a v = if a == null then pure tt else store_word a v

unfoldable pub create_with : (state priority cpid : ℕ) → Option ℕ → Cmd ℕ
create_with state priority cpid none = pure syscall_failure
create_with state priority cpid (some new_proc) = do
  s ← load_state state
  set_pcb new_proc (set_state s)
  set_pcb new_proc λ b. record b { original_priority = priority }
  scheduler_enqueue_process new_proc
  k ← get
  parent ← deref k.current_proc
  pcb_insert_child parent new_proc
  store_if cpid (pid_word (some new_proc))
  pure syscall_success

unfoldable pub create_process : (state priority cpid : ℕ) → Cmd ℕ
unfolding create_with
create_process state priority cpid = pcb_alloc >>= create_with state priority cpid

abbrev pub or_current : Option ℕ → Option ℕ → Option ℕ
or_current none current = current
or_current (some p) current = some p

unfoldable pub terminate_process : Option ℕ → Cmd ℕ
terminate_process pid = do
  k ← get
  p ← deref (or_current pid k.current_proc)
  free ← pcb_is_free p
  if free then pure syscall_failure else (do scheduler_kill_process p; pure syscall_success)

pub wake : ℕ → Option ℕ → Cmd (Unit {0})
wake semaddr none = do
  non_null semaddr
  k ← get
  store_word semaddr ((k.words semaddr + 1) % word_size)
wake semaddr (some semd) = do
  found ← asl_remove_blocked semaddr
  blocked ← deref found
  scheduler_enqueue_process blocked

unfoldable pub verhogen : ℕ → Cmd (Unit {0})
unfolding wake
verhogen semaddr = asl_semd semaddr >>= wake semaddr

unfoldable pub passeren : ℕ → Cmd (Unit {0})
passeren semaddr = do
  non_null semaddr
  k ← get
  if k.words semaddr == 0
      then scheduler_block_current semaddr sysbk_oldarea
      else store_word semaddr ((k.words semaddr + word_size - 1) % word_size)

-- The command register that `wait_io` writes. `subdev` is a `uint8_t`.
abbrev pub command_register : (device subdev : ℕ) → ℕ
command_register device subdev =
    if is_terminal device then (if subdev == 0 then device + 12 else device + 4) else device + 4

unfoldable pub wait_io : (command device subdev : ℕ) → Cmd (Unit {0})
wait_io command device subdev = do
  non_null device
  store_word (command_register device subdev) command
  scheduler_block_current (interrupts_get_dev_key device subdev) sysbk_oldarea

unfoldable pub spec_pass_up : (exc_type old_area new_area : ℕ) → Cmd ℕ
spec_pass_up exc_type old_area new_area = do
  k ← get
  p ← deref k.current_proc
  set ← exc_area p exc_type
  if set == null
      then (do
        set_pcb p λ b. record b { exc_areas = put b.exc_areas exc_type new_area }
        exc_area p (3 + exc_type)
        set_pcb p λ b. record b { exc_areas = put b.exc_areas (3 + exc_type) old_area }
        pure syscall_success)
      else (do scheduler_kill_process p; pure syscall_failure)

unfoldable pub get_cpu_time : (user kernel wallclock : ℕ) → Cmd (Unit {0})
get_cpu_time user kernel wallclock = do
  now ← get_todlo
  k ← get
  p ← deref k.current_proc
  non_null wallclock
  store_word wallclock (sub32 now ((k.pcbs p).start_tm % word_size))
  non_null user
  store_word user ((k.pcbs p).user_tm % word_size)
  scheduler_account_time true
  k' ← get
  non_null kernel
  store_word kernel ((k'.pcbs p).kernel_tm % word_size)

unfoldable pub get_pid : (pid ppid : ℕ) → Cmd (Unit {0})
get_pid pid ppid = do
  k ← get
  store_if pid (pid_word k.current_proc)
  p ← deref k.current_proc
  store_if ppid (pid_word (k.pcbs p).p_parent)

-- `SYSRETURN(*old_state) = v`.
unfoldable pub sysreturn : ℕ → Cmd (Unit {0})
sysreturn v = do s ← load_state sysbk_oldarea; store_state sysbk_oldarea (set_sysreturn v s)

-- `pid`, as `syscall_handler` reads it from a register.
unfoldable pub syscall : StateT → ℕ → Cmd (Unit {0})
syscall s syscall_no =
    if syscall_no == getcputime
    then get_cpu_time (sysarg s 1) (sysarg s 2) (sysarg s 3)
    else if syscall_no == createprocess
    then (create_process (sysarg s 1) (sysarg s 2) (sysarg s 3) >>= sysreturn)
    else if syscall_no == terminateprocess
    then (terminate_process (word_pid (sysarg s 1)) >>= sysreturn)
    else if syscall_no == verhogen_no
    then verhogen (sysarg s 1)
    else if syscall_no == passeren_no
    then passeren (sysarg s 1)
    else if syscall_no == waitio
    then wait_io (sysarg s 1) (sysarg s 2) (sysarg s 3 % 256)
    else if syscall_no == specpassup
    then (spec_pass_up (sysarg s 1) (sysarg s 2) (sysarg s 3) >>= sysreturn)
    else if syscall_no == getpid
    then get_pid (sysarg s 1) (sysarg s 2)
    else scheduler_handle_exception specpassup_sysbk_type sysbk_oldarea

-- On uMPS the program counter is moved past the `SYSCALL` instruction.
unfoldable pub syscall_handler : Cmd (Unit {0})
syscall_handler = do
  scheduler_account_time false
  old ← load_state sysbk_oldarea
  if cause_exc old.cause == cause_syscall
      then (do
        store_state sysbk_oldarea (record old { pc_epc = (old.pc_epc + word_bytes) % word_size })
        syscall old (sysarg old 0))
      else pure tt
  scheduler_resume false sysbk_oldarea
