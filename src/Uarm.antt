-- ===== src/Uarm.antt =====
-- include/uarm.h and the constants of uarm/arch.h and uarm/uARMconst.h that it uses: what the kernel
-- reads and writes of the machine when it is built for uARM.
pub mod Devices
use Prim.Native.Nat.{bit_and, bit_or}
use bi_kaya.Base.{ℕ, ◌+◌, ◌-◌, ◌*◌, ◌/◌, ◌%◌, ◌^◌, Bool, ◌==◌, leb, ltb, not, if◌then◌else◌}
use bi_kaya.Types.{word_size}
use bi_kaya.Umps.{complement}
use bi_kaya.Interrupts.{semkey_at}

-- The processor state of uARM, `state_t` of uARMtypes.h.
pub record StateT : Type 0 where
  pub a1 : ℕ
  pub a2 : ℕ
  pub a3 : ℕ
  pub a4 : ℕ
  pub v1 : ℕ
  pub v2 : ℕ
  pub v3 : ℕ
  pub v4 : ℕ
  pub v5 : ℕ
  pub v6 : ℕ
  pub sl : ℕ
  pub fp : ℕ
  pub ip : ℕ
  pub sp : ℕ
  pub lr : ℕ
  pub pc : ℕ
  pub cpsr : ℕ
  pub cp15_control : ℕ
  pub cp15_entry_hi : ℕ
  pub cp15_cause : ℕ
  pub tod_hi : ℕ
  pub tod_low : ℕ

-- The areas of the processor states of exceptions.
abbrev pub excv_base : ℕ
excv_base = 0x7000

abbrev pub state_t_size : ℕ
state_t_size = 88

abbrev pub int_oldarea : ℕ
int_oldarea = excv_base

abbrev pub int_newarea : ℕ
int_newarea = excv_base + state_t_size

abbrev pub tlb_oldarea : ℕ
tlb_oldarea = excv_base + 2 * state_t_size

abbrev pub tlb_newarea : ℕ
tlb_newarea = excv_base + 3 * state_t_size

abbrev pub pgmtrap_oldarea : ℕ
pgmtrap_oldarea = excv_base + 4 * state_t_size

abbrev pub pgmtrap_newarea : ℕ
pgmtrap_newarea = excv_base + 5 * state_t_size

abbrev pub sysbk_oldarea : ℕ
sysbk_oldarea = excv_base + 6 * state_t_size

abbrev pub sysbk_newarea : ℕ
sysbk_newarea = excv_base + 7 * state_t_size

-- The bus and the registers of the external devices.
abbrev pub word_bytes : ℕ
word_bytes = 4

abbrev pub bus_reg_ram_base : ℕ
bus_reg_ram_base = 0x2d0

abbrev pub bus_reg_ram_size : ℕ
bus_reg_ram_size = 0x2d4

-- `RAM_TOP`, of a memory of words.
unfoldable pub ram_top : (ℕ → ℕ) → ℕ
ram_top words = (words bus_reg_ram_base + words bus_reg_ram_size) % word_size

abbrev pub dev_reg_size : ℕ
dev_reg_size = 4 * word_bytes

abbrev pub n_interrupt_lines : ℕ
n_interrupt_lines = 8

abbrev pub n_ext_il : ℕ
n_ext_il = 5

abbrev pub n_dev_per_il : ℕ
n_dev_per_il = 8

abbrev pub dev_il_start : ℕ
dev_il_start = n_interrupt_lines - n_ext_il

abbrev pub il_terminal : ℕ
il_terminal = 7

abbrev pub cdev_bitmap_base : ℕ
cdev_bitmap_base = 0x6fe0

abbrev pub cdev_bitmap_addr : ℕ → ℕ
cdev_bitmap_addr line = cdev_bitmap_base + (line - dev_il_start) * word_bytes

abbrev pub dev_reg_start : ℕ
dev_reg_start = 0x40

abbrev pub dev_reg_addr : (line dev : ℕ) → ℕ
dev_reg_addr line dev =
    dev_reg_start + (line - dev_il_start) * n_dev_per_il * dev_reg_size + dev * dev_reg_size

abbrev pub term_0_addr : ℕ
term_0_addr = 0x240

abbrev pub is_terminal : ℕ → Bool
is_terminal device = leb term_0_addr device

-- The status register.
abbrev pub status_sys_mode : ℕ
status_sys_mode = 0x1f

abbrev pub status_id : ℕ
status_id = 0x80

abbrev pub status_timer_id : ℕ
status_timer_id = 0x40

unfoldable pub kernel_mode : StateT → ℕ
kernel_mode state = bit_or state.cpsr status_sys_mode

unfoldable pub all_int_enable : StateT → ℕ
all_int_enable state =
    bit_and (bit_and state.cpsr (complement status_timer_id)) (complement status_id)

unfoldable pub all_int_disable : StateT → ℕ
all_int_disable state = bit_or (bit_or state.cpsr status_timer_id) status_id

abbrev pub vm_on : ℕ
vm_on = 1

-- `VM(state) &= VM_OFF`, where `VM` is a register of its own.
unfoldable pub vm_off : ℕ → ℕ
vm_off control = bit_and control (complement vm_on)

-- The cause of an exception: its code are the low 24 bits, the pending lines the high ones.
unfoldable pub cause_exc : StateT → ℕ
cause_exc state = state.cp15_cause % 2 ^ 24

abbrev pub cause_syscall : ℕ
cause_syscall = 4

unfoldable pub int_is_pending : (cause line : ℕ) → Bool
int_is_pending cause line = not (cause / 2 ^ (24 + line) % 2 == 0)

-- The arguments of a system call, and its result, which takes the place of its number.
abbrev pub sysarg0 : StateT → ℕ
sysarg0 state = state.a1

abbrev pub sysarg1 : StateT → ℕ
sysarg1 state = state.a2

abbrev pub sysarg2 : StateT → ℕ
sysarg2 state = state.a3

abbrev pub sysarg3 : StateT → ℕ
sysarg3 state = state.a4

abbrev pub set_sysreturn : ℕ → StateT → StateT
set_sysreturn v state = record state { a1 = v }

-- The state in which `scheduler_init` starts a process: kernel mode, interrupts enabled, no virtual
-- memory.
unfoldable pub kernel_state : StateT → StateT
unfolding kernel_mode all_int_enable vm_off
kernel_state state =
    let s1 : StateT = record state { cpsr = kernel_mode state } in
    let s2 : StateT = record s1 { cpsr = all_int_enable s1 } in
    record s2 { cp15_control = vm_off s2.cp15_control }

-- `INIT_NEW_AREA` on a state that `memset` has cleared.
unfoldable pub init_new_area : (words : ℕ → ℕ) (handler : ℕ) → StateT → StateT
unfolding ram_top kernel_mode all_int_disable vm_off
init_new_area words handler zero_state =
    let s1 : StateT = record zero_state { pc = handler; sp = ram_top words } in
    let s2 : StateT = record s1 { cpsr = kernel_mode s1 } in
    let s3 : StateT = record s2 { cpsr = all_int_disable s2 } in
    record s3 { cp15_control = vm_off s3.cp15_control }

-- The program counter of an interrupted process is one instruction ahead.
unfoldable pub step_back : StateT → StateT
step_back state = record state { pc = (state.pc + word_size - word_bytes) % word_size }

-- `interrupts_get_dev_key` with the addresses of this machine.
unfoldable pub get_dev_key : (reg term_rcpt : ℕ) → ℕ
get_dev_key reg term_rcpt =
    let dev_abs_index = (reg + word_size - dev_reg_start) % word_size / dev_reg_size in
    let dev_rel_index = dev_abs_index % n_dev_per_il in
    let dev_line = dev_abs_index / n_dev_per_il in
    if ltb (dev_il_start + dev_line) il_terminal
    then semkey_at dev_line dev_rel_index
    else semkey_at (dev_line + term_rcpt) dev_rel_index
