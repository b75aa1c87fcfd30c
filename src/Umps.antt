-- ===== src/Umps.antt =====
-- include/umps.h and the constants of umps/arch.h and umps/cp0.h that it uses: processor states,
-- device registers, the timer and the clock, for the uMPS target.
use Prim.Native.Nat.{bit_and, bit_or}
use bi_kaya.Base.{ℕ, suc, ◌+◌, ◌-◌, ◌*◌, ◌/◌, ◌%◌, ◌^◌, Bool, ◌==◌, leb, not, if◌then◌else◌}
use bi_kaya.ListX.{put}
use bi_kaya.Types.{StateT, word_size, null}
use bi_kaya.Machine.{Kernel, Cmd, ok, fault}

-- `WORD_SIZE`.
abbrev pub word_bytes : ℕ
word_bytes = 4

-- The areas to which the processor state is saved, and from which it is loaded, on an exception.
abbrev pub state_t_size : ℕ
state_t_size = 0x8c

abbrev pub excv_base : ℕ
excv_base = 0x2000_0000

abbrev pub int_oldarea : ℕ
int_oldarea = excv_base

abbrev pub int_newarea : ℕ
int_newarea = excv_base + state_t_size

abbrev pub tlb_oldarea : ℕ
tlb_oldarea = excv_base + 2 * state_t_size

abbrev pub tlb_newarea : ℕ
tlb_newarea = excv_base + 3 * state_t_size

abbrev pub pgmtrap_oldarea : ℕ
pgmtrap_oldarea = excv_base + 4 * state_t_size

abbrev pub pgmtrap_newarea : ℕ
pgmtrap_newarea = excv_base + 5 * state_t_size

abbrev pub sysbk_oldarea : ℕ
sysbk_oldarea = excv_base + 6 * state_t_size

abbrev pub sysbk_newarea : ℕ
sysbk_newarea = excv_base + 7 * state_t_size

-- Bus registers, and the register blocks of the external devices.
abbrev pub ram_base : ℕ
ram_base = 0x2000_0000

abbrev pub bus_reg_ram_size : ℕ
bus_reg_ram_size = 0x1000_0004

abbrev pub bus_reg_timer : ℕ
bus_reg_timer = 0x1000_0020

abbrev pub bus_reg_time_scale : ℕ
bus_reg_time_scale = 0x1000_0024

abbrev pub frame_size : ℕ
frame_size = 4096

abbrev pub n_ext_il : ℕ
n_ext_il = 5

abbrev pub n_dev_per_il : ℕ
n_dev_per_il = 8

abbrev pub dev_il_start : ℕ
dev_il_start = 3

abbrev pub il_timer : ℕ
il_timer = 2

abbrev pub il_disk : ℕ
il_disk = 3

abbrev pub il_tape : ℕ
il_tape = 4

abbrev pub il_ethernet : ℕ
il_ethernet = 5

abbrev pub il_printer : ℕ
il_printer = 6

abbrev pub il_terminal : ℕ
il_terminal = 7

abbrev pub dev_reg_start : ℕ
dev_reg_start = 0x1000_0050

abbrev pub dev_reg_size : ℕ
dev_reg_size = 16

abbrev pub dev_reg_addr : (line dev : ℕ) → ℕ
dev_reg_addr line dev =
    dev_reg_start + (line - dev_il_start) * n_dev_per_il * dev_reg_size + dev * dev_reg_size

abbrev pub cdev_bitmap_addr : ℕ → ℕ
cdev_bitmap_addr line = 0x1000_003c + (line - dev_il_start) * 4

abbrev pub term_0_addr : ℕ
term_0_addr = 0x1000_0250

abbrev pub is_terminal : ℕ → Bool
is_terminal device = leb term_0_addr device

-- `~x` on a word.
abbrev pub complement : ℕ → ℕ
complement x = word_size - 1 - x

abbrev pub status_kuc : ℕ
status_kuc = 0x2

abbrev pub status_iep : ℕ
status_iep = 0x4

abbrev pub status_im_mask : ℕ
status_im_mask = 0xff00

abbrev pub vm_on : ℕ
vm_on = 0x0100_0000

unfoldable pub kernel_mode : ℕ → ℕ
kernel_mode status = bit_and status (complement status_kuc)

unfoldable pub all_int_enable : ℕ → ℕ
all_int_enable status = bit_or (bit_or status status_im_mask) status_iep

unfoldable pub all_int_disable : ℕ → ℕ
all_int_disable status = bit_and status (complement status_iep)

-- `VM(state) &= VM_OFF`, where `VM` is the status register.
unfoldable pub vm_off : ℕ → ℕ
vm_off status = bit_and status (complement vm_on)

-- `CAUSE_EXC` and `INT_IS_PENDING`.
unfoldable pub cause_exc : ℕ → ℕ
cause_exc cause = cause / 4 % 32

abbrev pub cause_syscall : ℕ
cause_syscall = 8

unfoldable pub int_is_pending : (cause line : ℕ) → Bool
int_is_pending cause line = not (cause / 2 ^ (8 + line) % 2 == 0)

abbrev pub sysarg : StateT → ℕ → ℕ
sysarg s n = s.gpr (3 + n)

abbrev pub set_sysreturn : ℕ → StateT → StateT
set_sysreturn v s = record s { gpr = put s.gpr 1 v }

abbrev pub set_sp : ℕ → StateT → StateT
set_sp v s = record s { gpr = put s.gpr 26 v }

-- `RAM_TOP`, from the bus register that holds the size of the memory.
unfoldable pub ram_top : Kernel → ℕ
ram_top k = (ram_base + k.words bus_reg_ram_size) % word_size

-- Each reading of the clock is a new one.
unfoldable pub get_todlo : Cmd ℕ
get_todlo k = ok (k.tod 0 % word_size) (record k { tod = λ n. k.tod (suc n) })

-- A word is read or written through the pointer `a`, which nothing has tested.
abbrev pub non_null : ℕ → Cmd (Unit {0})
non_null a k = if a == null then fault else ok tt k

abbrev pub store_word : ℕ → ℕ → Cmd (Unit {0})
store_word a v k = ok tt (record k { words = put k.words a v })

unfoldable pub set_timer : ℕ → Cmd (Unit {0})
set_timer time = store_word bus_reg_timer time

-- `*p` for a `state_t *p`.
unfoldable pub load_state : ℕ → Cmd StateT
load_state a k = if a == null then fault else ok (k.states a) k

unfoldable pub store_state : ℕ → StateT → Cmd (Unit {0})
store_state a s k = if a == null then fault else ok tt (record k { states = put k.states a s })
