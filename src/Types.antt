-- ===== src/Types.antt =====
-- include/types.h and include/const.h: the structures of the kernel and where their list heads lie.
-- A `pcb_t *` or `semd_t *` is the index of its entry in `pcbTable` or `semdTable`.
pub mod Slots
pub mod Lists
pub mod Siblings
use bi_kaya.Base.{
  ℕ, ◌+◌, ◌-◌, ◌*◌, ◌/◌, ◌%◌, ◌^◌, Bool, Option, none, some, ◌==◌, ltb, if◌then◌else◌, ◌||◌,
}
use bi_kaya.ListX.{put}

abbrev pub max_proc : ℕ
max_proc = 20

abbrev pub cmd_ack : ℕ
cmd_ack = 1

abbrev pub st_ready : ℕ
st_ready = 1

abbrev pub st_busy : ℕ
st_busy = 3

abbrev pub default_priority : ℕ
default_priority = 1

-- `NULL` among the machine words: semaphore keys and the addresses of processor states.
abbrev pub null : ℕ
null = 0

abbrev pub word_size : ℕ
word_size = 2 ^ 32

-- The processor state of uMPS. `gpr 1` is `reg_v0`, `gpr 3` to `gpr 6` are `reg_a0` to `reg_a3`, and
-- `gpr 26` is `reg_sp`.
pub record StateT : Type 0 where
  pub entry_hi : ℕ
  pub cause : ℕ
  pub status : ℕ
  pub pc_epc : ℕ
  pub gpr : ℕ → ℕ
  pub hi : ℕ
  pub lo : ℕ

-- The fields of `pcb_t` but its three list heads. A priority is the bit pattern of an `int`.
-- `exc_areas` holds `exc_new_areas[3]` and behind it `exc_old_areas[3]`, as they lie in memory.
pub record Pcb : Type 0 where
  pub p_parent : Option ℕ
  pub p_s : StateT
  pub priority : ℕ
  pub original_priority : ℕ
  pub p_semkey : ℕ
  pub start_tm : ℕ
  pub user_tm : ℕ
  pub kernel_tm : ℕ
  pub exc_areas : ℕ → ℕ

-- The addresses of the list heads: those inside the structures, and the four dummies of pcb.c,
-- scheduler.c and asl.c.
abbrev pub p_next : ℕ → ℕ
p_next i = 8 * i

abbrev pub p_child : ℕ → ℕ
p_child i = 8 * i + 1

abbrev pub p_sib : ℕ → ℕ
p_sib i = 8 * i + 2

abbrev pub s_next : ℕ → ℕ
s_next i = 8 * i + 3

abbrev pub s_proc_q : ℕ → ℕ
s_proc_q i = 8 * i + 4

abbrev pub pcb_free_head : ℕ
pcb_free_head = 5

abbrev pub ready_queue : ℕ
ready_queue = 13

abbrev pub semd_free : ℕ
semd_free = 21

abbrev pub asl : ℕ
asl = 29

-- The structure that holds a list head.
abbrev pub container_of : ℕ → ℕ
container_of node = node / 8

-- The member through which the lists at a head are threaded, and its address in structure `i`.
abbrev pub member : ℕ → ℕ
member head = if head % 8 == 1 then 2 else if (head == semd_free) || (head == asl) then 3 else 0

abbrev pub slot : ℕ → ℕ → ℕ
slot head i = 8 * i + member head

-- An `int` by its bit pattern: `rank` keeps the order of the numbers.
abbrev pub rank : ℕ → ℕ
rank w = (w + 2 ^ 31) % word_size

abbrev pub int_lt : ℕ → ℕ → Bool
int_lt a b = ltb (rank a) (rank b)
