-- ===== src/Pcb.antt =====
-- src/pcb.c: the process control blocks, their free list, the process queues and the process tree.
pub mod Insert
pub mod Order
pub mod Remove
pub mod Free
pub mod Tree
use mathlib.Core.Option
use bi_kaya.Base.{ℕ, zero, suc, ◌+◌, Bool, true, false, Option, none, some, if◌then◌else◌, ◌==◌}
use bi_kaya.ListX.{
  Links, put, init_list_head, list_add, list_add_tail, list_del, list_empty, list_next,
}
use bi_kaya.Types.{
  StateT, Pcb, max_proc, null, p_next, p_child, p_sib, pcb_free_head, container_of, int_lt,
}
use bi_kaya.Machine.{
  Kernel, Cmd, pure, ◌>>=◌, ◌>>◌, get, modify, set_links, set_pcb, search_list, Run, ok,
}

-- `memset(…, 0, …)` of a processor state and of a PCB.
abbrev pub zero_state : StateT
zero_state = record {
  entry_hi = 0;
  cause = 0;
  status = 0;
  pc_epc = 0;
  gpr = λ _. 0;
  hi = 0;
  lo = 0;
}

abbrev pub zero_pcb : Pcb
zero_pcb = record {
  p_parent = none;
  p_s = zero_state;
  priority = 0;
  original_priority = 0;
  p_semkey = null;
  start_tm = 0;
  user_tm = 0;
  kernel_tm = 0;
  exc_areas = λ _. null;
}

-- The rounds left, and `i`.
unfoldable pub pcb_init_loop : ℕ → ℕ → Links → Links
pcb_init_loop zero i l = l
pcb_init_loop (suc n) i l = pcb_init_loop n (i + 1) (list_add l (p_next i) pcb_free_head)

unfoldable pub pcb_init : Cmd (Unit {0})
unfolding pcb_init_loop
pcb_init = set_links (pcb_init_loop max_proc 0)

unfoldable pub pcb_free : ℕ → Cmd (Unit {0})
pcb_free p = set_links λ l. list_add l (p_next p) pcb_free_head

-- The three list heads, which `memset` zeroes too, are initialised at once.
pub alloc_first : Option ℕ → Cmd (Option ℕ)
alloc_first none = pure none
alloc_first (some next) = do
  set_links λ l. list_del l next
  let pcb = container_of next
  set_pcb pcb (λ _. zero_pcb)
  set_links λ l. init_list_head l (p_child pcb)
  set_links λ l. init_list_head l (p_next pcb)
  set_links λ l. init_list_head l (p_sib pcb)
  pure (some pcb)

unfoldable pub pcb_alloc : Cmd (Option ℕ)
unfolding alloc_first
pcb_alloc = do k ← get; alloc_first (list_next k.links pcb_free_head)

unfoldable pub pcb_make_empty_queue : ℕ → Cmd (Unit {0})
pcb_make_empty_queue head = set_links λ l. init_list_head l head

unfoldable pub pcb_is_queue_empty : ℕ → Cmd Bool
pcb_is_queue_empty head k = ok (list_empty k.links head) k

-- The new process goes before the first of lower priority, or last.
unfoldable pub pcb_insert_in_queue : ℕ → ℕ → Cmd (Unit {0})
unfolding pcb_is_queue_empty
pcb_insert_in_queue head p = do
  empty ← pcb_is_queue_empty head
  if empty then (set_links λ l. list_add_tail l (p_next p) head) else do
    k ← get
    it ← search_list (λ i. int_lt (k.pcbs i).priority (k.pcbs p).priority) head
    elim it [
      | some node ↦ set_links λ l. list_add_tail l (p_next p) node
      | none ↦ set_links λ l. list_add_tail l (p_next p) head
    ]

unfoldable pub pcb_queue_head : ℕ → Cmd (Option ℕ)
pcb_queue_head head k =
    if list_empty k.links head
    then ok none k
    else ok (Option.map container_of (list_next k.links head)) k

pub remove_head : Option ℕ → Cmd (Option ℕ)
remove_head none = pure none
remove_head (some p) = do set_links (λ l. list_del l (p_next p)); pure (some p)

unfoldable pub pcb_remove_from_queue : ℕ → Cmd (Option ℕ)
unfolding pcb_queue_head remove_head
pcb_remove_from_queue head = pcb_queue_head head >>= remove_head

unfoldable pub pcb_is_free : ℕ → Cmd Bool
pcb_is_free p = do
  it ← search_list (λ i. i == p) pcb_free_head
  elim it [ some _ ↦ pure true | none ↦ pure false ]

unfoldable pub pcb_find_and_remove : ℕ → ℕ → Cmd (Option ℕ)
pcb_find_and_remove head p = do
  it ← search_list (λ i. i == p) head
  elim it [ some _ ↦ do set_links (λ l. list_del l (p_next p)); pure (some p) | none ↦ pure none ]

unfoldable pub pcb_has_no_children : ℕ → Cmd Bool
pcb_has_no_children this k = ok (list_empty k.links (p_child this)) k

unfoldable pub pcb_insert_child : ℕ → ℕ → Cmd (Unit {0})
pcb_insert_child parent p = do
  set_links λ l. list_add_tail l (p_sib p) (p_child parent)
  set_pcb p λ b. record b { p_parent = some parent }

pub detach_first : Option ℕ → Cmd (Option ℕ)
detach_first none = pure none
detach_first (some child) = do
  let pcb = container_of child
  set_links λ l. list_del l child
  set_pcb pcb λ b. record b { p_parent = none }
  pure (some pcb)

unfoldable pub pcb_remove_child : ℕ → Cmd (Option ℕ)
unfolding detach_first
pcb_remove_child p = do k ← get; detach_first (list_next k.links (p_child p))

pub detach : Option ℕ → ℕ → Cmd (Option ℕ)
detach none p = pure none
detach (some parent) p = do
  set_links λ l. list_del l (p_sib p)
  set_pcb p λ b. record b { p_parent = none }
  pure (some p)

unfoldable pub pcb_find_and_remove_child : ℕ → Cmd (Option ℕ)
unfolding detach
pcb_find_and_remove_child p = do k ← get; detach (k.pcbs p).p_parent p
