-- ===== src/Asl.antt =====
-- src/asl.c: the active semaphore list. A descriptor in use is on `asl` and has the processes that
-- are blocked on its key; the others are on `semdFree`.
pub mod Semaphores
pub mod Join
pub mod Open
pub mod Insert
pub mod Enough
pub mod Leave
pub mod Remove
pub mod Subtree
use mathlib.Core.Option
use bi_kaya.Base.{ℕ, zero, suc, ◌+◌, Bool, true, false, Option, none, some, if◌then◌else◌, ◌==◌}
use bi_kaya.ListX.{Links, put, init_list_head, list_add, list_del, list_empty, list_next}
use bi_kaya.Types.{
  Pcb, max_proc, null, p_next, p_child, s_next, s_proc_q, semd_free, asl, container_of,
}
use bi_kaya.Machine.{
  Kernel, Run, Cmd, ok, out_of_fuel, pure, and_then, ◌>>=◌, ◌>>◌, get, modify, set_links, set_pcb,
  deref, search_list, for_each_entry,
}
use bi_kaya.Pcb.{pcb_insert_in_queue}

abbrev pub set_semkey : ℕ → Pcb → Pcb
set_semkey key b = record b { p_semkey = key }

unfoldable pub asl_semd : ℕ → Cmd (Option ℕ)
asl_semd key = do
  k ← get
  it ← search_list (λ j. k.s_keys j == key) asl
  pure (Option.map container_of it)

-- One round of the loop of `asl_init`.
unfoldable pub init_semd : ℕ → Kernel → Kernel
init_semd i k = record k {
  s_keys = put k.s_keys i null;
  links = list_add (init_list_head k.links (s_proc_q i)) (s_next i) semd_free;
}

unfoldable pub asl_init_loop : ℕ → ℕ → Kernel → Kernel
asl_init_loop zero i k = k
asl_init_loop (suc n) i k = asl_init_loop n (i + 1) (init_semd i k)

unfoldable pub asl_init : Cmd (Unit {0})
unfolding asl_init_loop init_semd
asl_init = modify (asl_init_loop max_proc 0)

-- The end of `asl_insert_blocked`, with the descriptor at hand.
pub block_on : ℕ → ℕ → ℕ → Cmd Bool
block_on key p semd = do
  pcb_insert_in_queue (s_proc_q semd) p
  modify λ k. record k { s_keys = put k.s_keys semd key }
  set_pcb p (set_semkey key)
  pure false

-- A descriptor moves from the free list to the front of the active one.
pub activate : ℕ → Cmd (Unit {0})
activate semd = do
  set_links λ l. list_del l (s_next semd)
  set_links λ l. list_add l (s_next semd) asl

pub insert_new : ℕ → ℕ → Option ℕ → Cmd Bool
unfolding activate block_on
insert_new key p none = pure true
insert_new key p (some node) = do activate (container_of node); block_on key p (container_of node)

pub insert_found : ℕ → ℕ → Option ℕ → Cmd Bool
unfolding insert_new block_on
insert_found key p (some semd) = block_on key p semd
insert_found key p none = do k ← get; insert_new key p (list_next k.links semd_free)

-- `true` is failure: no descriptor is left.
unfoldable pub asl_insert_blocked : ℕ → ℕ → Cmd Bool
unfolding insert_found asl_semd
asl_insert_blocked key p = asl_semd key >>= insert_found key p

-- A descriptor whose queue is empty goes back to the free list.
pub release_if_empty : ℕ → Cmd (Unit {0})
release_if_empty semd k =
    if list_empty k.links (s_proc_q semd)
    then ok tt
        (record k { links = list_add (list_del k.links (s_next semd)) (s_next semd) semd_free })
    else ok tt k

pub remove_found : Option ℕ → Cmd (Option ℕ)
unfolding release_if_empty
remove_found none = pure none
remove_found (some semd) = do
  k ← get
  elem ← deref (list_next k.links (s_proc_q semd))
  set_links λ l. list_del l elem
  release_if_empty semd
  set_pcb (container_of elem) (set_semkey null)
  pure (some (container_of elem))

unfoldable pub asl_remove_blocked : ℕ → Cmd (Option ℕ)
unfolding asl_semd remove_found
asl_remove_blocked key = asl_semd key >>= remove_found

-- The node at which the search for `p` has stopped, if it was found.
pub unlink_blocked : ℕ → ℕ → Option ℕ → Cmd (Option ℕ)
unfolding release_if_empty
unlink_blocked p semd none = pure none
unlink_blocked p semd (some node) = do
  set_links λ l. list_del l node
  release_if_empty semd
  pure (some p)

pub find_in : ℕ → Option ℕ → Cmd (Option ℕ)
unfolding unlink_blocked
find_in p none = pure none
find_in p (some semd) = search_list (λ i. i == p) (s_proc_q semd) >>= unlink_blocked p semd

unfoldable pub asl_find_and_remove_blocked : ℕ → Cmd (Option ℕ)
unfolding asl_semd find_in
asl_find_and_remove_blocked p = do k ← get; semd ← asl_semd (k.pcbs p).p_semkey; find_in p semd

pub head_blocked : Option ℕ → Cmd (Option ℕ)
head_blocked none k = ok none k
head_blocked (some semd) k = ok (Option.map container_of (list_next k.links (s_proc_q semd))) k

unfoldable pub asl_blocked_head : ℕ → Cmd (Option ℕ)
unfolding asl_semd head_blocked
asl_blocked_head key = asl_semd key >>= head_blocked

-- The rest of `asl_find_and_remove_blocked_child` for a process with a key in use, given the call
-- for a child.
pub remove_subtree : (ℕ → Cmd (Unit {0})) → ℕ → Option ℕ → Cmd (Unit {0})
remove_subtree remove p none = pure tt
remove_subtree remove p (some semd) = do
  for_each_entry remove (p_child p)
  asl_find_and_remove_blocked p
  pure tt

-- On fuel: the depth of the process tree.
unfoldable pub asl_find_and_remove_blocked_child : ℕ → ℕ → Cmd (Unit {0})
unfolding asl_semd remove_subtree
asl_find_and_remove_blocked_child zero p = λ _. out_of_fuel
asl_find_and_remove_blocked_child (suc depth) p = do
  k ← get
  semd ← asl_semd (k.pcbs p).p_semkey
  remove_subtree (asl_find_and_remove_blocked_child depth) p semd
