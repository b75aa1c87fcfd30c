-- ===== src/Examples/Blocked.antt =====
-- The theorems of src/asl.c at the sample memory, and that of the start at an empty one.
use bi_kaya.Base.{true, [], ℕ, ◌<◌, List, has, false, ◌||◌, ◌≡◌, refl, arith}
use bi_kaya.Types.{max_proc, semd_free, asl}
use bi_kaya.Types.Lists.{IsOff}
use bi_kaya.Asl.Join.{Joined}
use bi_kaya.Asl.Enough.{asl_insert_blocked-Joined}
use bi_kaya.Machine.{Kernel, Returns}
use bi_kaya.Asl.{asl_init_loop, asl_insert_blocked, asl_remove_blocked, asl_find_and_remove_blocked}
use bi_kaya.Asl.Insert.{Inserted, asl_insert_blocked_lem}
use bi_kaya.Asl.Remove.{Removed, Withdrawn, asl_remove_blocked_lem, asl_find_and_remove_blocked_lem}
use bi_kaya.Kernel.Boot.{
  boot_live, boot_lists, static_links, table, asl_init_loop-Semaphores, has-table,
}
use bi_kaya.Examples.{
  sample_key, heads, sample, sample_lists, memory, memory-Semaphores, is_off-IsOff,
}

-- Nobody waits for key 200 yet: the free descriptor is taken.
asl_insert_blocked_example :
    Returns (Inserted heads memory sample_lists 200 9) (asl_insert_blocked 200 9 memory)
asl_insert_blocked_example =
    asl_insert_blocked_lem memory 200 9 memory-Semaphores (is_off-IsOff 0 9 sample refl)
      (omega arith)

asl_remove_blocked_example :
    Returns (Removed heads memory sample_lists sample_key) (asl_remove_blocked sample_key memory)
asl_remove_blocked_example = asl_remove_blocked_lem memory memory-Semaphores sample_key

asl_find_and_remove_blocked_example :
    Returns (Withdrawn heads memory sample_lists 1) (asl_find_and_remove_blocked 1 memory)
asl_find_and_remove_blocked_example = asl_find_and_remove_blocked_lem memory memory-Semaphores 1

abbrev unused : Kernel
unused = record memory { links = static_links }

-- All descriptors are free, and no process is in any list.
abbrev ready_made : Kernel
ready_made = record memory { links = static_links }

free_descriptors-IsOff : (p : ℕ) → IsOff (boot_live max_proc) (boot_lists [] table) 0 p
free_descriptors-IsOff p h at via = ground arith

every_descriptor :
    (j : ℕ)
    → j < max_proc
    → (has j (boot_lists [] table asl) || has j (boot_lists [] table semd_free)) ≡ true
every_descriptor j lt = ground (arith, has-table j lt)

enough_descriptors_example :
    Returns
      (λ failed k'.
        (failed ≡ false)
        × ((qs' : ℕ → List ℕ) × Joined
              (boot_live max_proc)
              (asl_init_loop max_proc 0 ready_made)
              (boot_lists [] table)
              100
              7
              k'
              qs'))
      (asl_insert_blocked 100 7 (asl_init_loop max_proc 0 ready_made))
enough_descriptors_example =
    asl_insert_blocked-Joined (asl_init_loop max_proc 0 ready_made) 100 7
      (asl_init_loop-Semaphores ready_made refl) every_descriptor (free_descriptors-IsOff 7)
      (omega arith)
