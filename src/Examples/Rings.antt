-- ===== src/Examples/Rings.antt =====
-- The theorems of include/listx.h at the sample memory.
use bi_kaya.Base.{ℕ, ◌≡◌, refl, some, List, arith, find, ltb}
use mathlib.Core.List.{reverse}
use bi_kaya.ListX.{list_find, list_for_each, list_for_each_prev}
use bi_kaya.ListX.Rings.{IsLoose}
use bi_kaya.ListX.Walk.{list_find-Rings, list_for_each_prev-reverse}
use bi_kaya.Types.{ready_queue}
use bi_kaya.Types.Lists.{entries}
use bi_kaya.Examples.{heads, memory, sample_lists, memory-Lists}

abbrev nodes : ℕ → List ℕ
nodes = entries sample_lists

-- The `p_next` of process 9 is in no list.
loose : IsLoose heads nodes 72
loose = record { entry = refl; loose = λ h at. ground arith }

list_find-Rings_example :
    list_find 3 memory.links (λ n. ltb n 40) ready_queue (memory.links.next ready_queue)
    ≡ some (find (λ n. ltb n 40) (nodes ready_queue))
list_find-Rings_example =
    list_find-Rings memory-Lists.rings 3 (λ n. ltb n 40) ready_queue refl (omega arith)

list_for_each_prev-reverse_example :
    (list_for_each 3 memory.links ready_queue (memory.links.next ready_queue)
      ≡ some (nodes ready_queue))
    × (list_for_each_prev 3 memory.links ready_queue (memory.links.prev ready_queue)
        ≡ some (reverse (nodes ready_queue)))
list_for_each_prev-reverse_example =
    list_for_each_prev-reverse 3 ready_queue memory-Lists.rings refl (omega arith)
