-- ===== src/Examples/Processes.antt =====
-- The theorems of src/pcb.c at the sample memory.
use bi_kaya.Base.{refl, arith}
use bi_kaya.Types.{ready_queue}
use bi_kaya.Machine.{Returns}
use bi_kaya.Pcb.{pcb_insert_in_queue}
use bi_kaya.Pcb.Order.{Ranked, pcb_insert_in_queue_ordered}
use bi_kaya.Examples.{heads, sample, sample_lists, memory, memory-Lists, is_off-IsOff}

-- Process 5 is before 4 in the ready queue, and 9 goes before both.
pcb_insert_in_queue_ordered_example :
    Returns
      (λ _ k'. Ranked heads memory sample_lists ready_queue 9 k')
      (pcb_insert_in_queue ready_queue 9 memory)
pcb_insert_in_queue_ordered_example =
    pcb_insert_in_queue_ordered memory ready_queue 9 memory-Lists refl refl
      (is_off-IsOff 0 9 sample refl) (omega arith) ((omega arith, tt), (tt, tt))
