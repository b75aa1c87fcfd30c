-- ===== src/Examples/Entries.antt =====
-- The handlers of the kernel at the sample memory: a process that ends itself, and a disk that is ready.
use bi_kaya.Base.{refl, [], arith, ◌==◌, if◌then◌else◌}
use bi_kaya.ListX.{put}
use bi_kaya.Types.{StateT, asl}
use bi_kaya.Machine.{Kernel, Returns, Leaves}
use bi_kaya.Umps.{int_oldarea, sysbk_oldarea, cdev_bitmap_addr, il_disk, int_is_pending}
use bi_kaya.Pcb.{zero_state}
use bi_kaya.Asl.Semaphores.{waiting, queue_at}
use bi_kaya.Syscalls.{syscall_handler}
use bi_kaya.Interrupts.{handle_lines, interrupts_handler, interrupts_get_dev_key}
use bi_kaya.Interrupts.Pending.{pending_requests}
use bi_kaya.Kernel.Sound.{Sound, Sound-frame, IsSound, Stands}
use bi_kaya.Kernel.Calls.{Proper}
use bi_kaya.Kernel.Handlers.{syscall_handler-Stands}
use bi_kaya.Kernel.Served.{AreLow, Served, Attended}
use bi_kaya.Kernel.Interrupts.{handle_lines-Served, interrupts_handler-Sound}
use bi_kaya.Examples.Whole.{table_heads, whole, whole_lists, whole-Sound, elsewhere-free}

-- Exception 8 is a system call, and number 3 `terminate_process`, here of `NULL`.
abbrev asked : StateT
asked = record zero_state { cause = 32; gpr = λ r. if r == 3 then 3 else 0 }

abbrev calling : Kernel
calling = record whole { states = put whole.states sysbk_oldarea asked }

asked-Proper : Proper calling asked 8
asked-Proper = record {
  given = λ t. cc;
  target = λ p t e. (ground (arith, e), λ c n running up. ground (arith, running, up));
  times = λ t. cc;
  raised = λ t. cc;
  lowered = λ t. cc;
  device = λ t. cc;
  word = λ t. cc;
  type = λ t. cc;
  areas = λ declared. cc;
}

syscall_handler-Stands_example : Leaves (λ _ k'. Stands k') (syscall_handler calling)
syscall_handler-Stands_example =
    syscall_handler-Stands calling 8 (Sound-frame whole whole-Sound calling refl refl refl refl)
      refl (λ call. asked-Proper)

-- Bit 11 of the cause register is that of the disks, and the first of them has finished.
abbrev disk_ready : Kernel
disk_ready = record whole {
  words = put whole.words (cdev_bitmap_addr il_disk) 1;
  states = put whole.states int_oldarea (record zero_state { cause = 2048 });
}

disk_ready-Sound : Sound table_heads disk_ready whole_lists
disk_ready-Sound = Sound-frame whole whole-Sound disk_ready refl refl refl refl

low : AreLow disk_ready
low i lt = ground arith

attended : Attended disk_ready whole_lists [] (pending_requests disk_ready.words 2048)
unfolding waiting queue_at int_is_pending interrupts_get_dev_key
attended = (refl, (λ e. ground (arith, e, elsewhere-free asl)), tt)

handle_lines-Served_example :
    Returns
      (λ _ k'.
        Served table_heads disk_ready whole_lists (pending_requests disk_ready.words 2048) k')
      (handle_lines 2048 disk_ready)
handle_lines-Served_example =
    handle_lines-Served disk_ready whole_lists 2048 disk_ready-Sound low attended

interrupts_handler-Sound_example :
    Leaves (λ _ k'. IsSound table_heads k') (interrupts_handler disk_ready)
interrupts_handler-Sound_example =
    interrupts_handler-Sound disk_ready whole_lists disk_ready-Sound low attended
