-- ===== src/Kernel.antt =====
-- src/exceptions.c and src/main.c: the other exception handlers, and the start of the kernel.
pub mod Boot
pub mod Family
pub mod Sound
pub mod Ancestors
pub mod Trees
pub mod Switches
pub mod Orphans
pub mod Terminate
pub mod Unhandled
pub mod PassUp
pub mod Unblock
pub mod Created
pub mod Newborn
pub mod Create
pub mod Waits
pub mod Calls
pub mod Served
pub mod Devices
pub mod Interrupts
pub mod Handlers
pub mod Steps
pub mod Alloc
pub mod Adopt
pub mod First
pub mod Start
pub mod Spec
pub mod Implements
pub mod Resumes
pub mod Refines
use bi_kaya.Base.{ℕ, ◌+◌}
use bi_kaya.ListX.{put}
use bi_kaya.Types.{StateT}
use bi_kaya.Machine.{Kernel, Cmd, ok, ◌>>=◌, ◌>>◌, get}
use bi_kaya.Umps.{
  int_newarea, tlb_oldarea, tlb_newarea, pgmtrap_oldarea, pgmtrap_newarea, sysbk_newarea,
  kernel_mode, all_int_disable, vm_off, set_sp, ram_top, store_state,
}
use bi_kaya.Pcb.{zero_state, pcb_init}
use bi_kaya.Asl.{asl_init}
use bi_kaya.Scheduler.{
  scheduler_init, scheduler_run, scheduler_handle_exception, specpassup_tlb_type,
  specpassup_trap_type,
}

unfoldable pub trap_exception_handler : Cmd (Unit {0})
trap_exception_handler = scheduler_handle_exception specpassup_trap_type pgmtrap_oldarea

unfoldable pub tlb_exception_handler : Cmd (Unit {0})
tlb_exception_handler = scheduler_handle_exception specpassup_tlb_type tlb_oldarea

-- `INIT_NEW_AREA` of include/macro.h.
unfoldable pub init_new_area : (area handler : ℕ) → Cmd (Unit {0})
init_new_area area handler = do
  k ← get
  store_state area (record (set_sp (ram_top k) zero_state) {
    pc_epc = handler;
    status = vm_off (all_int_disable (kernel_mode 0));
  })

-- The addresses of the functions of the kernel whose addresses it takes, and of `test`.
pub record Image : Type 0 where
  pub interrupts_code : ℕ
  pub tlb_code : ℕ
  pub trap_code : ℕ
  pub syscall_code : ℕ
  pub idle_code : ℕ
  pub test_code : ℕ

unfoldable pub main : Image → (idle_cpu cpu : StateT) → Cmd (Unit {0})
main image idle_cpu cpu = do
  init_new_area int_newarea image.interrupts_code
  init_new_area tlb_newarea image.tlb_code
  init_new_area pgmtrap_newarea image.trap_code
  init_new_area sysbk_newarea image.syscall_code
  pcb_init
  asl_init
  scheduler_init idle_cpu cpu image.idle_code image.test_code
  scheduler_run
