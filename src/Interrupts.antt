-- ===== src/Interrupts.antt =====
-- src/interrupts.c: device interrupts wake the processes that wait for them, and the timer ends a
-- time slice.
pub mod Keys
pub mod Unblock
pub mod Lines
pub mod Pending
use bi_kaya.Base.{ℕ, zero, suc, ◌+◌, ◌-◌, ◌*◌, ◌/◌, ◌%◌, Bool, false, if◌then◌else◌, ◌==◌, ltb}
use bi_kaya.Types.{cmd_ack, word_size}
use bi_kaya.Terminal.{term_status, st_transmitted, st_received}
use bi_kaya.Machine.{Cmd, pure, ◌>>=◌, ◌>>◌, get, set_pcb, deref}
use bi_kaya.Umps.{
  int_oldarea, dev_reg_start, dev_reg_size, n_dev_per_il, dev_il_start, il_timer, il_disk, il_tape,
  il_ethernet, il_printer, il_terminal, dev_reg_addr, cdev_bitmap_addr, is_terminal, int_is_pending,
  set_sysreturn, store_word, set_timer, load_state,
}
use bi_kaya.Asl.{asl_remove_blocked}
use bi_kaya.Scheduler.{scheduler_enqueue_process, scheduler_account_time, scheduler_resume}

abbrev pub timer_ack : ℕ
timer_ack = 0xffff_ffff

-- Where the linker has put `devices_semkeys`.
abbrev pub devices_semkeys : ℕ
devices_semkeys = 0x2000_8000

-- The address of `devices_semkeys[row][col]`.
abbrev pub semkey_at : (row col : ℕ) → ℕ
semkey_at row col = devices_semkeys + 4 * (row * n_dev_per_il + col)

-- `term_rcpt` is a `uint8_t`.
unfoldable pub interrupts_get_dev_key : (reg term_rcpt : ℕ) → ℕ
interrupts_get_dev_key reg term_rcpt =
    let dev_abs_index = (reg + word_size - dev_reg_start) % word_size / dev_reg_size in
    let dev_rel_index = dev_abs_index % n_dev_per_il in
    let dev_line = dev_abs_index / n_dev_per_il in
    if ltb (dev_il_start + dev_line) il_terminal
    then semkey_at dev_line dev_rel_index
    else semkey_at (dev_line + term_rcpt) dev_rel_index

unfoldable pub unblock_process : (semkey status : ℕ) → Cmd (Unit {0})
unblock_process semkey status = do
  found ← asl_remove_blocked semkey
  unblocked ← deref found
  scheduler_enqueue_process unblocked
  set_pcb unblocked λ b. record b { p_s = set_sysreturn status b.p_s }

-- The registers of a device, from its address on: `status` and `command`; of a terminal,
-- `recv_status`, `recv_command`, `transm_status` and `transm_command`.
unfoldable pub handle_dtp : ℕ → Cmd (Unit {0})
handle_dtp device = do
  k ← get
  unblock_process (interrupts_get_dev_key device 0) (k.words device)
  store_word (device + 4) cmd_ack

unfoldable pub handle_transm : ℕ → Cmd (Unit {0})
handle_transm device = do
  k ← get
  if term_status (k.words (device + 8)) == st_transmitted
      then (do
        unblock_process (interrupts_get_dev_key device 0) (k.words (device + 8))
        store_word (device + 12) cmd_ack)
      else pure tt

unfoldable pub handle_recv : ℕ → Cmd (Unit {0})
handle_recv device = do
  k ← get
  if term_status (k.words device) == st_received
      then (do
        unblock_process (interrupts_get_dev_key device 1) (k.words device)
        store_word (device + 4) cmd_ack)
      else pure tt

unfoldable pub handle_term : ℕ → Cmd (Unit {0})
unfolding handle_transm handle_recv
handle_term device = handle_transm device >> handle_recv device

unfoldable pub handle_device : ℕ → Cmd (Unit {0})
handle_device device = if is_terminal device then handle_term device else handle_dtp device

-- The rounds left, `i`, and what is left of the bitmap.
unfoldable pub device_loop : ℕ → (line i bitmap : ℕ) → Cmd (Unit {0})
device_loop zero line i bitmap = pure tt
device_loop (suc n) line i bitmap = do
  if bitmap % 2 == 1 then handle_device (dev_reg_addr line i) else pure tt
  device_loop n line (i + 1) (bitmap / 2)

unfoldable pub handle_interrupt : ℕ → Cmd (Unit {0})
handle_interrupt line = do k ← get; device_loop 8 line 0 (k.words (cdev_bitmap_addr line) % 256)

abbrev pub when : Bool → Cmd (Unit {0}) → Cmd (Unit {0})
when test m = if test then m else pure tt

-- The device lines of `interrupts_handler`. A printer interrupt is handled on the network line, as
-- the source has it.
unfoldable pub handle_lines : ℕ → Cmd (Unit {0})
handle_lines cause = do
  when (int_is_pending cause il_disk) (handle_interrupt il_disk)
  when (int_is_pending cause il_tape) (handle_interrupt il_tape)
  when (int_is_pending cause il_ethernet) (handle_interrupt il_ethernet)
  when (int_is_pending cause il_printer) (handle_interrupt il_ethernet)
  when (int_is_pending cause il_terminal) (handle_interrupt il_terminal)

unfoldable pub interrupts_handler : Cmd (Unit {0})
interrupts_handler = do
  scheduler_account_time false
  old ← load_state int_oldarea
  let time_slice_ended = int_is_pending old.cause il_timer
  when time_slice_ended (set_timer timer_ack)
  handle_lines old.cause
  scheduler_resume time_slice_ended int_oldarea
