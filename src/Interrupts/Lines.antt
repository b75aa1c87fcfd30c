-- ===== src/Interrupts/Lines.antt =====
-- The device lines in `interrupts_handler` of src/interrupts.c.
use bi_kaya.Base.{ℕ, zero, suc, ◌+◌, ◌%◌, ◌≡◌, refl, true, false}
use bi_kaya.Machine.{Kernel, ok}
use bi_kaya.Umps.{
  cdev_bitmap_addr, il_disk, il_tape, il_ethernet, il_printer, il_terminal, int_is_pending,
}
use bi_kaya.Interrupts.{device_loop, handle_interrupt, handle_lines}

-- No bit, no device.
device_loop-none : (n line i : ℕ) (k : Kernel) → device_loop n line i 0 k ≡ ok tt k
unfolding device_loop
device_loop-none zero line i k = refl
device_loop-none (suc n) line i k = device_loop-none n line (i + 1) k

-- Where only the line of the printers is pending, and no network adapter has its bit set, `handle_lines`
-- does nothing at all, whatever the bits of the printers are.
pub handle_lines-printer :
    (cause : ℕ) (k : Kernel)
    → int_is_pending cause il_printer ≡ true
    → int_is_pending cause il_disk ≡ false
    → int_is_pending cause il_tape ≡ false
    → int_is_pending cause il_ethernet ≡ false
    → int_is_pending cause il_terminal ≡ false
    → k.words (cdev_bitmap_addr il_ethernet) % 256 ≡ 0
    → handle_lines cause k ≡ ok tt k
unfolding handle_lines handle_interrupt
handle_lines-printer cause k printer disk tape ethernet terminal quiet =
    rw (disk, tape, ethernet, printer, terminal, quiet, device_loop-none 8 il_ethernet 0 k) refl
