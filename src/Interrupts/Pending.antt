-- ===== src/Interrupts/Pending.antt =====
-- Which semaphores src/interrupts.c raises: their keys, each with the status that the process which is woken
-- gets, from the registers as they are when the handler is entered.
use bi_kaya.Base.{
  ℕ, zero, suc, ◌+◌, ◌/◌, ◌%◌, Bool, List, [], ◌∷◌, ◌++◌, if◌then◌else◌, ◌==◌, ◌||◌, false, ◌&&◌,
  ◌≡◌, refl, arith,
}
use mathlib.Core.List.{reverse_aux}
use bi_kaya.Terminal.{term_status, st_transmitted, st_received}
use bi_kaya.Umps.{
  il_disk, il_tape, il_ethernet, il_printer, il_terminal, dev_reg_addr, cdev_bitmap_addr,
  is_terminal, int_is_pending,
}
use bi_kaya.Interrupts.{interrupts_get_dev_key}

-- A key, and the status of the device.
abbrev pub Request : Type 0
Request = ℕ × ℕ

abbrev pub only_if : Bool → List Request → List Request
only_if test requests = if test then requests else []

-- A terminal has two semaphores.
abbrev pub device_requests : (ℕ → ℕ) → ℕ → List Request
device_requests words device =
    if is_terminal device
    then (only_if (term_status (words (device + 8)) == st_transmitted)
          ((interrupts_get_dev_key device 0, words (device + 8)) ∷ [])
        ++ only_if (term_status (words device) == st_received)
            ((interrupts_get_dev_key device 1, words device) ∷ []))
    else ((interrupts_get_dev_key device 0, words device) ∷ [])

abbrev pub bitmap_requests : (ℕ → ℕ) → ℕ → (line i bitmap : ℕ) → List Request
bitmap_requests words zero line i bitmap = []
bitmap_requests words (suc n) line i bitmap =
    only_if (bitmap % 2 == 1) (device_requests words (dev_reg_addr line i))
    ++ bitmap_requests words n line (i + 1) (bitmap / 2)

abbrev pub line_requests : (ℕ → ℕ) → ℕ → List Request
line_requests words line = bitmap_requests words 8 line 0 (words (cdev_bitmap_addr line) % 256)

-- The devices of the network line are served for the printers once more.
abbrev pub pending_requests : (ℕ → ℕ) → ℕ → List Request
pending_requests words cause =
    only_if (int_is_pending cause il_disk) (line_requests words il_disk)
    ++ (only_if (int_is_pending cause il_tape) (line_requests words il_tape)
        ++ (only_if (int_is_pending cause il_ethernet) (line_requests words il_ethernet)
            ++ (only_if (int_is_pending cause il_printer) (line_requests words il_ethernet)
                ++ only_if (int_is_pending cause il_terminal) (line_requests words il_terminal))))

abbrev pub any_of : (Request → Bool) → List Request → Bool
any_of test [] = false
any_of test (r ∷ rs) = test r || any_of test rs

pub any_of-reverse_aux :
    (test : Request → Bool) (rs done : List Request)
    → any_of test (reverse_aux rs done) ≡ (any_of test rs || any_of test done)
any_of-reverse_aux test [] done = refl
any_of-reverse_aux test (r ∷ rs) done = ground (arith, any_of-reverse_aux test rs (r ∷ done))

-- Some request is for `key`.
abbrev pub for_key : ℕ → List Request → Bool
for_key key = any_of λ r. r.0 == key

-- `key` is requested with that status.
abbrev pub requested : (key status : ℕ) → List Request → Bool
requested key status = any_of λ r. (r.0 == key) && (r.1 == status)
