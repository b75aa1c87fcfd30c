-- ===== src/Kernel/Devices.antt =====
-- The device lines in `interrupts_handler` of src/interrupts.c, in a sound kernel in which somebody waits for
-- each device that has an interrupt.
use mathlib.Core.List.{reverse_aux, append_assoc}
use bi_kaya.Base.{
  ℕ, zero, suc, ◌+◌, ◌/◌, ◌%◌, ◌≤◌, ◌≡◌, sym, inl, inr, Bool, true, false, List, [], ◌∷◌, ◌++◌,
  arith, ◌==◌, Bool-cases, if◌then◌else◌, subst, reverse_aux-append,
}
use bi_kaya.Types.{cmd_ack}
use bi_kaya.Terminal.{term_status, st_transmitted, st_received}
use bi_kaya.Machine.{Kernel, Cmd, pure, Returns, Returns-map, Returns-bind, ◌>>◌}
use bi_kaya.Umps.{dev_reg_start, dev_reg_addr, cdev_bitmap_addr, is_terminal, store_word}
use bi_kaya.Interrupts.{
  interrupts_get_dev_key, unblock_process, handle_dtp, handle_transm, handle_recv, handle_term,
  handle_device, device_loop, handle_interrupt,
}
use bi_kaya.Interrupts.Pending.{Request, only_if, device_requests, bitmap_requests, line_requests}
use bi_kaya.Kernel.Served.{IsRead, Serves, wake_and_acknowledge}

module _ (live : ℕ → Bool) (k : Kernel) (qs : ℕ → List ℕ) where
  -- `m` answers each of `requests`.
  abbrev pub Wakes : List Request → Cmd (Unit {0}) → Type 0
  Wakes requests m =
      (done rest : List Request) (k1 : Kernel)
      → Serves live k qs done (requests ++ rest) k1
      → Returns (λ _ k'. Serves live k qs (reverse_aux requests done) rest k') (m k1)

  pub Wakes-seq :
      (xs ys : List Request) (m n : Cmd (Unit {0}))
      → Wakes xs m
      → Wakes ys n
      → Wakes (xs ++ ys) (m >> n)
  Wakes-seq xs ys m n a b done rest k1 v =
      Returns-bind _ _ (m k1) _
        (a done (ys ++ rest) k1
          (subst (λ l. Serves live k qs done l k1) (append_assoc xs ys rest) v))
        λ _ k2 v2. Returns-map _ _ (n k2) (b (reverse_aux xs done) rest k2 v2) λ _ k3 v3.
          subst (λ l. Serves live k qs l rest k3) (sym (reverse_aux-append xs ys done)) v3

  pub Wakes-if :
      (test : Bool) (requests : List Request) (m : Cmd (Unit {0}))
      → Wakes requests m
      → Wakes (only_if test requests) (if test then m else pure tt)
  Wakes-if true requests m a = a
  Wakes-if false requests m a = λ done rest k1 v. v

  -- It depends on a register that is still as it was.
  Wakes-reads :
      (a : ℕ) (requests : ℕ → List Request) (m : ℕ → Cmd (Unit {0}))
      → IsRead a
      → ((w : ℕ) → Wakes (requests w) (m w))
      → Wakes (requests (k.words a)) (λ k1. m (k1.words a) k1)
  Wakes-reads a requests m read wakes done rest k1 v =
      subst
        (λ w.
          Returns (λ _ k'. Serves live k qs (reverse_aux (requests (k.words a)) done) rest k')
            (m w k1))
        (sym (v.0.reads a read)) (wakes (k.words a) done rest k1 v)

  handle_dtp-Wakes :
      (device : ℕ)
      → device % 8 ≡ 0
      → dev_reg_start ≤ device
      → Wakes ((interrupts_get_dev_key device 0, k.words device) ∷ []) (handle_dtp device)
  unfolding handle_dtp
  handle_dtp-Wakes device even high =
      Wakes-reads device (λ w. (interrupts_get_dev_key device 0, w) ∷ [])
        (λ w.
          unblock_process (interrupts_get_dev_key device 0) w >> store_word (device + 4) cmd_ack)
        (ground arith, inl even)
        λ w done rest k1.
          wake_and_acknowledge live k qs (interrupts_get_dev_key device 0) w (device + 4) done rest
            k1 (ground arith, omega arith)

  handle_transm-Wakes :
      (device : ℕ)
      → device % 8 ≡ 0
      → dev_reg_start ≤ device
      → Wakes
          (only_if
            (term_status (k.words (device + 8)) == st_transmitted)
            ((interrupts_get_dev_key device 0, k.words (device + 8)) ∷ []))
          (handle_transm device)
  unfolding handle_transm
  handle_transm-Wakes device even high =
      Wakes-reads (device + 8)
        (λ w. only_if (term_status w == st_transmitted) ((interrupts_get_dev_key device 0, w) ∷ []))
        (λ w.
          if term_status w == st_transmitted
          then (unblock_process (interrupts_get_dev_key device 0) w
              >> store_word (device + 12) cmd_ack)
          else pure tt)
        (ground arith, inl (ground arith))
        λ w. Wakes-if _ _ _ λ done rest k1.
          wake_and_acknowledge live k qs (interrupts_get_dev_key device 0) w (device + 12) done rest
            k1 (ground arith, omega arith)

  handle_recv-Wakes :
      (device : ℕ)
      → device % 8 ≡ 0
      → dev_reg_start ≤ device
      → Wakes
          (only_if
            (term_status (k.words device) == st_received)
            ((interrupts_get_dev_key device 1, k.words device) ∷ []))
          (handle_recv device)
  unfolding handle_recv
  handle_recv-Wakes device even high =
      Wakes-reads device
        (λ w. only_if (term_status w == st_received) ((interrupts_get_dev_key device 1, w) ∷ []))
        (λ w.
          if term_status w == st_received
          then (unblock_process (interrupts_get_dev_key device 1) w
              >> store_word (device + 4) cmd_ack)
          else pure tt)
        (ground arith, inl even)
        λ w. Wakes-if _ _ _ λ done rest k1.
          wake_and_acknowledge live k qs (interrupts_get_dev_key device 1) w (device + 4) done rest
            k1 (ground arith, omega arith)

  handle_device-Wakes :
      (device : ℕ)
      → device % 8 ≡ 0
      → dev_reg_start ≤ device
      → Wakes (device_requests k.words device) (handle_device device)
  unfolding handle_device handle_term
  handle_device-Wakes device even high = elim (Bool-cases (is_terminal device)) [
    | inl terminal ↦ rw terminal (
        Wakes-seq _ _ (handle_transm device) (handle_recv device)
          (handle_transm-Wakes device even high) (handle_recv-Wakes device even high))
    | inr other ↦ rw other (handle_dtp-Wakes device even high)
  ]

  device_loop-Wakes :
      (n line i bitmap : ℕ)
      → Wakes (bitmap_requests k.words n line i bitmap) (device_loop n line i bitmap)
  unfolding device_loop
  device_loop-Wakes zero line i bitmap = λ done rest k1 v. v
  device_loop-Wakes (suc n) line i bitmap =
      Wakes-seq _ _ _ (device_loop n line (i + 1) (bitmap / 2))
        (Wakes-if (bitmap % 2 == 1) _ _
          (handle_device-Wakes (dev_reg_addr line i) (omega arith) (omega arith)))
        (device_loop-Wakes n line (i + 1) (bitmap / 2))

  pub handle_interrupt-Wakes :
      (line : ℕ) → line ≤ 7 → Wakes (line_requests k.words line) (handle_interrupt line)
  unfolding handle_interrupt
  handle_interrupt-Wakes line few =
      Wakes-reads (cdev_bitmap_addr line) (λ w. bitmap_requests k.words 8 line 0 (w % 256))
        (λ w. device_loop 8 line 0 (w % 256)) (ground arith, inr (omega arith))
        λ w. device_loop-Wakes 8 line 0 (w % 256)
