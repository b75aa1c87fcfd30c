-- ===== src/Printer.antt =====
-- src/printer.c: the printer as the words that its status register gives, one after the other, and the
-- words that have been written to its other registers.
pub mod Output
use bi_kaya.Base.{
  ℕ, zero, suc, Bool, true, false, Option, none, some, List, [], ◌∷◌, ◌++◌, if◌then◌else◌, ◌==◌,
}
use bi_kaya.Types.{cmd_ack, st_busy, st_ready}

abbrev pub cmd_printchr : ℕ
cmd_printchr = 2

pub data Write : Type 0 where
  data0 : ℕ → Write
  command : ℕ → Write

pub record Printer : Type 0 where
  pub status : ℕ → ℕ
  pub writes : List Write

abbrev read_once : Printer → Printer
read_once p = record p { status = λ n. p.status (suc n) }

-- The busy loop of `prtr_putchar` on fuel, and the acknowledgement; `none` is running out of fuel.
unfoldable pub await_ready : ℕ → Printer → Option (Bool × Printer)
await_ready zero p = none
await_ready (suc fuel) p =
    let rest = await_ready fuel (read_once p) in
    if p.status 0 == st_busy
    then rest
    else some (true, record (read_once p) { writes = p.writes ++ command cmd_ack ∷ [] })

-- `true` is the result 0, `false` is -1.
unfoldable pub prtr_putchar : (fuel c : ℕ) → Printer → Option (Bool × Printer)
prtr_putchar fuel c p =
    if p.status 0 == st_ready
    then await_ready fuel
        (record (read_once p) { writes = p.writes ++ data0 c ∷ command cmd_printchr ∷ [] })
    else some (false, read_once p)

unfoldable pub puts_rest : (Printer → Option Printer) → Option (Bool × Printer) → Option Printer
puts_rest rest none = none
puts_rest rest (some (true, p)) = rest p
puts_rest rest (some (false, p)) = some p

unfoldable pub prtr_puts : ℕ → List ℕ → Printer → Option Printer
unfolding puts_rest
prtr_puts fuel [] p = some p
prtr_puts fuel (c ∷ str) p = puts_rest (prtr_puts fuel str) (prtr_putchar fuel c p)
