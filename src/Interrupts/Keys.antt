-- ===== src/Interrupts/Keys.antt =====
-- `interrupts_get_dev_key` of src/interrupts.c: the key of a device from the address of its registers.
use bi_kaya.Base.{ℕ, ◌+◌, ◌-◌, ◌*◌, ◌≤◌, ◌<◌, ◌≡◌, arith, ltb, if◌then◌else◌}
use bi_kaya.Umps.{dev_reg_addr, il_terminal}
use bi_kaya.Interrupts.{devices_semkeys, semkey_at, interrupts_get_dev_key}

-- The row of `devices_semkeys`: one for each line, and a sixth for reception from terminals.
abbrev pub row : (line term_rcpt : ℕ) → ℕ
row line term_rcpt = if ltb line il_terminal then line - 3 else line - 3 + term_rcpt

-- For every device of the lines 3 to 7 `interrupts_get_dev_key` gives the entry of `devices_semkeys` in
-- the column of the device and the row of its line, or for reception from a terminal in the sixth row;
-- the entry lies within the matrix.
pub interrupts_get_dev_key-semkey_at :
    (line dev term_rcpt : ℕ)
    → 3 ≤ line
    → line ≤ il_terminal
    → dev < 8
    → term_rcpt < 2
    → (interrupts_get_dev_key (dev_reg_addr line dev) term_rcpt
        ≡ semkey_at (row line term_rcpt) dev)
      × (semkey_at (row line term_rcpt) dev < devices_semkeys + 4 * 48)
unfolding interrupts_get_dev_key
interrupts_get_dev_key-semkey_at line dev term_rcpt low high few bit = (ground arith, ground arith)

-- Two devices of these lines have the same key only if they are the same device, and on a terminal, for
-- the same direction.
pub interrupts_get_dev_key-distinct :
    (line dev term_rcpt line' dev' term_rcpt' : ℕ)
    → 3 ≤ line
    → line ≤ il_terminal
    → dev < 8
    → term_rcpt < 2
    → 3 ≤ line'
    → line' ≤ il_terminal
    → dev' < 8
    → term_rcpt' < 2
    → interrupts_get_dev_key (dev_reg_addr line dev) term_rcpt
      ≡ interrupts_get_dev_key (dev_reg_addr line' dev') term_rcpt'
    → (line ≡ line') × (dev ≡ dev') × (row line term_rcpt ≡ row line' term_rcpt')
interrupts_get_dev_key-distinct line dev t line' dev' t' low high few bit low' high' few' bit'
      same =
    ground (
      arith,
      (interrupts_get_dev_key-semkey_at line dev t low high few bit).0,
      (interrupts_get_dev_key-semkey_at line' dev' t' low' high' few' bit').0,
    )
