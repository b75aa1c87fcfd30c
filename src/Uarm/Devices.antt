-- ===== src/Uarm/Devices.antt =====
-- The two machines lay their devices out alike, so that src/interrupts.c and src/syscalls.c treat them
-- alike.
use bi_kaya.Base.{ℕ, ◌≤◌, ◌<◌, ◌≡◌, arith, ◌==◌}
use bi_kaya.Umps
use bi_kaya.Uarm
use bi_kaya.Interrupts.{interrupts_get_dev_key}

-- For every device of the lines 3 to 7 the builds for uMPS and for uARM use the same key, and both take
-- it for a terminal exactly on line 7.
pub get_dev_key-interrupts_get_dev_key :
    (line dev term_rcpt : ℕ)
    → 3 ≤ line
    → line ≤ Uarm.il_terminal
    → dev < 8
    → term_rcpt < 2
    → (Uarm.get_dev_key (Uarm.dev_reg_addr line dev) term_rcpt
        ≡ interrupts_get_dev_key (Umps.dev_reg_addr line dev) term_rcpt)
      × (Uarm.is_terminal (Uarm.dev_reg_addr line dev) ≡ (line == Uarm.il_terminal))
      × (Umps.is_terminal (Umps.dev_reg_addr line dev) ≡ (line == Umps.il_terminal))
unfolding Uarm.get_dev_key interrupts_get_dev_key
get_dev_key-interrupts_get_dev_key line dev term_rcpt low high few bit =
    (ground arith, ground arith, ground arith)
