-- ===== src/Terminal/Output.antt =====
-- Output on a terminal, `tputchar` and `tputs` of src/terminal.c.
use mathlib.Core.List.{append-nil}
use bi_kaya.Base.{
  ℕ, zero, suc, ◌%◌, ◌<◌, ◌≡◌, ◌||◌, refl, ap, ◌∙◌, Bool, true, false, List, [], ◌∷◌, ◌++◌, arith,
  ◌==◌, if◌then◌else◌,
}
use bi_kaya.Types.{cmd_ack, st_busy, st_ready}
use bi_kaya.Terminal.{
  Terminal, Command, done, failure, transm_command, st_transmitted, await_transm, transmit,
  tputchar, tputs,
}

abbrev pub read_once : Terminal → Terminal
read_once t = record t { transm_status = λ n. t.transm_status (suc n) }

-- After `n` readings.
abbrev pub skip : ℕ → Terminal → Terminal
skip zero t = t
skip (suc n) t = skip n (read_once t)

-- The loop ends once a reading is not busy, after `n` that are.
await_transm-skip :
    (n fuel : ℕ) (t : Terminal)
    → n < fuel
    → ((i : ℕ) → i < n → t.transm_status i % 256 ≡ st_busy)
    → (t.transm_status n % 256 == st_busy) ≡ false
    → await_transm fuel t ≡ done (t.transm_status n % 256) (skip (suc n) t)
unfolding await_transm
await_transm-skip n zero t enough busy free = absurd (omega arith)
await_transm-skip zero (suc fuel) t enough busy free = rw free refl
await_transm-skip (suc n) (suc fuel) t enough busy free =
    rw (busy 0 (omega arith)) (
      await_transm-skip n fuel (read_once t) (omega arith) (λ i lt. busy (suc i) (omega arith))
        free)

skip-commands :
    (n : ℕ) (t : Terminal) (cs : List Command)
    → skip n (record t { commands = cs }) ≡ record (skip n t) { commands = cs }
skip-commands zero t cs = refl
skip-commands (suc n) t cs = skip-commands n (read_once t) cs

skip-written : (n : ℕ) (t : Terminal) → (skip n t).commands ≡ t.commands
skip-written zero t = refl
skip-written (suc n) t = skip-written n (read_once t)

abbrev pub is_ready : ℕ → Bool
is_ready status = (status % 256 == st_ready) || (status % 256 == st_transmitted)

-- The terminal is ready, then busy for `n` readings, then not busy.
pub record Answers (n : ℕ) (t : Terminal) : Type 0 where
  pub ready : is_ready (t.transm_status 0) ≡ true
  pub busy : (i : ℕ) → i < n → t.transm_status (suc i) % 256 ≡ st_busy
  pub free : (t.transm_status (suc n) % 256 == st_busy) ≡ false

-- `tputchar` on a terminal that is ready, then busy for `n` readings of its status and then not, with
-- more fuel than `n`, returns: the terminal has been told to transmit the character and has then had its
-- interrupt acknowledged, and the result is 0 exactly where its last status is that it has transmitted.
pub tputchar-commands :
    (fuel c n : ℕ) (t : Terminal)
    → n < fuel
    → Answers n t
    → tputchar fuel c t
      ≡ done
          (if t.transm_status (suc n) % 256 == st_transmitted then 0 else failure)
          (record (skip (suc (suc n)) t) {
            commands = (t.commands ++ transmit c ∷ []) ++ transm_command cmd_ack ∷ [];
          })
unfolding tputchar
tputchar-commands fuel c n t enough a =
    rw
      (
        a.ready,
        await_transm-skip n fuel (record (read_once t) { commands = t.commands ++ transmit c ∷ [] })
            enough a.busy a.free,
        skip-commands n (read_once (read_once t)) (t.commands ++ transmit c ∷ []),
      )
      refl

-- A terminal that is not ready is told nothing.
pub tputchar-failure :
    (fuel c : ℕ) (t : Terminal)
    → is_ready (t.transm_status 0) ≡ false
    → tputchar fuel c t ≡ done failure (read_once t)
unfolding tputchar
tputchar-failure fuel c t other = rw other refl

-- Characters, and for how many readings the terminal is busy with each.
abbrev pub Paced : Type 0
Paced = List (ℕ × ℕ)

abbrev pub chars : Paced → List ℕ
chars [] = []
chars ((c, _) ∷ cs) = c ∷ chars cs

abbrev pub sent : List ℕ → List Command
sent [] = []
sent (c ∷ cs) = transmit c ∷ transm_command cmd_ack ∷ sent cs

abbrev pub after : Paced → Terminal → Terminal
after [] t = t
after ((_, n) ∷ cs) t = after cs (skip (suc (suc n)) t)

-- The terminal transmits each of the characters, within the fuel.
abbrev pub Transmits : ℕ → Paced → Terminal → Type 0
Transmits fuel [] t = Unit {0}
Transmits fuel ((_, n) ∷ cs) t =
    (n < fuel)
    × Answers n t
    × (t.transm_status (suc n) % 256 ≡ st_transmitted)
    × Transmits fuel cs (skip (suc (suc n)) t)

pub Transmits-commands :
    (fuel : ℕ) (cs : Paced) (t : Terminal) (ws : List Command)
    → Transmits fuel cs t
    → Transmits fuel cs (record t { commands = ws })
Transmits-commands fuel [] t ws w = tt
Transmits-commands fuel ((_, n) ∷ cs) t ws w = (
  w.0,
  (record { ready = w.1.ready; busy = w.1.busy; free = w.1.free }),
  w.2,
  rw (skip-commands (suc (suc n)) t ws) (Transmits-commands fuel cs (skip (suc (suc n)) t) ws w.3),
)

pub after-commands :
    (cs : Paced) (t : Terminal) (ws : List Command)
    → after cs (record t { commands = ws }) ≡ record (after cs t) { commands = ws }
after-commands [] t ws = refl
after-commands ((_, n) ∷ cs) t ws =
    rw (skip-commands (suc (suc n)) t ws) (after-commands cs (skip (suc (suc n)) t) ws)

pub append_two :
    (cs : List Command) (c d : Command) (ds : List Command)
    → ((cs ++ c ∷ []) ++ d ∷ []) ++ ds ≡ cs ++ c ∷ d ∷ ds
append_two [] c d ds = refl
append_two (b ∷ cs) c d ds = ap (◌∷◌ b) (append_two cs c d ds)

-- `tputs` on a terminal that transmits each character of the string, being busy with it for fewer
-- readings than the fuel, returns, and has told the terminal to transmit the characters in order, each
-- followed by an acknowledgement.
pub tputs-sent :
    (fuel : ℕ) (cs : Paced) (t : Terminal)
    → Transmits fuel cs t
    → tputs fuel (chars cs) t
      ≡ done tt (record (after cs t) { commands = t.commands ++ sent (chars cs) })
unfolding tputs
tputs-sent fuel [] t w = rw append-nil refl
tputs-sent fuel ((c, n) ∷ cs) t w =
    rw (tputchar-commands fuel c n t w.0 w.1, w.2)
      (tputs-sent fuel cs (record t' { commands = ws }) (Transmits-commands fuel cs t' ws w.3)
        ∙ rw
            (
              after-commands cs t' ws,
              append_two t.commands (transmit c) (transm_command cmd_ack) (sent (chars cs)),
            )
            refl)
  where
    t' : Terminal
    t' = skip (suc (suc n)) t

    ws : List Command
    ws = (t.commands ++ transmit c ∷ []) ++ transm_command cmd_ack ∷ []
