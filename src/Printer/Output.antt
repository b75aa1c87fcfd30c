-- ===== src/Printer/Output.antt =====
-- Output on the printer, `prtr_putchar` and `prtr_puts` of src/printer.c.
use mathlib.Core.List.{append_assoc, append-nil}
use bi_kaya.Base.{
  ℕ, zero, suc, ◌<◌, ◌≡◌, refl, sym, ◌∙◌, inl, inr, ◌⊎◌, true, false, some, List, [], ◌∷◌, ◌++◌,
  arith, ◌==◌,
}
use bi_kaya.Types.{cmd_ack, st_busy, st_ready}
use bi_kaya.Printer.{
  Printer, Write, data0, command, cmd_printchr, read_once, await_ready, prtr_putchar, puts_rest,
  prtr_puts,
}

-- After `n` readings.
abbrev pub skip : ℕ → Printer → Printer
skip zero p = p
skip (suc n) p = skip n (read_once p)

skip-writes :
    (n : ℕ) (p : Printer) (ws : List Write)
    → skip n (record p { writes = ws }) ≡ record (skip n p) { writes = ws }
skip-writes zero p ws = refl
skip-writes (suc n) p ws = skip-writes n (read_once p) ws

-- The printer is ready, then busy for `n` readings, then not busy.
pub record Answers (n : ℕ) (p : Printer) : Type 0 where
  pub ready : p.status 0 ≡ st_ready
  pub busy : (i : ℕ) → i < n → p.status (suc i) ≡ st_busy
  pub free : (p.status (suc n) == st_busy) ≡ false

await_ready-skip :
    (n fuel : ℕ) (p : Printer)
    → n < fuel
    → ((i : ℕ) → i < n → p.status i ≡ st_busy)
    → (p.status n == st_busy) ≡ false
    → await_ready fuel p
      ≡ some (true, record (skip (suc n) p) { writes = p.writes ++ command cmd_ack ∷ [] })
unfolding await_ready
await_ready-skip n zero p enough busy free = absurd (omega arith)
await_ready-skip zero (suc fuel) p enough busy free = rw free refl
await_ready-skip (suc n) (suc fuel) p enough busy free =
    rw (busy 0 (omega arith)) (
      await_ready-skip n fuel (read_once p) (omega arith) (λ i lt. busy (suc i) (omega arith)) free)

abbrev pub printed : List ℕ → List Write
printed [] = []
printed (c ∷ cs) = data0 c ∷ command cmd_printchr ∷ command cmd_ack ∷ printed cs

prtr_putchar-printed :
    (fuel c n : ℕ) (p : Printer)
    → n < fuel
    → Answers n p
    → prtr_putchar fuel c p
      ≡ some (true, record (skip (suc (suc n)) p) { writes = p.writes ++ printed (c ∷ []) })
unfolding prtr_putchar
prtr_putchar-printed fuel c n p enough a =
    let ws = p.writes ++ data0 c ∷ command cmd_printchr ∷ [] in
    rw
      (
        a.ready,
        await_ready-skip n fuel (record (read_once p) { writes = ws }) enough a.busy a.free,
        skip-writes n (read_once (read_once p)) ws,
        append_assoc p.writes (data0 c ∷ command cmd_printchr ∷ []) (command cmd_ack ∷ []),
      )
      refl

-- Characters, and for how many readings the printer is busy with each.
abbrev pub Paced : Type 0
Paced = List (ℕ × ℕ)

abbrev pub chars : Paced → List ℕ
chars [] = []
chars ((c, _) ∷ cs) = c ∷ chars cs

abbrev pub after : Paced → Printer → Printer
after [] p = p
after ((_, n) ∷ cs) p = after cs (skip (suc (suc n)) p)

-- The printer takes each of the characters, within the fuel.
abbrev pub Takes : ℕ → Paced → Printer → Type 0
Takes fuel [] p = Unit {0}
Takes fuel ((_, n) ∷ cs) p = (n < fuel) × Answers n p × Takes fuel cs (skip (suc (suc n)) p)

Takes-writes :
    (fuel : ℕ) (cs : Paced) (p : Printer) (ws : List Write)
    → Takes fuel cs p
    → Takes fuel cs (record p { writes = ws })
Takes-writes fuel [] p ws w = tt
Takes-writes fuel ((_, n) ∷ cs) p ws w = (
  w.0,
  (record { ready = w.1.ready; busy = w.1.busy; free = w.1.free }),
  rw (skip-writes (suc (suc n)) p ws) (Takes-writes fuel cs (skip (suc (suc n)) p) ws w.2),
)

after-writes :
    (cs : Paced) (p : Printer) (ws : List Write)
    → after cs (record p { writes = ws }) ≡ record (after cs p) { writes = ws }
after-writes [] p ws = refl
after-writes ((_, n) ∷ cs) p ws =
    rw (skip-writes (suc (suc n)) p ws) (after-writes cs (skip (suc (suc n)) p) ws)

-- The string has ended, or the printer is not ready for the rest.
abbrev pub Stops : List ℕ → Printer → Type 0
Stops rest p = (rest ≡ []) ⊎ ((p.status 0 == st_ready) ≡ false)

stops :
    (fuel : ℕ) (rest : List ℕ) (p : Printer)
    → Stops rest p
    → (q : Printer) × (prtr_puts fuel rest p ≡ some q) × (q.writes ≡ p.writes)
unfolding prtr_puts prtr_putchar puts_rest
stops fuel [] p s = (p, refl, refl)
stops fuel (c ∷ rest) p (inl none_left) = cc
stops fuel (c ∷ rest) p (inr other) = (read_once p, rw other refl, refl)

-- `prtr_puts` on a printer that takes the characters `cs` of a string, being busy with each for
-- fewer readings than the fuel, and is not ready after them unless the string has ended, returns,
-- and has told the printer to print these characters in order, each with an acknowledgement, and
-- nothing else.
pub prtr_puts-printed :
    (fuel : ℕ) (cs : Paced) (rest : List ℕ) (p : Printer)
    → Takes fuel cs p
    → Stops rest (after cs p)
    → (q : Printer) × (prtr_puts fuel (chars cs ++ rest) p ≡ some q)
      × (q.writes ≡ p.writes ++ printed (chars cs))
unfolding prtr_puts puts_rest
prtr_puts-printed fuel [] rest p w s =
    let (q, runs, same) = stops fuel rest p s in (q, runs, same ∙ sym (append-nil p.writes))
prtr_puts-printed fuel ((c, n) ∷ cs) rest p w s =
    let next = skip (suc (suc n)) p in
    let ws = p.writes ++ printed (c ∷ []) in
    let (q, runs, all) =
      prtr_puts-printed fuel cs rest (record next { writes = ws })
        (Takes-writes fuel cs next ws w.2) (rw (after-writes cs next ws) s) in
    (
      q,
      rw (prtr_putchar-printed fuel c n p w.0 w.1) runs,
      all ∙ append_assoc p.writes (printed (c ∷ [])) (printed (chars cs)),
    )
