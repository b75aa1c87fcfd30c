-- ===== src/Terminal/Input.antt =====
-- Input from a terminal, `tgetchar` and `tgets` of src/terminal.c.
use mathlib.Core.List.{append_assoc, append-nil}
use bi_kaya.Base.{
  ℕ, zero, suc, ◌/◌, ◌%◌, ◌^◌, ◌<◌, ◌≡◌, ◌||◌, refl, ap, sym, ◌∙◌, Bool, true, false, List, [], ◌∷◌,
  ◌++◌, arith, ◌==◌,
}
use bi_kaya.Types.{cmd_ack, st_busy, st_ready}
use bi_kaya.Terminal.{
  Terminal, Command, done, recv_command, st_received, cmd_receive, char_offset, await_recv,
  sign_extend, tgetchar, tgets,
}

abbrev read_again : Terminal → Terminal
read_again t = record t { recv_status = λ n. t.recv_status (suc n) }

-- After `n` readings of the receiver's status.
abbrev pub skip_recv : ℕ → Terminal → Terminal
skip_recv zero t = t
skip_recv (suc n) t = skip_recv n (read_again t)

await_recv-skip :
    (n fuel : ℕ) (t : Terminal)
    → n < fuel
    → ((i : ℕ) → i < n → t.recv_status i % 256 ≡ st_busy)
    → (t.recv_status n % 256 == st_busy) ≡ false
    → await_recv fuel t ≡ done (t.recv_status n % 256) (skip_recv (suc n) t)
unfolding await_recv
await_recv-skip n zero t enough busy free = absurd (omega arith)
await_recv-skip zero (suc fuel) t enough busy free = rw free refl
await_recv-skip (suc n) (suc fuel) t enough busy free =
    rw (busy 0 (omega arith)) (
      await_recv-skip n fuel (read_again t) (omega arith) (λ i lt. busy (suc i) (omega arith)) free)

skip-commands :
    (n : ℕ) (t : Terminal) (cs : List Command)
    → skip_recv n (record t { commands = cs }) ≡ record (skip_recv n t) { commands = cs }
skip-commands zero t cs = refl
skip-commands (suc n) t cs = skip-commands n (read_again t) cs

skip-status : (n m : ℕ) (t : Terminal) → m ≡ n → (skip_recv n t).recv_status 0 ≡ t.recv_status m
skip-status zero m t e = ap t.recv_status (sym e)
skip-status (suc n) m t e = skip-status n n (read_again t) refl ∙ ap t.recv_status (sym e)

skip-again : (n : ℕ) (t : Terminal) → read_again (skip_recv n t) ≡ skip_recv n (read_again t)
skip-again zero t = refl
skip-again (suc n) t = skip-again n (read_again t)

-- The terminal is ready, then busy for `n` readings, then has received `c`.
pub record Hands (c n : ℕ) (t : Terminal) : Type 0 where
  pub ready : ((t.recv_status 0 % 256 == st_ready) || (t.recv_status 0 % 256 == st_received)) ≡ true
  pub busy : (i : ℕ) → i < n → t.recv_status (suc i) % 256 ≡ st_busy
  pub received : t.recv_status (suc n) % 256 ≡ st_received
  pub character : t.recv_status (suc (suc n)) / 2 ^ char_offset % 256 ≡ c

abbrev pub asked_for : List Command
asked_for = recv_command cmd_receive ∷ recv_command cmd_ack ∷ []

tgetchar-done :
    (fuel c n : ℕ) (t : Terminal)
    → n < fuel
    → Hands c n t
    → tgetchar fuel t
      ≡ done
          (sign_extend c)
          (record (skip_recv (suc (suc (suc n))) t) { commands = t.commands ++ asked_for })
unfolding tgetchar
tgetchar-done fuel c n t enough h =
    let ws = t.commands ++ recv_command cmd_receive ∷ [] in
    let free : (t.recv_status (suc n) % 256 == st_busy) ≡ false = ground (arith, h.received) in
    let t1 = read_again (read_again t) in
    let read : (skip_recv n t1).recv_status 0 / 2 ^ char_offset % 256 ≡ c =
      ap (λ w. w / 2 ^ char_offset % 256) (skip-status n n t1 refl) ∙ h.character in
    rw
      (
        h.ready,
        await_recv-skip n fuel (record (read_again t) { commands = ws }) enough h.busy free,
        h.received,
        skip-commands n t1 ws,
      )
      (ap
          (λ w.
            done (sign_extend w)
              (record (read_again (skip_recv n t1)) { commands = ws ++ recv_command cmd_ack ∷ [] }))
          read
        ∙ ap
            (λ (u : Terminal).
              done (sign_extend c) (record u { commands = ws ++ recv_command cmd_ack ∷ [] }))
            (skip-again n t1)
        ∙ ap (λ cs. done (sign_extend c) (record (skip_recv n (read_again t1)) { commands = cs }))
            (append_assoc t.commands (recv_command cmd_receive ∷ []) (recv_command cmd_ack ∷ [])))

-- Bytes, and for how many readings the terminal is busy before each.
abbrev pub Arriving : Type 0
Arriving = List (ℕ × ℕ)

abbrev pub bytes : Arriving → List ℕ
bytes [] = []
bytes ((c, _) ∷ cs) = c ∷ bytes cs

abbrev pub after_bytes : Arriving → Terminal → Terminal
after_bytes [] t = t
after_bytes ((_, n) ∷ cs) t = after_bytes cs (skip_recv (suc (suc (suc n))) t)

-- What the terminal is told for these characters.
abbrev pub asked : Arriving → List Command
asked [] = []
asked (_ ∷ cs) = asked_for ++ asked cs

-- The terminal hands over each of the bytes, within the fuel.
abbrev pub Delivers : ℕ → Arriving → Terminal → Type 0
Delivers fuel [] t = Unit {0}
Delivers fuel ((c, n) ∷ cs) t =
    (n < fuel) × (c < 256) × Hands c n t × Delivers fuel cs (skip_recv (suc (suc (suc n))) t)

Delivers-commands :
    (fuel : ℕ) (cs : Arriving) (t : Terminal) (ws : List Command)
    → Delivers fuel cs t
    → Delivers fuel cs (record t { commands = ws })
Delivers-commands fuel [] t ws d = tt
Delivers-commands fuel ((c, n) ∷ cs) t ws d = (
  d.0,
  d.1,
  (record {
    ready = d.2.ready;
    busy = d.2.busy;
    received = d.2.received;
    character = d.2.character;
  }),
  rw (skip-commands (suc (suc (suc n))) t ws)
      (Delivers-commands fuel cs (skip_recv (suc (suc (suc n))) t) ws d.3),
)

after-commands :
    (cs : Arriving) (t : Terminal) (ws : List Command)
    → after_bytes cs (record t { commands = ws }) ≡ record (after_bytes cs t) { commands = ws }
after-commands [] t ws = refl
after-commands ((c, n) ∷ cs) t ws =
    rw (skip-commands (suc (suc (suc n))) t ws)
      (after-commands cs (skip_recv (suc (suc (suc n))) t) ws)

-- A line of at most `n` characters: `true` if it ends in its new line, `false` if there are `n` and
-- none of them is one.
pub data IsLine : ℕ → List ℕ → Bool → Type 0 where
  cut : IsLine zero [] false
  ended : (n : ℕ) → IsLine (suc n) (10 ∷ []) true
  more :
      (n c : ℕ) (line : List ℕ) (newline : Bool)
      → (c == 10) ≡ false
      → IsLine n line newline
      → IsLine (suc n) (c ∷ line) newline

byte_back : (c : ℕ) → c < 256 → sign_extend c % 256 ≡ c
byte_back c lt = ground arith

line_read :
    (fuel len : ℕ) (cs : Arriving) (text : List ℕ) (newline : Bool) (t : Terminal)
    → bytes cs ≡ text
    → IsLine len text newline
    → Delivers fuel cs t
    → tgets fuel len t
      ≡ done (text, newline) (record (after_bytes cs t) { commands = t.commands ++ asked cs })
unfolding tgets
line_read fuel _ [] _ _ t e cut d =
    ap (λ ws. done ([], false) (record t { commands = ws })) (sym (append-nil t.commands))
line_read fuel _ [] _ _ t e (ended n) d = cc
line_read fuel _ [] _ _ t e (more n c line newline other rest) d = cc
line_read fuel _ ((x, m) ∷ cs) _ _ t e cut d = cc
line_read fuel _ ((x, m) ∷ (y ∷ cs)) _ _ t e (ended n) d = cc
line_read fuel _ ((x, m) ∷ []) _ _ t e (ended n) d =
    let it : x ≡ 10 = cc in
    rw (tgetchar-done fuel x m t d.0 d.2, byte_back x d.1, it, append-nil asked_for) refl
line_read fuel _ ((x, m) ∷ cs) _ _ t e (more n c line newline other rest) d =
    let it : x ≡ c = cc in
    let back : bytes cs ≡ line = cc in
    let next = skip_recv (suc (suc (suc m))) t in
    let ws = t.commands ++ asked_for in
    let plain : (x == 10) ≡ false = rw it other in
    rw
      (
        tgetchar-done fuel x m t d.0 d.2,
        byte_back x d.1,
        plain,
        line_read fuel n cs line newline (record next { commands = ws }) back rest
            (Delivers-commands fuel cs next ws d.3),
        after-commands cs next ws,
        append_assoc t.commands asked_for (asked cs),
        it,
      )
      refl

-- `tgets` with room for `len` characters and the final 0, on a terminal that hands over the bytes of
-- a line of at most `len` characters, being busy before each for fewer readings than the fuel,
-- returns: the buffer holds these bytes, and the result tells whether the last is a new line. For
-- each of them the terminal has been told to receive and has had its interrupt acknowledged.
pub tgets-IsLine :
    (fuel len : ℕ) (cs : Arriving) (newline : Bool) (t : Terminal)
    → Delivers fuel cs t
    → IsLine len (bytes cs) newline
    → tgets fuel len t
      ≡ done (bytes cs, newline) (record (after_bytes cs t) { commands = t.commands ++ asked cs })
tgets-IsLine fuel len cs newline t d line = line_read fuel len cs (bytes cs) newline t refl line d
