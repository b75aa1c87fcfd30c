-- ===== src/Terminal.antt =====
-- src/terminal.c: a terminal as the words that its status registers give, one after the other, and the
-- words that have been written to its command registers.
pub mod Convert
pub mod Numeral
pub mod Output
pub mod Prints
pub mod Format
pub mod Input
use bi_kaya.Base.{
  ℕ, zero, suc, ◌+◌, ◌-◌, ◌*◌, ◌/◌, ◌%◌, ◌^◌, Bool, true, false, ◌||◌, Option, none, some, List, [],
  ◌∷◌, ◌++◌, if◌then◌else◌, ◌==◌, ltb,
}
use bi_kaya.Types.{cmd_ack, st_busy, st_ready, word_size}

abbrev pub char_offset : ℕ
char_offset = 8

abbrev pub cmd_transmit : ℕ
cmd_transmit = 2

abbrev pub cmd_receive : ℕ
cmd_receive = cmd_transmit

-- `TX_STATUS` and `RX_STATUS`, which mask a status register.
abbrev pub term_status : ℕ → ℕ
term_status w = w % 256

abbrev pub st_transmitted : ℕ
st_transmitted = 5

abbrev pub st_received : ℕ
st_received = st_transmitted

-- -1
abbrev pub failure : ℕ
failure = 0xffff_ffff

pub data Command : Type 0 where
  transm_command : ℕ → Command
  recv_command : ℕ → Command

pub record Terminal : Type 0 where
  pub transm_status : ℕ → ℕ
  pub recv_status : ℕ → ℕ
  pub commands : List Command

-- `undefined` is a read past the end of a string or of the arguments.
pub data Outcome {ℓ} (A : Type ℓ) : Type ℓ where
  done : A → Terminal → Outcome A
  undefined : Outcome A
  out_of_fuel : Outcome A

abbrev pub Io {ℓ} : Type ℓ → Type ℓ
Io A = Terminal → Outcome A

abbrev pub pure {ℓ} : {A : Type ℓ} → A → Io A
pure a t = done a t

module _ {ℓ κ} {A : Type ℓ} {B : Type κ} where
  abbrev pub and_then : Outcome A → (A → Io B) → Outcome B
  and_then (done a t) f = f a t
  and_then undefined f = undefined
  and_then out_of_fuel f = out_of_fuel

  infixl 5 ◌>>=◌ ◌>>◌
  abbrev pub ◌>>=◌ : Io A → (A → Io B) → Io B
  ◌>>=◌ m f t = and_then (m t) f

  abbrev pub ◌>>◌ : Io A → Io B → Io B
  ◌>>◌ m n t = and_then (m t) (λ _. n)

abbrev pub read_transm : Io ℕ
read_transm t = done (t.transm_status 0) (record t { transm_status = λ n. t.transm_status (suc n) })

abbrev pub read_recv : Io ℕ
read_recv t = done (t.recv_status 0) (record t { recv_status = λ n. t.recv_status (suc n) })

abbrev pub write : Command → Io (Unit {0})
write c t = done tt (record t { commands = t.commands ++ c ∷ [] })

-- `while ((stat = TX_STATUS(term)) == ST_BUSY);` on fuel.
unfoldable pub await_transm : ℕ → Io ℕ
await_transm zero t = out_of_fuel
await_transm (suc fuel) t =
    let rest = await_transm fuel (record t { transm_status = λ n. t.transm_status (suc n) }) in
    if term_status (t.transm_status 0) == st_busy
    then rest
    else done (term_status (t.transm_status 0))
        (record t { transm_status = λ n. t.transm_status (suc n) })

unfoldable pub await_recv : ℕ → Io ℕ
await_recv zero t = out_of_fuel
await_recv (suc fuel) t =
    let rest = await_recv fuel (record t { recv_status = λ n. t.recv_status (suc n) }) in
    if term_status (t.recv_status 0) == st_busy
    then rest
    else done (term_status (t.recv_status 0))
        (record t { recv_status = λ n. t.recv_status (suc n) })

-- The low byte of the shifted character is 0, so that `|` adds.
abbrev pub transmit : ℕ → Command
transmit c = transm_command ((c * 2 ^ char_offset + cmd_transmit) % word_size)

unfoldable pub tputchar : (fuel c : ℕ) → Io ℕ
tputchar fuel c = do
  stat ← read_transm
  if (stat % 256 == st_ready) || (stat % 256 == st_transmitted)
      then (do
        write (transmit c)
        after ← await_transm fuel
        write (transm_command cmd_ack)
        pure (if after == st_transmitted then 0 else failure))
      else pure failure

-- A string is the list of its characters without the final 0.
unfoldable pub tputs : ℕ → List ℕ → Io (Unit {0})
tputs fuel [] = pure tt
tputs fuel (c ∷ str) =
    let rest = tputs fuel str in do failed ← tputchar fuel c; if failed == 0 then rest else pure tt

abbrev pub digit : ℕ → ℕ
digit n = if ltb n 10 then 48 + n else 55 + n

-- The rounds left, `num`, and the digits that are in the buffer.
unfoldable pub convert_loop : (rounds num base : ℕ) → List ℕ → Option (List ℕ)
convert_loop zero num base buffer = none
convert_loop (suc n) num base buffer =
    let rest = convert_loop n (num / base) base (digit (num % base) ∷ buffer) in
    if num / base == 0 then some (digit (num % base) ∷ buffer) else rest

-- `buffer` has room for 63 digits; `none` is writing before it.
unfoldable pub convert : (num base : ℕ) → Option (List ℕ)
convert num base = convert_loop 63 num base []

pub data Argument : Type 0 where
  word : ℕ → Argument
  string : List ℕ → Argument

pub put_number : ℕ → Option (List ℕ) → Io (Unit {0})
put_number fuel none t = undefined
put_number fuel (some digits) t = tputs fuel digits t

-- What stands behind `%`, and the arguments that are left.
pub put_argument : ℕ → ℕ → List Argument → Io (List Argument)
put_argument fuel c (word n ∷ args) =
    if c == 99
    then tputchar fuel n >> pure args
    else if c == 100
    then put_number fuel (convert n 10) >> pure args
    else if c == 112
    then tputs fuel (48 ∷ 120 ∷ []) >> put_number fuel (convert n 16) >> pure args
    else if c == 115
    then (λ t. undefined)
    else pure (word n ∷ args)
put_argument fuel c (string s ∷ args) =
    if c == 115
    then tputs fuel s >> pure args
    else if (c == 99) || (c == 100) || (c == 112)
    then (λ t. undefined)
    else pure (string s ∷ args)
put_argument fuel c [] =
    if (c == 99) || (c == 100) || (c == 112) || (c == 115) then (λ t. undefined) else pure []

-- A format that ends in `%` is read past its end.
unfoldable pub vtprintf : ℕ → List ℕ → List Argument → Io (Unit {0})
vtprintf fuel [] args = pure tt
vtprintf fuel (c ∷ []) args = if c == 37 then (λ t. undefined) else (tputchar fuel c >> pure tt)
vtprintf fuel (c ∷ d ∷ fmt) args =
    let next = vtprintf fuel fmt in
    let same = vtprintf fuel (d ∷ fmt) args in
    if c == 37 then put_argument fuel d args >>= next else (tputchar fuel c >> same)

unfoldable pub tprintf : ℕ → List ℕ → List Argument → Io (Unit {0})
unfolding vtprintf
tprintf fuel fmt args = vtprintf fuel fmt args

-- A `char` of this machine is signed.
abbrev pub sign_extend : ℕ → ℕ
sign_extend c = if ltb c 128 then c else word_size - 256 + c

unfoldable pub tgetchar : ℕ → Io ℕ
tgetchar fuel = do
  stat ← read_recv
  if (stat % 256 == st_ready) || (stat % 256 == st_received)
      then (do
        write (recv_command cmd_receive)
        after ← await_recv fuel
        last ← read_recv
        write (recv_command cmd_ack)
        pure (if after == st_received then sign_extend (last / 2 ^ char_offset % 256) else failure))
      else pure failure

-- The characters that are stored in front of the final 0, and whether a new line has been read. `len`
-- is what is left of `size - 1`.
unfoldable pub tgets : ℕ → ℕ → Io (List ℕ × Bool)
tgets fuel zero = pure ([], false)
tgets fuel (suc len) = do
  c ← tgetchar fuel
  if c % 256 == 10
      then pure ((10 ∷ []), true)
      else (do (rest, newline) ← tgets fuel len; pure (c % 256 ∷ rest, newline))
