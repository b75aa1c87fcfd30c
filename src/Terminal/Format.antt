-- ===== src/Terminal/Format.antt =====
-- Formatted output, `tprintf` of src/terminal.c.
use mathlib.Core.List.{append_assoc}
use bi_kaya.Base.{
  ℕ, ◌<◌, ◌^◌, inl, inr, refl, ◌≡◌, ◌||◌, subst, false, some, List, [], ◌∷◌, ◌++◌, arith, ◌==◌,
}
use bi_kaya.Terminal.{
  Terminal, Argument, word, string, done, pure, ◌>>◌, tputchar, tputs, convert, put_number,
  put_argument, vtprintf, tprintf,
}
use bi_kaya.Types.{word_size}
use bi_kaya.Terminal.Numeral.{Numeral, convert-Numeral}
use bi_kaya.Terminal.Output.{Paced, Transmits, chars, sent, after}
use bi_kaya.Terminal.Prints.{
  Prints, Prints-bind, tputchar-Prints, tputs-Prints, nothing-Prints, then_args,
}

-- The text that a format and its arguments stand for. Where a letter behind `%` is none of the four, both are
-- left out.
pub data Formats : List ℕ → List Argument → List ℕ → Type 0 where
  end_of_format : (args : List Argument) → Formats [] args []
  literal :
      (c : ℕ) (fmt : List ℕ) (args : List Argument) (text : List ℕ)
      → (c == 37) ≡ false
      → Formats fmt args text
      → Formats (c ∷ fmt) args (c ∷ text)
  character :
      (n : ℕ) (fmt : List ℕ) (args : List Argument) (text : List ℕ)
      → Formats fmt args text
      → Formats (37 ∷ 99 ∷ fmt) (word n ∷ args) (n ∷ text)
  decimal :
      (n : ℕ) (digits fmt : List ℕ) (args : List Argument) (text : List ℕ)
      → n < 2 ^ 31
      → Numeral 10 n digits
      → Formats fmt args text
      → Formats (37 ∷ 100 ∷ fmt) (word n ∷ args) (digits ++ text)
  pointer :
      (n : ℕ) (digits fmt : List ℕ) (args : List Argument) (text : List ℕ)
      → n < word_size
      → Numeral 16 n digits
      → Formats fmt args text
      → Formats (37 ∷ 112 ∷ fmt) (word n ∷ args) ((48 ∷ 120 ∷ []) ++ (digits ++ text))
  string_of :
      (s fmt : List ℕ) (args : List Argument) (text : List ℕ)
      → Formats fmt args text
      → Formats (37 ∷ 115 ∷ fmt) (string s ∷ args) (s ++ text)
  unknown :
      (d : ℕ) (fmt : List ℕ) (args : List Argument) (text : List ℕ)
      → ((d == 99) || (d == 100) || (d == 112) || (d == 115)) ≡ false
      → Formats fmt args text
      → Formats (37 ∷ d ∷ fmt) args text

module _ (fuel : ℕ) where
  put_number-Prints :
      (n base : ℕ) (digits : List ℕ)
      → convert n base ≡ some digits
      → Prints fuel digits tt (put_number fuel (convert n base))
  unfolding put_number
  put_number-Prints n base digits e = rw e (tputs-Prints fuel digits)

  -- And then the rest of the format.
  argument-Prints :
      (d : ℕ) (fmt : List ℕ) (args left : List Argument) (xs text : List ℕ)
      → Prints fuel xs left (put_argument fuel d args)
      → Prints fuel text tt (vtprintf fuel fmt left)
      → Prints fuel (xs ++ text) tt (vtprintf fuel (37 ∷ d ∷ fmt) args)
  unfolding vtprintf
  argument-Prints d fmt args left xs text first rest =
      Prints-bind fuel xs text left tt (put_argument fuel d args) (vtprintf fuel fmt) first rest

  literal-Prints :
      (c : ℕ) (fmt : List ℕ) (args : List Argument) (text : List ℕ)
      → (c == 37) ≡ false
      → Prints fuel text tt (vtprintf fuel fmt args)
      → Prints fuel (c ∷ text) tt (vtprintf fuel (c ∷ fmt) args)
  unfolding vtprintf
  literal-Prints c [] args text plain rest = rw plain (
      Prints-bind fuel (c ∷ []) text 0 tt (tputchar fuel c) (λ _. pure tt) (tputchar-Prints fuel c)
        rest)
  literal-Prints c (d ∷ fmt) args text plain rest = rw plain (
      Prints-bind fuel (c ∷ []) text 0 tt (tputchar fuel c) (λ _. vtprintf fuel (d ∷ fmt) args)
        (tputchar-Prints fuel c) rest)

  end_of : (args : List Argument) → Prints fuel [] tt (vtprintf fuel [] args)
  unfolding vtprintf
  end_of args = nothing-Prints fuel tt

  ignored :
      (d : ℕ) (args : List Argument)
      → ((d == 99) || (d == 100) || (d == 112) || (d == 115)) ≡ false
      → Prints fuel [] args (put_argument fuel d args)
  unfolding put_argument
  ignored d [] other = rw other (nothing-Prints fuel [])
  ignored d (word n ∷ args) other =
      let c : (d == 99) ≡ false = ground arith in
      let i : (d == 100) ≡ false = ground arith in
      let p : (d == 112) ≡ false = ground arith in
      let s : (d == 115) ≡ false = ground arith in
      rw (c, i, p, s) (nothing-Prints fuel (word n ∷ args))
  ignored d (string xs ∷ args) other =
      let s : (d == 115) ≡ false = ground arith in
      let others : ((d == 99) || (d == 100) || (d == 112)) ≡ false = ground arith in
      rw (s, others) (nothing-Prints fuel (string xs ∷ args))

  vtprintf-Formats :
      (fmt : List ℕ) (args : List Argument) (text : List ℕ)
      → Formats fmt args text
      → Prints fuel text tt (vtprintf fuel fmt args)
  unfolding put_argument
  vtprintf-Formats _ _ _ (end_of_format args) = end_of args
  vtprintf-Formats _ _ _ (literal c fmt args text plain rest) =
      literal-Prints c fmt args text plain (vtprintf-Formats fmt args text rest)
  vtprintf-Formats _ _ _ (character n fmt args text rest) =
      argument-Prints 99 fmt (word n ∷ args) args (n ∷ []) text
        (then_args fuel (n ∷ []) 0 (tputchar fuel n) args (tputchar-Prints fuel n))
        (vtprintf-Formats fmt args text rest)
  vtprintf-Formats _ _ _ (decimal n digits fmt args text small numeral rest) =
      let e = convert-Numeral 10 n digits (inl refl) (omega arith) numeral in
      argument-Prints 100 fmt (word n ∷ args) args digits text
        (then_args fuel digits tt (put_number fuel (convert n 10)) args
          (put_number-Prints n 10 digits e))
        (vtprintf-Formats fmt args text rest)
  vtprintf-Formats _ _ _ (pointer n digits fmt args text small numeral rest) =
      let e = convert-Numeral 16 n digits (inr refl) small numeral in
      subst (λ l. Prints fuel l tt (vtprintf fuel (37 ∷ 112 ∷ fmt) (word n ∷ args)))
        (append_assoc (48 ∷ 120 ∷ []) digits text)
        (argument-Prints 112 fmt (word n ∷ args) args ((48 ∷ 120 ∷ []) ++ digits) text
          (then_args fuel ((48 ∷ 120 ∷ []) ++ digits) tt
            (tputs fuel (48 ∷ 120 ∷ []) >> put_number fuel (convert n 16)) args
            (Prints-bind fuel (48 ∷ 120 ∷ []) digits tt tt (tputs fuel (48 ∷ 120 ∷ []))
              (λ _. put_number fuel (convert n 16)) (tputs-Prints fuel (48 ∷ 120 ∷ []))
              (put_number-Prints n 16 digits e)))
          (vtprintf-Formats fmt args text rest))
  vtprintf-Formats _ _ _ (string_of s fmt args text rest) =
      argument-Prints 115 fmt (string s ∷ args) args s text
        (then_args fuel s tt (tputs fuel s) args (tputs-Prints fuel s))
        (vtprintf-Formats fmt args text rest)
  vtprintf-Formats _ _ _ (unknown d fmt args text other rest) =
      argument-Prints d fmt args args [] text (ignored d args other)
        (vtprintf-Formats fmt args text rest)

  -- `tprintf` of a format and arguments that stand for a text (`Formats`: `%c` and `%s` for a
  -- character and a string, `%d` for the decimal numeral of a number below `2 ^ 31` and `%p` for 0x
  -- and the hexadecimal numeral of a word, without leading zeros, any other letter behind `%` for
  -- nothing), on a terminal that transmits each character of the text, being busy with it for fewer
  -- readings than the fuel, returns, and has told the terminal to transmit the characters of the text
  -- in order, each followed by an acknowledgement.
  pub tprintf-Formats :
      (fmt : List ℕ) (args : List Argument) (text : List ℕ) (cs : Paced) (t : Terminal)
      → Formats fmt args text
      → chars cs ≡ text
      → Transmits fuel cs t
      → tprintf fuel fmt args t
        ≡ done tt (record (after cs t) { commands = t.commands ++ sent text })
  unfolding tprintf
  tprintf-Formats fmt args text cs t f e w = vtprintf-Formats fmt args text f cs t e w
