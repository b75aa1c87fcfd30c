-- ===== src/Terminal/Convert.antt =====
-- The digits that `convert` of src/terminal.c writes.
use bi_kaya.Base.{
  ℕ, zero, suc, ◌+◌, ◌-◌, ◌*◌, ◌/◌, ◌%◌, ◌≤◌, ◌<◌, ◌≡◌, ◌⊎◌, inl, inr, refl, ap, ◌∙◌, true, some,
  List, [], ◌∷◌, arith, ◌==◌, ltb, if◌then◌else◌, Bool-cases, length,
}
use bi_kaya.Types.{word_size}
use bi_kaya.Terminal.{digit, convert_loop, convert}

-- The number that digits in a base stand for, the first being the highest: what `strtoul` reads.
unfoldable pub digit_value : ℕ → ℕ
digit_value c = if ltb c 65 then c - 48 else c - 55

unfoldable pub read_from : (base acc : ℕ) → List ℕ → ℕ
read_from base acc [] = acc
read_from base acc (c ∷ cs) = read_from base (acc * base + digit_value c) cs

digit_value-digit : (n : ℕ) → n < 16 → digit_value (digit n) ≡ n
unfolding digit_value
digit_value-digit n small = ground arith

unfoldable pub bound : ℕ → ℕ
bound zero = 1
bound (suc n) = 2 * bound n

module _ (base : ℕ) (kind : (base ≡ 10) ⊎ (base ≡ 16)) where
  digits_add : (num : ℕ) → num / base * base + num % base ≡ num
  digits_add num = elim kind [ inl e ↦ rw e (omega arith) | inr e ↦ rw e (omega arith) ]

  half : (num : ℕ) → 2 * (num / base) ≤ num
  half num = elim kind [ inl e ↦ rw e (omega arith) | inr e ↦ rw e (omega arith) ]

  small : (num : ℕ) → num % base < 16
  small num = elim kind [ inl e ↦ rw e (omega arith) | inr e ↦ rw e (omega arith) ]

  abbrev Result : (rounds num : ℕ) → List ℕ → ℕ → Type 0
  Result rounds num buffer size =
      (ds : List ℕ) × (convert_loop rounds num base buffer ≡ some ds)
      × (read_from base 0 ds ≡ read_from base num buffer)
      × (length ds ≤ size + length buffer)

  last_round :
      (rounds num size : ℕ) (buffer : List ℕ)
      → 0 < size
      → (num / base == 0) ≡ true
      → Result (suc rounds) num buffer size
  unfolding convert_loop read_from
  last_round rounds num size buffer room last =
      let none_left : num / base ≡ 0 = ground arith in
      let whole : 0 * base + num % base ≡ num = rw none_left at (digits_add num) in
      (
        digit (num % base) ∷ buffer,
        rw last refl,
        rw (digit_value-digit (num % base) (small num)) (ap (λ a. read_from base a buffer) whole),
        omega arith,
      )

  -- What is in the buffer already is read behind what `num` still gives.
  convert_loop-read_from :
      (n rounds num : ℕ) (buffer : List ℕ)
      → n < rounds
      → num < bound (suc n)
      → Result rounds num buffer (suc n)
  unfolding convert_loop read_from bound
  convert_loop-read_from n zero num buffer enough few = absurd (omega arith)
  convert_loop-read_from zero (suc rounds) num buffer enough few =
      last_round rounds num 1 buffer (omega arith) (ground (arith, half num))
  convert_loop-read_from (suc n) (suc rounds) num buffer enough few =
      elim (Bool-cases (num / base == 0)) [
        | inl last ↦ last_round rounds num (suc (suc n)) buffer (omega arith) last
        | inr more ↦
            let (ds, e, value, size) =
              convert_loop-read_from n rounds (num / base) (digit (num % base) ∷ buffer)
                (omega arith) (omega (arith, half num)) in
            (
              ds,
              rw more e,
              value
                  ∙ rw (digit_value-digit (num % base) (small num))
                      (ap (λ a. read_from base a buffer) (digits_add num)),
              omega arith,
            )
      ]

-- `convert` of a word in base 10 or 16 does not run out of its buffer: it gives at most 32 digits, which
-- read as the number in that base.
pub convert-read_from :
    (base num : ℕ)
    → ((base ≡ 10) ⊎ (base ≡ 16))
    → num < word_size
    → (ds : List ℕ) × (convert num base ≡ some ds) × (read_from base 0 ds ≡ num) × (length ds ≤ 32)
unfolding convert read_from bound
convert-read_from base num kind small_num =
    let (ds, e, value, size) =
      convert_loop-read_from base kind 31 63 num [] (omega arith) (omega arith) in
    (ds, e, value, omega arith)
