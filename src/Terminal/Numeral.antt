-- ===== src/Terminal/Numeral.antt =====
-- The numerals that `convert` of src/terminal.c is to write, and that it writes them.
use mathlib.Core.List.{append_assoc, append-nil}
use bi_kaya.Base.{
  ℕ, zero, suc, ◌+◌, ◌*◌, ◌/◌, ◌%◌, ◌<◌, ◌≡◌, ◌⊎◌, inl, inr, refl, ap, sym, ◌≤◌, ◌∙◌, false, some,
  List, [], ◌∷◌, ◌++◌, arith, ◌==◌,
}
use bi_kaya.Types.{word_size}
use bi_kaya.Terminal.{digit, convert_loop, convert}
use bi_kaya.Terminal.Convert.{bound}

-- "0123456789ABCDEF"
abbrev pub glyphs : List ℕ
glyphs = 48 ∷ 49 ∷ 50 ∷ 51 ∷ 52 ∷ 53 ∷ 54 ∷ 55 ∷ 56 ∷ 57 ∷ 65 ∷ 66 ∷ 67 ∷ 68 ∷ 69 ∷ 70 ∷ []

abbrev pub character_at : List ℕ → ℕ → ℕ
character_at [] d = 0
character_at (c ∷ cs) zero = c
character_at (c ∷ cs) (suc d) = character_at cs d

-- The digits of a number in a base, the highest first and not 0 unless it is the only one.
pub data Numeral (base : ℕ) : ℕ → List ℕ → Type 0 where
  single : (d : ℕ) → d < base → Numeral base d (character_at glyphs d ∷ [])
  longer :
      (n d : ℕ) (digits : List ℕ)
      → 0 < n
      → d < base
      → Numeral base n digits
      → Numeral base (n * base + d) (digits ++ character_at glyphs d ∷ [])

digit-glyph : (d : ℕ) → d < 16 → digit d ≡ character_at glyphs d
digit-glyph zero small = refl
digit-glyph (suc zero) small = refl
digit-glyph (suc (suc zero)) small = refl
digit-glyph (suc (suc (suc zero))) small = refl
digit-glyph (suc (suc (suc (suc zero)))) small = refl
digit-glyph (suc (suc (suc (suc (suc zero))))) small = refl
digit-glyph (suc (suc (suc (suc (suc (suc zero)))))) small = refl
digit-glyph (suc (suc (suc (suc (suc (suc (suc zero))))))) small = refl
digit-glyph (suc (suc (suc (suc (suc (suc (suc (suc zero)))))))) small = refl
digit-glyph (suc (suc (suc (suc (suc (suc (suc (suc (suc zero))))))))) small = refl
digit-glyph (suc (suc (suc (suc (suc (suc (suc (suc (suc (suc zero)))))))))) small = refl
digit-glyph (suc (suc (suc (suc (suc (suc (suc (suc (suc (suc (suc zero))))))))))) small = refl
digit-glyph (suc (suc (suc (suc (suc (suc (suc (suc (suc (suc (suc (suc zero)))))))))))) small =
    refl
digit-glyph (suc (suc (suc (suc (suc (suc (suc (suc (suc (suc (suc (suc (suc zero)))))))))))))
      small =
    refl
digit-glyph (suc (suc (suc (suc (suc (suc (suc (suc (suc (suc (suc (suc (suc (suc zero))))))))))))))
      small =
    refl
digit-glyph
      (suc (suc (suc (suc (suc (suc (suc (suc (suc (suc (suc (suc (suc (suc (suc zero)))))))))))))))
      small =
    refl
digit-glyph
      (suc
        (suc (suc (suc (suc (suc (suc (suc (suc (suc (suc (suc (suc (suc (suc (suc d))))))))))))))))
      small =
    absurd (omega arith)

module _ (base : ℕ) (kind : (base ≡ 10) ⊎ (base ≡ 16)) where
  below : (d : ℕ) → d < base → (d / base ≡ 0) × (d % base ≡ d) × (d < 16)
  below d small = elim kind [
    | inl e ↦ rw e (omega arith, omega arith, omega arith)
    | inr e ↦ rw e (omega arith, omega arith, omega arith)
  ]

  split :
      (n d : ℕ)
      → d < base
      → ((n * base + d) / base ≡ n) × ((n * base + d) % base ≡ d) × (2 * n ≤ n * base + d)
  split n d small = elim kind [
    | inl e ↦ rw e (omega arith, omega arith, omega arith)
    | inr e ↦ rw e (omega arith, omega arith, omega arith)
  ]

  -- What is in the buffer already stands behind the digits.
  convert_loop-Numeral :
      (rounds k n : ℕ) (digits buffer : List ℕ)
      → k < rounds
      → n < bound (suc k)
      → Numeral base n digits
      → convert_loop rounds n base buffer ≡ some (digits ++ buffer)
  unfolding convert_loop bound
  convert_loop-Numeral zero k n digits buffer enough few numeral = absurd (omega arith)
  convert_loop-Numeral (suc rounds) k _ _ buffer enough few (single d small) =
      let (last, same, few_glyphs) = below d small in rw (last, same, digit-glyph d few_glyphs) refl
  convert_loop-Numeral (suc rounds) zero _ _ buffer enough few (longer n d digits more small rest) =
      absurd (omega (arith, (split n d small).2))
  convert_loop-Numeral (suc rounds) (suc k) _ _ buffer enough few
        (longer n d digits more small rest) =
      let (front, same, twice) = split n d small in
      let not_last : (n == 0) ≡ false = ground arith in
      rw (front, same, not_last, digit-glyph d (below d small).2)
        (convert_loop-Numeral rounds k n digits (character_at glyphs d ∷ buffer) (omega arith)
            (omega arith) rest
          ∙ ap some (sym (append_assoc digits (character_at glyphs d ∷ []) buffer)))

-- `convert` of a word in base 10 or 16 writes its numeral.
pub convert-Numeral :
    (base n : ℕ) (digits : List ℕ)
    → ((base ≡ 10) ⊎ (base ≡ 16))
    → n < word_size
    → Numeral base n digits
    → convert n base ≡ some digits
unfolding convert bound
convert-Numeral base n digits kind small numeral =
    convert_loop-Numeral base kind 63 31 n digits [] (omega arith) (omega arith) numeral
    ∙ ap some (append-nil digits)
