-- ===== src/Examples/Drivers.antt =====
-- The theorems of src/terminal.c and src/memory.c at concrete inputs.
use bi_kaya.Base.{
  ℕ, ◌+◌, ◌-◌, ◌%◌, ◌≤◌, ◌≡◌, ◌&&◌, inr, refl, some, true, List, [], ◌∷◌, ◌++◌, arith, ◌==◌, leb,
  ltb, if◌then◌else◌, length,
}
use bi_kaya.Memory.{Bytes, memcpy}
use bi_kaya.Memory.Copy.{memcpy-bytes}
use bi_kaya.Printer.{Printer, prtr_puts}
use bi_kaya.Printer.Output.{printed, prtr_puts-printed}
use bi_kaya.Terminal.{Terminal, done, convert, tprintf, tgets, word}
use bi_kaya.Terminal.Convert.{read_from, convert-read_from}
use bi_kaya.Terminal.Format.{Formats, end_of_format, decimal, tprintf-Formats}
use bi_kaya.Terminal.Input.{Arriving, Delivers, asked, after_bytes, ended, more, tgets-IsLine}
use bi_kaya.Terminal.Numeral.{single, longer}
use bi_kaya.Terminal.Output.{Answers, Paced, Transmits, sent, after}

-- 0xBEEF in hexadecimal.
convert_example :
    (ds : List ℕ) × (convert 48879 16 ≡ some ds) × (read_from 16 0 ds ≡ 48879) × (length ds ≤ 32)
convert_example = convert-read_from 16 48879 (inr refl) (omega arith)

-- Ready, then busy once, then done, again and again.
abbrev patient : Terminal
patient = record {
  transm_status = λ n. if n % 3 == 0 then 1 else if n % 3 == 1 then 3 else 5;
  recv_status = λ _. 1;
  commands = [];
}

patient-Answers : Answers 1 patient
patient-Answers = record { ready = refl; busy = λ i lt. ground arith; free = refl }

abbrev hi : Paced
hi = (72, 1) ∷ (105, 1) ∷ []

patient-Transmits : Transmits 2 hi patient
patient-Transmits = (
  omega arith,
  patient-Answers,
  refl,
  (omega arith, (record { ready = refl; busy = λ i lt. ground arith; free = refl }), refl, tt),
)

abbrev counting : Bytes
counting a = a % 256

memcpy_example :
    memcpy counting 100 40 16 107
    ≡ (if leb 100 107 && ltb 107 (100 + 16) then counting (40 + (107 - 100)) else counting 107)
memcpy_example = memcpy-bytes counting 100 40 16 107 (inr (omega arith))

-- "%d" of 42, on the same terminal.
answer : Formats (37 ∷ 100 ∷ []) (word 42 ∷ []) (52 ∷ 50 ∷ [])
answer =
    decimal 42 (52 ∷ 50 ∷ []) [] [] [] (omega arith)
      (longer 4 2 (52 ∷ []) (omega arith) (omega arith) (single 4 (omega arith))) (end_of_format [])

abbrev answer_paced : Paced
answer_paced = (52, 1) ∷ (50, 1) ∷ []

tprintf-Formats_example :
    tprintf 2 (37 ∷ 100 ∷ []) (word 42 ∷ []) patient
    ≡ done tt
        (record (after answer_paced patient) { commands = patient.commands ++ sent (52 ∷ 50 ∷ []) })
tprintf-Formats_example =
    tprintf-Formats 2 (37 ∷ 100 ∷ []) (word 42 ∷ []) (52 ∷ 50 ∷ []) answer_paced patient answer refl
      patient-Transmits

-- Ready, then busy once, then done; and no longer ready after the first character.
abbrev one_shot : Printer
one_shot = record { status = λ n. if n == 0 then 1 else if n == 1 then 3 else 2; writes = [] }

prtr_puts-printed_example :
    (q : Printer) × (prtr_puts 2 (72 ∷ 105 ∷ []) one_shot ≡ some q)
    × (q.writes ≡ one_shot.writes ++ printed (72 ∷ []))
prtr_puts-printed_example =
    prtr_puts-printed 2 ((72, 1) ∷ []) (105 ∷ []) one_shot
      (omega arith, (record { ready = refl; busy = λ i lt. ground arith; free = refl }), tt)
      (inr refl)

-- Ready, then busy once, then a character; the second is a new line.
abbrev typed : Terminal
typed = record {
  transm_status = λ _. 1;
  recv_status =
      λ n. if n % 4 == 0 then 1 else if n % 4 == 1 then 3 else if n == 3 then 26629 else 2565;
  commands = [];
}

abbrev typed_bytes : Arriving
typed_bytes = (104, 1) ∷ (10, 1) ∷ []

typed-Delivers : Delivers 2 typed_bytes typed
typed-Delivers = (
  omega arith,
  omega arith,
  (record { ready = refl; busy = λ i lt. ground arith; received = refl; character = refl }),
  (
    omega arith,
    omega arith,
    (record { ready = refl; busy = λ i lt. ground arith; received = refl; character = refl }),
    tt,
  ),
)

tgets-IsLine_example :
    tgets 2 79 typed
    ≡ done
        (104 ∷ 10 ∷ [], true)
        (record (after_bytes typed_bytes typed) { commands = typed.commands ++ asked typed_bytes })
tgets-IsLine_example =
    tgets-IsLine 2 79 typed_bytes true typed typed-Delivers
      (more 78 104 (10 ∷ []) true refl (ended 77))
