-- ===== src/Terminal/Prints.antt =====
-- What the terminal driver of src/terminal.c prints: the rules by which its output is put together.
use mathlib.Core.List.{append_assoc, append-nil}
use bi_kaya.Base.{ℕ, suc, ◌≡◌, refl, ap, sym, subst, ◌∙◌, List, [], ◌∷◌, ◌++◌}
use bi_kaya.Types.{cmd_ack}
use bi_kaya.Terminal.{
  Terminal, Command, Argument, Io, done, transm_command, transmit, pure, ◌>>=◌, ◌>>◌, tputchar,
  tputs,
}
use bi_kaya.Terminal.Output.{
  Paced, Transmits, Transmits-commands, chars, sent, after, after-commands, skip, tputchar-commands,
  tputs-sent,
}

Transmits-append :
    (fuel : ℕ) (us vs : Paced) (t : Terminal)
    → Transmits fuel (us ++ vs) t
    → Transmits fuel us t × Transmits fuel vs (after us t)
Transmits-append fuel [] vs t w = (tt, w)
Transmits-append fuel ((_, n) ∷ us) vs t w =
    let (front, back) = Transmits-append fuel us vs (skip (suc (suc n)) t) w.3 in
    ((w.0, w.1, w.2, front), back)

after-append : (us vs : Paced) (t : Terminal) → after (us ++ vs) t ≡ after vs (after us t)
after-append [] vs t = refl
after-append ((_, n) ∷ us) vs t = after-append us vs (skip (suc (suc n)) t)

sent-append : (xs ys : List ℕ) → sent (xs ++ ys) ≡ sent xs ++ sent ys
sent-append [] ys = refl
sent-append (x ∷ xs) ys =
    ap (λ (cs : List Command). transmit x ∷ transm_command cmd_ack ∷ cs) (sent-append xs ys)

chars-split :
    (xs ys : List ℕ) (cs : Paced)
    → chars cs ≡ xs ++ ys
    → (us : Paced) × (vs : Paced) × (cs ≡ us ++ vs) × (chars us ≡ xs) × (chars vs ≡ ys)
chars-split [] ys cs e = ([], cs, refl, refl, e)
chars-split (x ∷ xs) ys [] e = cc
chars-split (x ∷ xs) ys ((c, n) ∷ cs) e =
    let (us, vs, whole, front, back) = chars-split xs ys cs (cc) in
    ((c, n) ∷ us, vs, ap (◌∷◌ (c, n)) whole, cc, back)

module _ (fuel : ℕ) where
  -- `m` has the characters transmitted and results in `a`.
  abbrev pub Prints {ℓ} : {A : Type ℓ} → List ℕ → A → Io A → Type ℓ
  Prints text a m =
      (cs : Paced) (t : Terminal)
      → chars cs ≡ text
      → Transmits fuel cs t
      → m t ≡ done a (record (after cs t) { commands = t.commands ++ sent text })

  pub Prints-bind {ℓ κ} :
      {A : Type ℓ} {B : Type κ} (xs ys : List ℕ) (a : A) (b : B) (m : Io A) (f : A → Io B)
      → Prints xs a m
      → Prints ys b (f a)
      → Prints (xs ++ ys) b (m >>= f)
  Prints-bind xs ys a b m f first second cs t e w =
      let (us, vs, whole, front, back) = chars-split xs ys cs e in
      let (w1, w2) = Transmits-append fuel us vs t (subst (λ l. Transmits fuel l t) whole w) in
      let ws = t.commands ++ sent xs in
      rw (first us t front w1) (
        second vs (record (after us t) { commands = ws }) back
          (Transmits-commands fuel vs (after us t) ws w2)
        ∙ rw
            (
              whole,
              after-append us vs t,
              after-commands vs (after us t) ws,
              sent-append xs ys,
              append_assoc t.commands (sent xs) (sent ys),
            )
            refl)

  pub tputchar-Prints : (c : ℕ) → Prints (c ∷ []) 0 (tputchar fuel c)
  tputchar-Prints c [] t e w = cc
  tputchar-Prints c ((x, n) ∷ (y ∷ cs)) t e w = cc
  tputchar-Prints c ((x, n) ∷ []) t e w =
      rw (tputchar-commands fuel c n t w.0 w.1, w.2)
        (ap (λ ws. done 0 (record (skip (suc (suc n)) t) { commands = ws }))
          (two t.commands (transmit c) (transm_command cmd_ack)))
    where
      two : (cs : List Command) (a b : Command) → (cs ++ a ∷ []) ++ b ∷ [] ≡ cs ++ a ∷ b ∷ []
      two cs a b = append_assoc cs (a ∷ []) (b ∷ [])

  pub tputs-Prints : (s : List ℕ) → Prints s tt (tputs fuel s)
  tputs-Prints s cs t e w =
      subst
        (λ x. tputs fuel x t ≡ done tt (record (after cs t) { commands = t.commands ++ sent x })) e
        (tputs-sent fuel cs t w)

  pub nothing-Prints {ℓ} : {A : Type ℓ} (a : A) → Prints [] a (pure a)
  nothing-Prints a [] t e w =
      ap (λ ws. done a (record t { commands = ws })) (sym (append-nil t.commands))
  nothing-Prints a (c ∷ cs) t e w = cc

  pub then_args :
      {A : Type 0} (xs : List ℕ) (a : A) (m : Io A) (args : List Argument)
      → Prints xs a m
      → Prints xs args (m >> pure args)
  then_args xs a m args first =
      subst (λ ys. Prints ys args (m >> pure args)) (append-nil xs)
        (Prints-bind xs [] a args m (λ _. pure args) first (nothing-Prints args))
