-- ===== src/Machine/Children.antt =====
-- `list_for_each_entry` of src/include/listx.h over the children of a process.
use bi_kaya.Base.{
  ℕ, suc, ◌≡◌, refl, false, List, [], ◌∷◌, map, arith, ◌==◌, ==_refl, Bool, true, subst, ◌∙◌,
}
use bi_kaya.ListX.{Links}
use bi_kaya.ListX.Chain.{Chain}
use bi_kaya.Types.{p_child, p_sib, slot, container_of}
use bi_kaya.Types.Lists.{Lists}
use bi_kaya.Machine.{Kernel, Cmd, ok, for_each_from, and_then}

pub for_each_from-child :
    (n : ℕ) (body : ℕ → Cmd (Unit {0})) (p c : ℕ) (k : Kernel)
    → for_each_from (suc n) body (p_child p) (p_sib c) k
      ≡ and_then (body c k) λ _ k'. for_each_from n body (p_child p) (k'.links.next (p_sib c)) k'
unfolding for_each_from
for_each_from-child n body p c k =
    let other : (p_sib c == p_child p) ≡ false = ground arith in
    let same : container_of (p_sib c) ≡ c = omega arith in rw (other, same) refl

pub for_each_from-end :
    (n : ℕ) (body : ℕ → Cmd (Unit {0})) (h : ℕ) (k : Kernel)
    → for_each_from (suc n) body h h k ≡ ok tt k
unfolding for_each_from
for_each_from-end n body h k = rw (==_refl h) refl

-- From `a` on the siblings are `cs`, the last of which leads to `h`.
abbrev pub Nexts : Links → ℕ → List ℕ → ℕ → Type 0
Nexts l a [] h = l.next a ≡ h
Nexts l a (c ∷ cs) h = (l.next a ≡ p_sib c) × Nexts l (p_sib c) cs h

Nexts-Chain :
    (l : Links) (p a : ℕ) (cs : List ℕ)
    → Chain l a (map (slot (p_child p)) cs) (p_child p)
    → Nexts l a cs (p_child p)
Nexts-Chain l p a [] c = c.0
Nexts-Chain l p a (x ∷ cs) c =
    let place : slot (p_child p) x ≡ p_sib x = ground arith in
    (
      c.0 ∙ place,
      subst (λ n. Nexts l n cs (p_child p)) place (Nexts-Chain l p (slot (p_child p) x) cs c.2),
    )

pub Nexts-children :
    {live : ℕ → Bool} {l : Links} {qs : ℕ → List ℕ} (r : Lists live l qs) (p : ℕ) (cs : List ℕ)
    → live (p_child p) ≡ true
    → qs (p_child p) ≡ cs
    → Nexts l (p_child p) cs (p_child p)
Nexts-children {l = l} r p cs at e = Nexts-Chain l p (p_child p) cs (
    subst (λ xs. Chain l (p_child p) (map (slot (p_child p)) xs) (p_child p)) e
      (r.rings.ring (p_child p) at))

-- Siblings lead where they led.
pub Nexts-sibs :
    (l l' : Links) (c : ℕ) (cs : List ℕ) (h : ℕ)
    → ((i : ℕ) → l'.next (p_sib i) ≡ l.next (p_sib i))
    → Nexts l (p_sib c) cs h
    → Nexts l' (p_sib c) cs h
Nexts-sibs l l' c [] h same e = same c ∙ e
Nexts-sibs l l' c (x ∷ cs) h same e = (same c ∙ e.0, Nexts-sibs l l' x cs h same e.1)
