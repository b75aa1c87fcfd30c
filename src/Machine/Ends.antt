-- ===== src/Machine/Ends.antt =====
-- A part of a handler that returns or leaves the kernel.
use bi_kaya.Base.{ℕ, ◌≡◌, inl, inr, arith, ◌==◌, Bool-cases, if◌then◌else◌}
use bi_kaya.Types.{StateT}
use bi_kaya.Machine.{Kernel, Cmd, Run, ok, loaded, fault, out_of_fuel, and_then, Returns, Leaves}

-- Without a fault, and with a memory such that `P`.
abbrev pub Ends {ℓ} : {A : Type ℓ} → (Kernel → Type 0) → Run A → Type 0
Ends P (ok a k) = P k
Ends P (loaded s k) = P k
Ends P fault = ⊥
Ends P out_of_fuel = ⊥

pub Ends-bind {ℓ κ} :
    {A : Type ℓ} {B : Type κ} (P : Kernel → Type 0) (r : Run A) (f : A → Cmd B)
    → Ends P r
    → ((a : A) (k : Kernel) → P k → Ends P (f a k))
    → Ends P (and_then r f)
Ends-bind P (ok a k) f h g = g a k h
Ends-bind P (loaded s k) f h g = h
Ends-bind P fault f h g = absurd h
Ends-bind P out_of_fuel f h g = absurd h

-- What comes after it leaves the kernel.
pub Ends-leave {ℓ κ} :
    {A : Type ℓ} {B : Type κ} (P : Kernel → Type 0) (r : Run A) (f : A → Cmd B)
    → Ends P r
    → ((a : A) (k : Kernel) → P k → Leaves (λ _ k'. P k') (f a k))
    → Leaves (λ _ k'. P k') (and_then r f)
Ends-leave P (ok a k) f h g = g a k h
Ends-leave P (loaded s k) f h g = h
Ends-leave P fault f h g = absurd h
Ends-leave P out_of_fuel f h g = absurd h

pub Returns-Ends {ℓ} :
    {A : Type ℓ} (P : Kernel → Type 0) (Q : A → Kernel → Type 0) (r : Run A)
    → Returns Q r
    → ((a : A) (k : Kernel) → Q a k → P k)
    → Ends P r
Returns-Ends P Q (ok a k) h f = f a k h
Returns-Ends P Q (loaded s k) h f = absurd h
Returns-Ends P Q fault h f = absurd h
Returns-Ends P Q out_of_fuel h f = absurd h

pub Leaves-Ends {ℓ} :
    {A : Type ℓ} (P : Kernel → Type 0) (Q : StateT → Kernel → Type 0) (r : Run A)
    → Leaves Q r
    → ((s : StateT) (k : Kernel) → Q s k → P k)
    → Ends P r
Leaves-Ends P Q (ok a k) h f = absurd h
Leaves-Ends P Q (loaded s k) h f = f s k h
Leaves-Ends P Q fault h f = absurd h
Leaves-Ends P Q out_of_fuel h f = absurd h

pub Ends-case {ℓ} :
    {A : Type ℓ} (P : Kernel → Type 0) (a b : ℕ) (m n : Cmd A) (k : Kernel)
    → (a ≡ b → Ends P (m k))
    → Ends P (n k)
    → Ends P ((if a == b then m else n) k)
Ends-case P a b m n k same other = elim (Bool-cases (a == b)) [
  | inl it ↦ rw it (same (ground arith))
  | inr another ↦ rw another other
]
