-- ===== src/Machine.antt =====
-- The memory of the machine while the kernel runs, and commands that read and write it.
pub mod Ends
pub mod Children
use bi_kaya.Base.{ℕ, zero, suc, ◌≡◌, Bool, Option, none, some, if◌then◌else◌, ◌==◌}
use bi_kaya.ListX.{Links, put, list_find}
use bi_kaya.Types.{StateT, Pcb, max_proc, container_of}

-- `pcbs` and `s_keys` are `pcbTable` and the keys of `semdTable`, their list heads being in
-- `links`. `words` is the memory of integers and device registers by address, `states` that of
-- processor states. `tod` gives the next readings of the time-of-day clock.
pub record Kernel : Type 0 where
  pub links : Links
  pub pcbs : ℕ → Pcb
  pub s_keys : ℕ → ℕ
  pub current_proc : Option ℕ
  pub switch_tick : ℕ
  pub idle_proc_state : StateT
  pub words : ℕ → ℕ
  pub states : ℕ → StateT
  pub tod : ℕ → ℕ

-- `loaded s k`: the kernel has left by `LDST(s)`, which does not return. `fault` is an access
-- through `NULL` or past an array, `out_of_fuel` a loop that was given too few rounds.
pub data Run {ℓ} (A : Type ℓ) : Type ℓ where
  ok : A → Kernel → Run A
  loaded : StateT → Kernel → Run A
  fault : Run A
  out_of_fuel : Run A

abbrev pub Cmd {ℓ} : Type ℓ → Type ℓ
Cmd A = Kernel → Run A

abbrev pub pure {ℓ} : {A : Type ℓ} → A → Cmd A
pure a k = ok a k

module _ {ℓ κ} {A : Type ℓ} {B : Type κ} where
  abbrev pub and_then : Run A → (A → Cmd B) → Run B
  and_then (ok a k) f = f a k
  and_then (loaded s k) f = loaded s k
  and_then fault f = fault
  and_then out_of_fuel f = out_of_fuel

  infixl 5 ◌>>=◌ ◌>>◌
  abbrev pub ◌>>=◌ : Cmd A → (A → Cmd B) → Cmd B
  ◌>>=◌ m f k = and_then (m k) f

  abbrev pub ◌>>◌ : Cmd A → Cmd B → Cmd B
  ◌>>◌ m n k = and_then (m k) (λ _. n)

abbrev pub get : Cmd Kernel
get k = ok k k

abbrev pub modify : (Kernel → Kernel) → Cmd (Unit {0})
modify f k = ok tt (f k)

abbrev pub set_links : (Links → Links) → Cmd (Unit {0})
set_links f k = ok tt (record k { links = f k.links })

abbrev pub set_pcb : ℕ → (Pcb → Pcb) → Cmd (Unit {0})
set_pcb i f k = ok tt (record k { pcbs = put k.pcbs i (f (k.pcbs i)) })

-- `*p` where `p` may be `NULL`.
abbrev pub deref {ℓ} : {A : Type ℓ} → Option A → Cmd A
deref none k = fault
deref (some a) k = ok a k

abbrev pub fueled {ℓ} : {A : Type ℓ} → Option A → Cmd A
fueled none k = out_of_fuel
fueled (some a) k = ok a k

-- Every list of the kernel has at most `max_proc` entries.
abbrev pub fuel : ℕ
fuel = suc max_proc

-- `list_for_each_entry` over the list at `head`, up to the first structure that passes.
abbrev pub search_list : (ℕ → Bool) → ℕ → Cmd (Option ℕ)
search_list test head k =
    fueled (list_find fuel k.links (λ node. test (container_of node)) head (k.links.next head)) k

-- `list_for_each_entry` with a body that may change the lists: where the loop goes on is read after
-- the body, from the node that it was at.
unfoldable pub for_each_from : ℕ → (ℕ → Cmd (Unit {0})) → (head pos : ℕ) → Cmd (Unit {0})
for_each_from zero body head pos k = out_of_fuel
for_each_from (suc n) body head pos k =
    let rest = λ (_ : Unit {0}) (k' : Kernel). for_each_from n body head (k'.links.next pos) k' in
    if pos == head then ok tt k else and_then (body (container_of pos) k) rest

unfoldable pub for_each_entry : (ℕ → Cmd (Unit {0})) → ℕ → Cmd (Unit {0})
unfolding for_each_from
for_each_entry body head k = for_each_from fuel body head (k.links.next head) k

-- A run that returns, with a value and a memory such that `P`.
abbrev pub Returns {ℓ} : {A : Type ℓ} → (A → Kernel → Type 0) → Run A → Type 0
Returns P (ok a k) = P a k
Returns P (loaded s k) = ⊥
Returns P fault = ⊥
Returns P out_of_fuel = ⊥

pub Returns-map {ℓ} :
    {A : Type ℓ} (P Q : A → Kernel → Type 0) (r : Run A)
    → Returns P r
    → ((a : A) (k : Kernel) → P a k → Q a k)
    → Returns Q r
Returns-map P Q (ok a k) h f = f a k h
Returns-map P Q (loaded s k) h f = absurd h
Returns-map P Q fault h f = absurd h
Returns-map P Q out_of_fuel h f = absurd h

-- The rule for a sequence.
pub Returns-bind {ℓ κ} :
    {A : Type ℓ} {B : Type κ} (P : A → Kernel → Type 0) (Q : B → Kernel → Type 0) (r : Run A)
    (f : A → Cmd B)
    → Returns P r
    → ((a : A) (k : Kernel) → P a k → Returns Q (f a k))
    → Returns Q (and_then r f)
Returns-bind P Q (ok a k) f h g = g a k h
Returns-bind P Q (loaded s k) f h g = absurd h
Returns-bind P Q fault f h g = absurd h
Returns-bind P Q out_of_fuel f h g = absurd h

-- Only the pointers differ.
abbrev pub SameButLinks : Kernel → Kernel → Type 0
SameButLinks k k' = k' ≡ record k { links = k'.links }

-- A run that leaves the kernel, by loading a state and with a memory such that `P`.
abbrev pub Leaves {ℓ} : {A : Type ℓ} → (StateT → Kernel → Type 0) → Run A → Type 0
Leaves P (ok a k) = ⊥
Leaves P (loaded s k) = P s k
Leaves P fault = ⊥
Leaves P out_of_fuel = ⊥

pub Leaves-bind {ℓ κ} :
    {A : Type ℓ} {B : Type κ} (P : A → Kernel → Type 0) (Q : StateT → Kernel → Type 0) (r : Run A)
    (f : A → Cmd B)
    → Returns P r
    → ((a : A) (k : Kernel) → P a k → Leaves Q (f a k))
    → Leaves Q (and_then r f)
Leaves-bind P Q (ok a k) f h g = g a k h
Leaves-bind P Q (loaded s k) f h g = absurd h
Leaves-bind P Q fault f h g = absurd h
Leaves-bind P Q out_of_fuel f h g = absurd h

pub Leaves-map {ℓ} :
    {A : Type ℓ} (P Q : StateT → Kernel → Type 0) (r : Run A)
    → Leaves P r
    → ((s : StateT) (k : Kernel) → P s k → Q s k)
    → Leaves Q r
Leaves-map P Q (ok a k) h f = absurd h
Leaves-map P Q (loaded s k) h f = f s k h
Leaves-map P Q fault h f = absurd h
Leaves-map P Q out_of_fuel h f = absurd h

pub Leaves-early {ℓ κ} :
    {A : Type ℓ} {B : Type κ} (Q : StateT → Kernel → Type 0) (r : Run A) (f : A → Cmd B)
    → Leaves Q r
    → Leaves Q (and_then r f)
Leaves-early Q (ok a k) f h = absurd h
Leaves-early Q (loaded s k) f h = h
Leaves-early Q fault f h = absurd h
Leaves-early Q out_of_fuel f h = absurd h

pub Leaves-assoc {ℓ κ ι} :
    {A : Type ℓ} {B : Type κ} {C : Type ι} (Q : StateT → Kernel → Type 0) (r : Run A)
    (f : A → Cmd B) (g : B → Cmd C)
    → Leaves Q (and_then r (λ a k. and_then (f a k) g))
    → Leaves Q (and_then (and_then r f) g)
Leaves-assoc Q (ok a k) f g h = h
Leaves-assoc Q (loaded s k) f g h = h
Leaves-assoc Q fault f g h = h
Leaves-assoc Q out_of_fuel f g h = h

-- A pointer that is there can be followed.
pub Returns-deref {ℓ κ} :
    {A : Type ℓ} {B : Type κ} (Q : B → Kernel → Type 0) (o : Option A) (a : A) (k : Kernel)
    (f : A → Cmd B)
    → o ≡ some a
    → Returns Q (f a k)
    → Returns Q (and_then (deref o k) f)
Returns-deref Q o a k f e h = rw e h

pub Returns-fault {ℓ κ} :
    {A : Type ℓ} {B : Type κ} (P : A → Kernel → Type 0) (r : Run A) (f : A → Cmd B)
    → Returns P r
    → ((a : A) (k : Kernel) → P a k → f a k ≡ fault)
    → and_then r f ≡ fault
Returns-fault P (ok a k) f h g = g a k h
Returns-fault P (loaded s k) f h g = absurd h
Returns-fault P fault f h g = absurd h
Returns-fault P out_of_fuel f h g = absurd h

pub Leaves-deref {ℓ κ} :
    {A : Type ℓ} {B : Type κ} (Q : StateT → Kernel → Type 0) (o : Option A) (a : A) (k : Kernel)
    (f : A → Cmd B)
    → o ≡ some a
    → Leaves Q (f a k)
    → Leaves Q (and_then (deref o k) f)
Leaves-deref Q o a k f e h = rw e h
