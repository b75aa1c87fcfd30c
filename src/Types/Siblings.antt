-- ===== src/Types/Siblings.antt =====
-- The pointers of the lists of children, which operations on other lists leave alone.
use bi_kaya.Base.{ℕ, ◌%◌, ◌≡◌, ◌≢◌, ap, sym, ◌∙◌, Bool, true, List, [], ◌∷◌, map, arith, has}
use bi_kaya.ListX.{Links, list_add, list_add_between, list_del, list_del_between}
use bi_kaya.ListX.Chain.{Chain, has-prev, first, next-first}
use bi_kaya.Types.{member, slot, p_sib, p_child}
use bi_kaya.Types.Lists.{Lists, entries}
use bi_kaya.Types.Slots.{has-map-slot}

-- `list_del` writes the `next` of what stands before.
pub list_del-next :
    (l : Links) (entry n : ℕ) → n ≢ l.prev entry → (list_del l entry).next n ≡ l.next n
unfolding list_del list_del_between
list_del-next l entry n ne = ground arith

slot-of : (h i : ℕ) (xs : List ℕ) → has i (map (slot h) xs) ≡ true → i % 8 ≡ member h
slot-of h i [] on = cc
slot-of h i (x ∷ xs) on = ground (arith, slot-of h i xs)

pub list_del-sibs :
    {live : ℕ → Bool} {l : Links} {qs : ℕ → List ℕ} (r : Lists live l qs) (h i x : ℕ)
    → live h ≡ true
    → has i (qs h) ≡ true
    → member h ≢ 2
    → (list_del l (slot h i)).next (p_sib x) ≡ l.next (p_sib x)
list_del-sibs {l} {qs} r h i x at on other = list_del-next l (slot h i) (p_sib x) λ e. ground (
  arith,
  e,
  has-prev l h h (slot h i) (entries qs h) (r.rings.ring h at)
      (ground (arith, has-map-slot h h i (qs h))),
  slot-of h (l.prev (slot h i)) (qs h),
  r.heads h at,
  other,
)

pub list_add-sibs :
    (l : Links) (new head x : ℕ)
    → new % 8 ≢ 2
    → head % 8 ≢ 2
    → (list_add l new head).next (p_sib x) ≡ l.next (p_sib x)
unfolding list_add list_add_between
list_add-sibs l new head x a b = ground arith

-- The first child: what leads to it, and what comes after it.
pub first_child :
    {live : ℕ → Bool} {l : Links} {qs : ℕ → List ℕ} (r : Lists live l qs) (p c : ℕ) (rest : List ℕ)
    → live (p_child p) ≡ true
    → qs (p_child p) ≡ c ∷ rest
    → (l.next (p_child p) ≡ p_sib c)
      × (l.prev (p_sib c) ≡ p_child p)
      × (l.next (p_sib c) ≡ first (map (slot (p_child p)) rest) (p_child p))
first_child {l} {qs} r p c rest at e =
    let place : slot (p_child p) c ≡ p_sib c = ground arith in
    let ring : Chain l (p_child p) (map (slot (p_child p)) (c ∷ rest)) (p_child p) =
      rw e at (r.rings.ring (p_child p) at) in
    (
      ring.0 ∙ place,
      ap l.prev (sym place) ∙ ring.1,
      ap l.next (sym place)
          ∙ next-first l (slot (p_child p) c) (p_child p) (map (slot (p_child p)) rest) ring.2,
    )

pub next_child :
    {live : ℕ → Bool} {l : Links} {qs : ℕ → List ℕ} (r : Lists live l qs) (p : ℕ) (rest : List ℕ)
    → live (p_child p) ≡ true
    → qs (p_child p) ≡ rest
    → l.next (p_child p) ≡ first (map (slot (p_child p)) rest) (p_child p)
next_child {l} {qs} r p rest at e =
    next-first l (p_child p) (p_child p) (map (slot (p_child p)) rest)
      (rw e at (r.rings.ring (p_child p) at))
