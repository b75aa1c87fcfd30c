-- ===== src/ListX.antt =====
-- include/listx.h: circular doubly linked lists threaded through the structures that they hold.
-- A `struct list_head` is known by its address; `Links` is the memory of all of them.
pub mod Chain
pub mod Rings
pub mod Insert
pub mod Remove
pub mod Walk
use bi_kaya.Base.{ℕ, zero, suc, Bool, Option, none, some, List, [], ◌∷◌, ◌==◌, if◌then◌else◌}
use mathlib.Core.Option

pub record Links : Type 0 where
  pub next : ℕ → ℕ
  pub prev : ℕ → ℕ

-- `f` after a write of `v` at `a`.
abbrev pub put {ℓ} : {A : Type ℓ} → (ℕ → A) → ℕ → A → ℕ → A
put f a v b = if b == a then v else f b

-- `a->next = b` and `a->prev = b`.
abbrev pub set_next : Links → ℕ → ℕ → Links
set_next l a b = record l { next = put l.next a b }

abbrev pub set_prev : Links → ℕ → ℕ → Links
set_prev l a b = record l { prev = put l.prev a b }

unfoldable pub init_list_head : Links → ℕ → Links
init_list_head l head = set_prev (set_next l head head) head head

-- `__list_add`: the four writes in the order of the source.
unfoldable pub list_add_between : Links → (new prev next : ℕ) → Links
list_add_between l new prev next =
    let l1 = set_prev l next new in
    let l2 = set_next l1 new next in let l3 = set_prev l2 new prev in set_next l3 prev new

unfoldable pub list_add : Links → (new head : ℕ) → Links
list_add l new head = list_add_between l new head (l.next head)

unfoldable pub list_add_tail : Links → (new head : ℕ) → Links
list_add_tail l new head = list_add_between l new (l.prev head) head

-- `__list_del`.
unfoldable pub list_del_between : Links → (prev next : ℕ) → Links
list_del_between l prev next = set_next (set_prev l next prev) prev next

-- The removed entry keeps its own two pointers.
unfoldable pub list_del : Links → ℕ → Links
list_del l entry = list_del_between l (l.prev entry) (l.next entry)

unfoldable pub list_is_last : Links → (list head : ℕ) → Bool
list_is_last l list head = l.next list == head

unfoldable pub list_empty : Links → ℕ → Bool
list_empty l head = l.next head == head

-- `NULL` is `none`.
unfoldable pub list_next : Links → ℕ → Option ℕ
unfolding list_empty
list_next l current = if list_empty l current then none else some (l.next current)

unfoldable pub list_prev : Links → ℕ → Option ℕ
unfolding list_empty
list_prev l current = if list_empty l current then none else some (l.prev current)

-- The nodes that `list_for_each` visits, from `pos` on and on fuel; `none` is running out of it.
unfoldable pub list_for_each : ℕ → Links → (head pos : ℕ) → Option (List ℕ)
list_for_each zero l head pos = none
list_for_each (suc fuel) l head pos =
    let rest = list_for_each fuel l head (l.next pos) in
    if pos == head then some [] else Option.map (λ (ns : List ℕ). pos ∷ ns) rest

unfoldable pub list_for_each_prev : ℕ → Links → (head pos : ℕ) → Option (List ℕ)
list_for_each_prev zero l head pos = none
list_for_each_prev (suc fuel) l head pos =
    let rest = list_for_each_prev fuel l head (l.prev pos) in
    if pos == head then some [] else Option.map (λ (ns : List ℕ). pos ∷ ns) rest

-- `list_for_each_entry (pos, head, …) if (test pos) return pos`, on fuel: `none` is running out of
-- it, `some none` the end of the loop.
unfoldable pub list_find : ℕ → Links → (ℕ → Bool) → (head pos : ℕ) → Option (Option ℕ)
list_find zero l test head pos = none
list_find (suc fuel) l test head pos =
    let rest = list_find fuel l test head (l.next pos) in
    if pos == head then some none else if test pos then some (some pos) else rest
