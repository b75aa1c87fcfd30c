-- ===== src/Pcb/Tree.antt =====
-- The process tree of src/pcb.c: the children of a process, and the way back to the parent.
use bi_kaya.Base.{
  ℕ, ◌≡◌, refl, ap, ◌∙◌, Bool, true, Option, none, some, List, [], ◌∷◌, ◌++◌, arith, is_nil, has,
  erase, ==_refl,
}
use bi_kaya.ListX.{put, list_add_tail, list_del}
use bi_kaya.Types.{Pcb, member, slot, p_child, p_sib, container_of}
use bi_kaya.Types.Lists.{
  Lists, IsOff, list_empty-Lists, list_next-Lists, list_add_tail-Lists, list_del-Lists,
}
use bi_kaya.Machine.{Kernel, ok, Returns}
use bi_kaya.Pcb.{pcb_has_no_children, pcb_insert_child, pcb_remove_child, pcb_find_and_remove_child}

abbrev pub with_parent : Kernel → ℕ → Option ℕ → ℕ → Pcb
with_parent k c p = put k.pcbs c (record (k.pcbs c) { p_parent = p })

-- Only pointers and the parent of `c` differ.
abbrev pub Reparented : Kernel → ℕ → Option ℕ → Kernel → Type 0
Reparented k c p k' = k' ≡ record k { links = k'.links; pcbs = with_parent k c p }

sib_place : (p c : ℕ) → slot (p_child p) c ≡ p_sib c
sib_place p c = ground arith

via_sib : (p : ℕ) → member (p_child p) ≡ 2
via_sib p = ground arith

sib_back : (c : ℕ) → container_of (p_sib c) ≡ c
sib_back c = omega arith

module _ {live : ℕ → Bool} (k : Kernel) {qs : ℕ → List ℕ} (r : Lists live k.links qs) where
  pub pcb_has_no_children-is_nil :
      (p : ℕ) → live (p_child p) ≡ true → pcb_has_no_children p k ≡ ok (is_nil (qs (p_child p))) k
  unfolding pcb_has_no_children
  pcb_has_no_children-is_nil p at = rw (list_empty-Lists r (p_child p) at)

  -- `pcb_insert_child` makes a process that is nobody's child the last child of `p`; the other lists
  -- stay as they are.
  pub pcb_insert_child_lem :
      (p c : ℕ)
      → live (p_child p) ≡ true
      → IsOff live qs 2 c
      → Returns
          (λ _ k'.
            Lists live k'.links (put qs (p_child p) (qs (p_child p) ++ c ∷ []))
            × Reparented k c (some p) k')
          (pcb_insert_child p c k)
  unfolding pcb_insert_child
  pcb_insert_child_lem p c at off = (added, refl)
    where
      added :
          Lists live
            (list_add_tail k.links (p_sib c) (p_child p))
            (put qs (p_child p) (qs (p_child p) ++ c ∷ []))
      added =
          rw (sib_place p c) at
            (list_add_tail-Lists r (p_child p) c at (λ h e same. off h e (same ∙ via_sib p)))

  pub unlink_sib :
      (p c : ℕ)
      → live (p_child p) ≡ true
      → has c (qs (p_child p)) ≡ true
      → Lists live (list_del k.links (p_sib c)) (put qs (p_child p) (erase c (qs (p_child p))))
  unlink_sib p c at on = rw (sib_place p c) at (list_del-Lists r (p_child p) c at on)

  -- Where a process has children, `pcb_remove_child` takes the first from it, clears its parent and
  -- returns it; the other lists stay as they are.
  pub pcb_remove_child-some :
      (p c : ℕ) (cs : List ℕ)
      → live (p_child p) ≡ true
      → qs (p_child p) ≡ c ∷ cs
      → Returns
          (λ o k'.
            (o ≡ some c) × Lists live k'.links (put qs (p_child p) cs) × Reparented k c none k')
          (pcb_remove_child p k)
  unfolding pcb_remove_child
  pcb_remove_child-some p c cs at whole =
      rw (list_next-Lists r (p_child p) at, whole, sib_place p c, sib_back c) (refl, removed, refl)
    where
      removed : Lists live (list_del k.links (p_sib c)) (put qs (p_child p) cs)
      removed = rw (ap (erase c) whole, ==_refl c) at (unlink_sib p c at (rw whole (ground arith)))

  pub pcb_remove_child-none :
      (p : ℕ) → live (p_child p) ≡ true → qs (p_child p) ≡ [] → pcb_remove_child p k ≡ ok none k
  unfolding pcb_remove_child
  pcb_remove_child-none p at empty = rw (list_next-Lists r (p_child p) at, empty)

  -- `pcb_find_and_remove_child` takes a process that is a child of its parent out of the children of
  -- the parent, wherever it stands there, clears its parent and returns it; the other lists stay as
  -- they are.
  pub pcb_find_and_remove_child-some :
      (p c : ℕ)
      → (k.pcbs c).p_parent ≡ some p
      → live (p_child p) ≡ true
      → has c (qs (p_child p)) ≡ true
      → Returns
          (λ o k'.
            (o ≡ some c)
            × Lists live k'.links (put qs (p_child p) (erase c (qs (p_child p))))
            × Reparented k c none k')
          (pcb_find_and_remove_child c k)
  unfolding pcb_find_and_remove_child
  pcb_find_and_remove_child-some p c child at on = rw child (refl, unlink_sib p c at on, refl)

pub pcb_find_and_remove_child-none :
    (k : Kernel) (c : ℕ) → (k.pcbs c).p_parent ≡ none → pcb_find_and_remove_child c k ≡ ok none k
unfolding pcb_find_and_remove_child
pcb_find_and_remove_child-none k c orphan = rw orphan
