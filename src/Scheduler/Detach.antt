-- ===== src/Scheduler/Detach.antt =====
-- A process that is ended leaves its parent, in `kill_tree` of src/scheduler.c.
use bi_kaya.Base.{
  ℕ, ◌%◌, ◌≡◌, ◌≢◌, refl, ap, sym, Bool, true, Option, none, some, List, ◌∷◌, arith, ◌==◌,
  if◌then◌else◌, Bool-cases, inl, inr, has, erase, has-erase,
}
use bi_kaya.ListX.{put, list_del}
use bi_kaya.Types.{Pcb, p_child, p_sib, ready_queue}
use bi_kaya.Types.Lists.{distinct}
use bi_kaya.Types.Siblings.{list_del-next, first_child}
use bi_kaya.Machine.{Kernel, Returns}
use bi_kaya.Pcb.{pcb_find_and_remove_child}
use bi_kaya.Pcb.Tree.{with_parent, unlink_sib}
use bi_kaya.Scheduler.Tables.{Tables, Tables-put}

-- Each child is still followed by the same sibling.
abbrev pub Quiet : Kernel → Kernel → Type 0
Quiet k k' = (i : ℕ) → k'.links.next (p_sib i) ≡ k.links.next (p_sib i)

abbrev pub orphan : Pcb → Pcb
orphan b = record b { p_parent = none }

-- `c` is a child of its parent, if it has one.
abbrev pub IsChild : (live : ℕ → Bool) → Kernel → (ℕ → List ℕ) → ℕ → Type 0
IsChild live k qs c =
    (p : ℕ)
    → (k.pcbs c).p_parent ≡ some p
    → (live (p_child p) ≡ true) × (has c (qs (p_child p)) ≡ true)

-- `c` is nobody's child.
pub record Detached (live : ℕ → Bool) (k : Kernel) (qs : ℕ → List ℕ) (c : ℕ) (k' : Kernel)
    (qs' : ℕ → List ℕ) : Type 0 where
  pub tables : Tables live k' qs'
  pub elsewhere : (h : ℕ) → h % 8 ≢ 1 → qs' h ≡ qs h
  pub children : (i : ℕ) → (k.pcbs c).p_parent ≢ some i → qs' (p_child i) ≡ qs (p_child i)
  pub left : (i : ℕ) → (k.pcbs c).p_parent ≡ some i → qs' (p_child i) ≡ erase c (qs (p_child i))
  pub pcbs : (i : ℕ) → k'.pcbs i ≡ (if i == c then orphan (k.pcbs i) else k.pcbs i)
  pub same : k' ≡ record k { links = k'.links; pcbs = k'.pcbs }
  pub quiet :
      (p : ℕ) (rest : List ℕ)
      → (k.pcbs c).p_parent ≡ some p
      → live (p_child p) ≡ true
      → qs (p_child p) ≡ c ∷ rest
      → Quiet k k'

module _ {live : ℕ → Bool} (k : Kernel) {qs : ℕ → List ℕ} (t : Tables live k qs) (c : ℕ) where
  whole : (k.pcbs c).p_parent ≡ none → Detached live k qs c k qs
  whole e = record {
    tables = t;
    elsewhere = λ h kind. refl;
    children = λ i ne. refl;
    left = λ i f. cc;
    pcbs = λ i. elim (Bool-cases (i == c)) [
      | inl here ↦
          let here' : i ≡ c = ground arith in
          rw (here, here') (sym (ap (λ (o : Option ℕ). record (k.pcbs c) { p_parent = o }) (sym e)))
      | inr there ↦ rw there refl
    ];
    same = refl;
    quiet = λ p rest f. cc;
  }

  module _ (p : ℕ) (parent : (k.pcbs c).p_parent ≡ some p) (at : live (p_child p) ≡ true)
      (on : has c (qs (p_child p)) ≡ true) where
    abbrev alone : Kernel
    alone = record k { links = list_del k.links (p_sib c); pcbs = with_parent k c none }

    abbrev without : ℕ → List ℕ
    without = put qs (p_child p) (erase c (qs (p_child p)))

    other : without ready_queue ≡ qs ready_queue
    other = ground arith

    alone-Detached : Detached live k qs c alone without
    alone-Detached = record {
      tables =
          Tables-put t alone (p_child p) (erase c (qs (p_child p))) (omega arith) (omega arith)
            (omega arith) (unlink_sib k t.queues.semaphores.lists p c at on)
            (λ i has_i. t.queues.semaphores.inside (p_child p) i at (
              ground (
                arith,
                has-erase i c (qs (p_child p)) (distinct t.queues.semaphores.lists (p_child p) at),
              )))
            refl (λ i. (ground arith, ground arith)) (rw other t.queues.ordered);
      elsewhere = λ h kind. ground arith;
      children = λ i ne. ground (arith, parent);
      left = λ i e. ground (arith, parent);
      pcbs = λ i. elim (Bool-cases (i == c)) [
        | inl here ↦ let here' : i ≡ c = ground arith in rw (here, here') refl
        | inr there ↦ rw there refl
      ];
      same = refl;
      quiet = λ q rest e live_q head i. list_del-next k.links (p_sib c) (p_sib i) λ clash.
          ground (arith, clash, (first_child t.queues.semaphores.lists q c rest live_q head).1);
    }

  pub pcb_find_and_remove_child-Detached :
      IsChild live k qs c
      → Returns
          (λ _ k'. (qs' : ℕ → List ℕ) × Detached live k qs c k' qs')
          (pcb_find_and_remove_child c k)
  unfolding pcb_find_and_remove_child
  pcb_find_and_remove_child-Detached child = go (k.pcbs c).p_parent refl
    where
      go :
          (o : Option ℕ)
          → (k.pcbs c).p_parent ≡ o
          → Returns
              (λ _ k'. (qs' : ℕ → List ℕ) × Detached live k qs c k' qs')
              (pcb_find_and_remove_child c k)
      go none e = rw e (qs, whole e)
      go (some p) e = let (at, on) = child p e in rw e (without p e at on, alone-Detached p e at on)
