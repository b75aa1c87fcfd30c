-- ===== src/Kernel/Family.antt =====
-- The process tree as src/pcb.c keeps it: `p_parent` of each process and the lists of children.
use bi_kaya.Base.{
  ℕ, suc, ◌%◌, ◌<◌, ◌≡◌, ◌≢◌, ap, sym, ◌∙◌, Bool, true, false, some, List, arith, has,
}
use bi_kaya.Types.{max_proc, asl, pcb_free_head, ready_queue, p_child, semd_free}
use bi_kaya.Types.Lists.{IsOff}
use bi_kaya.Machine.{Kernel}

-- A process that is not free has a list of children, which are the processes of which it is the parent, and
-- a process that is free is nobody's child. Nobody is above himself: children stand one level deeper.
pub record Family (live : ℕ → Bool) (k : Kernel) (qs : ℕ → List ℕ) : Type 0 where
  pub homes : (i : ℕ) → i < max_proc → has i (qs pcb_free_head) ≡ false → live (p_child i) ≡ true
  pub orphans : (i : ℕ) → has i (qs pcb_free_head) ≡ true → IsOff live qs 2 i
  pub parents :
      (c x : ℕ)
      → live (p_child x) ≡ true
      → has c (qs (p_child x)) ≡ true
      → (k.pcbs c).p_parent ≡ some x
  pub children :
      (c x : ℕ)
      → c < max_proc
      → has c (qs pcb_free_head) ≡ false
      → (k.pcbs c).p_parent ≡ some x
      → (x < max_proc) × (has x (qs pcb_free_head) ≡ false) × (has c (qs (p_child x)) ≡ true)
  pub levels : ℕ
  pub level : ℕ → ℕ
  pub bounded : (i : ℕ) → i < max_proc → has i (qs pcb_free_head) ≡ false → level i < levels
  pub deeper :
      (c x : ℕ)
      → c < max_proc
      → has c (qs pcb_free_head) ≡ false
      → (k.pcbs c).p_parent ≡ some x
      → level c ≡ suc (level x)

module _ {live : ℕ → Bool} {k : Kernel} {qs qs' : ℕ → List ℕ} (k' : Kernel) where
  -- It does not depend on the other lists.
  pub Family-same :
      ((h : ℕ) → h % 8 ≢ 4 → h ≢ asl → h ≢ semd_free → h ≢ ready_queue → qs' h ≡ qs h)
      → ((i : ℕ) → (k'.pcbs i).p_parent ≡ (k.pcbs i).p_parent)
      → Family live k qs
      → Family live k' qs'
  Family-same same parent f = record {
    homes = λ i lt taken. f.homes i lt (was_taken i taken);
    orphans = λ i on h at via.
        ap (has i) (same h (ground arith) (ground arith) (ground arith) (ground arith))
        ∙ f.orphans i (ap (has i) (sym free) ∙ on) h at via;
    parents = λ c x at on. parent c ∙ f.parents c x at (ap (has c) (sym (kids x)) ∙ on);
    children = λ c x lt taken e.
        let (small, busy, child) = f.children c x lt (was_taken c taken) (sym (parent c) ∙ e) in
        (small, ap (has x) free ∙ busy, ap (has c) (kids x) ∙ child);
    levels = f.levels;
    level = f.level;
    bounded = λ i lt taken. f.bounded i lt (was_taken i taken);
    deeper = λ c x lt taken e. f.deeper c x lt (was_taken c taken) (sym (parent c) ∙ e);
  }
    where
      free : qs' pcb_free_head ≡ qs pcb_free_head
      free = same pcb_free_head (omega arith) (omega arith) (omega arith) (omega arith)

      kids : (x : ℕ) → qs' (p_child x) ≡ qs (p_child x)
      kids x = same (p_child x) (omega arith) (omega arith) (omega arith) (omega arith)

      was_taken : (i : ℕ) → has i (qs' pcb_free_head) ≡ false → has i (qs pcb_free_head) ≡ false
      was_taken i taken = ap (has i) (sym free) ∙ taken
