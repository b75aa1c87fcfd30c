-- ===== src/Scheduler/Kill.antt =====
-- `kill_tree` and `scheduler_kill_process` of src/scheduler.c, on a whole tree of processes.
use bi_kaya.Base.{
  ℕ, zero, suc, ◌<◌, ◌≡◌, refl, ap, sym, subst, ◌∙◌, Bool, true, some, List, [], ◌∷◌, ◌++◌, arith,
  has, Distinct, length, has-reverse_aux,
}
use mathlib.Core.List.{append_assoc}
use bi_kaya.Types.{Pcb, p_child, p_sib, pcb_free_head}
use bi_kaya.Types.Siblings.{first_child, next_child}
use bi_kaya.Machine.{
  Kernel, Returns, Returns-bind, Returns-map, for_each_from, for_each_entry, fuel,
}
use bi_kaya.Machine.Children.{for_each_from-child, for_each_from-end}
use bi_kaya.Asl.Semaphores.{short}
use bi_kaya.Scheduler.{kill_tree}
use bi_kaya.Scheduler.Tables.{Tables}
use bi_kaya.Scheduler.Detach.{Quiet}
use bi_kaya.Scheduler.Forest.{
  Forest, empty, grow, roots, postorder, HasDepth, Under, Under-frame, Distinct-grow,
}
use bi_kaya.Scheduler.Killed.{Killed, Killed-append, end_with, end_with-Killed}

pub kill_tree-end_with : (d c : ℕ) (k : Kernel) → kill_tree (suc d) c k ≡ end_with (kill_tree d) c k
unfolding kill_tree
kill_tree-end_with d c k = refl

none_ended :
    {live : ℕ → Bool} {k : Kernel} {qs : ℕ → List ℕ} (p : ℕ) (rest : List ℕ)
    → Tables live k qs
    → qs (p_child p) ≡ rest
    → Killed live k qs (some p) rest [] k qs
none_ended p rest t e = record {
  tables = t;
  left = λ i same. ground arith;
  children = λ i ne. refl;
  free = refl;
  ready = refl;
  waits = λ key. refl;
  pcbs = λ i. refl;
  same = refl;
}

-- What a call on the children of `p` leaves.
abbrev pub Ended :
    (live : ℕ → Bool) → Kernel → (ℕ → List ℕ) → ℕ → Forest → Unit {0} → Kernel → Type 0
Ended live k qs p f _ k' =
    (qs' : ℕ → List ℕ) × Killed live k qs (some p) [] (postorder f) k' qs' × Quiet k k'

module _ {live : ℕ → Bool} (k : Kernel) (qs : ℕ → List ℕ) (p c : ℕ) (cs fs : Forest)
    (t : Tables live k qs) (at : live (p_child p) ≡ true) (e : qs (p_child p) ≡ c ∷ roots fs)
    (u : Under live k qs p (grow c cs fs)) (dist : Distinct (p ∷ postorder (grow c cs fs))) where
  -- What the round for `c` leaves.
  abbrev Round : Unit {0} → Kernel → Type 0
  Round _ k' =
      (qs' : ℕ → List ℕ) × Killed live k qs (some p) (roots fs) (postorder cs ++ c ∷ []) k' qs'
      × Quiet k k'

  round :
      (d : ℕ)
      → Returns
          (Ended live k qs c cs)
          (for_each_from fuel (kill_tree d) (p_child c) (k.links.next (p_child c)) k)
      → Returns Round (kill_tree (suc d) c k)
  unfolding for_each_entry
  round d kids =
      let (parent, _, _, inside, taken, _, _) = u in
      let (above, own, _, _) = Distinct-grow p c cs fs dist in
      rw (kill_tree-end_with d c k) (
        Returns-map _ _ (end_with (kill_tree d) c k)
          (end_with-Killed k qs c (postorder cs) (roots fs) inside taken own.0
            (λ i f. ground (arith, parent, e)) (λ i f. ground (arith, parent, above))
            (λ i f. ground (arith, parent, e)) (kill_tree d) t kids)
          λ _ k1 (qs1, a, q). (
            qs1,
            subst (λ o. Killed live k qs o (roots fs) (postorder cs ++ c ∷ []) k1 qs1) parent a,
            q p (roots fs) parent at e,
          ))

  module _ (k1 : Kernel) (qs1 : ℕ → List ℕ)
      (a : Killed live k qs (some p) (roots fs) (postorder cs ++ c ∷ []) k1 qs1)
      (q : Quiet k k1) where
    later : k1.links.next (p_sib c) ≡ k1.links.next (p_child p)
    later =
        q c
        ∙ (first_child t.queues.semaphores.lists p c (roots fs) at e).2
        ∙ sym (next_child a.tables.queues.semaphores.lists p (roots fs) at (a.left p refl))

    beside1 : Under live k1 qs1 p fs
    beside1 =
        let (_, _, _, _, _, _, beside) = u in
        let (_, _, out, apart) = Distinct-grow p c cs fs dist in
        Under-frame live k k1 qs qs1 p fs beside λ i on. (
          ground (arith, apart i, ap (λ (b : Pcb). b.p_parent) (a.pcbs i)),
          ground (arith, apart i, out, a.children i),
          ap (has i) a.free
              ∙ has-reverse_aux i (postorder cs ++ c ∷ []) (qs pcb_free_head)
              ∙ rw (apart i on) refl,
        )

pub kill_children :
    (d m : ℕ) (f : Forest) {live : ℕ → Bool} (k : Kernel) (qs : ℕ → List ℕ) (p : ℕ)
    → Tables live k qs
    → live (p_child p) ≡ true
    → qs (p_child p) ≡ roots f
    → Under live k qs p f
    → HasDepth d f
    → Distinct (p ∷ postorder f)
    → length (roots f) < m
    → Returns
        (Ended live k qs p f)
        (for_each_from m (kill_tree d) (p_child p) (k.links.next (p_child p)) k)
kill_children d zero f k qs p t at e u deep dist enough = absurd (omega arith)
kill_children d (suc m) empty k qs p t at e u deep dist enough =
    rw
      (
        next_child t.queues.semaphores.lists p [] at e,
        for_each_from-end m (kill_tree d) (p_child p) k,
      )
      (qs, none_ended p [] t e, λ i. refl)
kill_children zero (suc m) (grow c cs fs) k qs p t at e u deep dist enough = absurd deep
kill_children (suc d) (suc m) (grow c cs fs) {live} k qs p t at e u deep dist enough =
    let (_, at_c, kids, _, _, below, _) = u in
    let (_, own, rest, _) = Distinct-grow p c cs fs dist in
    rw
      (
        (first_child t.queues.semaphores.lists p c (roots fs) at e).0,
        for_each_from-child m (kill_tree (suc d)) p c k,
      )
      (Returns-bind _ _ (kill_tree (suc d) c k) _
        (round k qs p c cs fs t at e u dist d (
          kill_children d fuel cs k qs c t at_c kids below deep.0 own (
            ground
              (arith, ap length kids, short t.queues.semaphores.descriptors (p_child c) at_c))))
        λ _ k1 (qs1, a, q). rw (later k qs p c cs fs t at e u dist k1 qs1 a q) (
          Returns-map (Ended live k1 qs1 p fs) _ _
            (kill_children (suc d) m fs k1 qs1 p a.tables at (a.left p refl)
              (beside1 k qs p c cs fs t at e u dist k1 qs1 a q) deep.1 rest (omega arith))
            λ _ k2 (qs2, b, r). (
              qs2,
              subst (λ os. Killed live k qs (some p) [] os k2 qs2)
                  (append_assoc (postorder cs) (c ∷ []) (postorder fs)) (Killed-append a b),
              λ i. r i ∙ q i,
            )))
