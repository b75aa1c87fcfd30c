-- ===== src/Asl/Subtree.antt =====
-- `asl_find_and_remove_blocked_child` of src/asl.c, on a tree of processes all of which are blocked.
use mathlib.Core.List.{append_assoc}
use bi_kaya.Base.{
  ℕ, zero, suc, ◌%◌, ◌<◌, ◌≡◌, ◌≢◌, refl, ap, sym, subst, ◌∙◌, inl, inr, Bool, true, false, none,
  some, List, [], ◌∷◌, ◌++◌, arith, ◌==◌, Option-cases, has, has-append, erase, find, length,
  Distinct, Distinct-parts,
}
use bi_kaya.Types.{p_child, p_sib, pcb_free_head, semd_free, asl}
use bi_kaya.Machine.{
  Kernel, ok, Returns, Returns-bind, Returns-map, for_each_from, for_each_entry, fuel, SameButLinks,
}
use bi_kaya.Machine.Children.{
  for_each_from-child, for_each_from-end, Nexts, Nexts-children, Nexts-sibs,
}
use bi_kaya.Asl.{asl_find_and_remove_blocked, asl_find_and_remove_blocked_child, remove_subtree}
use bi_kaya.Asl.Semaphores.{waiting, waiting-none, short, asl_semd-find}
use bi_kaya.Scheduler.Tables.{Tables}
use bi_kaya.Scheduler.Withdraw.{asl_find_and_remove_blocked-Away}
use bi_kaya.Scheduler.Forest.{
  Forest, empty, grow, roots, postorder, HasDepth, Under, Under-frame, erase_all, erase_all-append,
}

-- `os` wait nowhere any more; the others keep their order.
pub record AllAway (live : ℕ → Bool) (k : Kernel) (qs : ℕ → List ℕ) (os : List ℕ) (k' : Kernel)
    (qs' : ℕ → List ℕ) : Type 0 where
  pub tables : Tables live k' qs'
  pub waits : (key : ℕ) → waiting k' qs' key ≡ erase_all os (waiting k qs key)
  pub elsewhere : (h : ℕ) → h % 8 ≢ 4 → h ≢ asl → h ≢ semd_free → qs' h ≡ qs h
  pub sibs : (i : ℕ) → k'.links.next (p_sib i) ≡ k.links.next (p_sib i)
  pub same : SameButLinks k k'

-- Each process of the list waits for its key.
abbrev pub AllBlocked : Kernel → (ℕ → List ℕ) → List ℕ → Type 0
AllBlocked k qs xs = (i : ℕ) → has i xs ≡ true → has i (waiting k qs (k.pcbs i).p_semkey) ≡ true

has-erase_other : (i o : ℕ) (xs : List ℕ) → (i == o) ≡ false → has i (erase o xs) ≡ has i xs
has-erase_other i o [] ne = refl
has-erase_other i o (x ∷ xs) ne = ground (arith, has-erase_other i o xs)

has-erase_all : (i : ℕ) (os xs : List ℕ) → has i os ≡ false → has i (erase_all os xs) ≡ has i xs
has-erase_all i [] xs out = refl
has-erase_all i (o ∷ os) xs out =
    has-erase_all i os (erase o xs) (ground arith) ∙ has-erase_other i o xs (ground arith)

module _ {live : ℕ → Bool} where
  AllAway-append :
      {k k1 k2 : Kernel} {qs qs1 qs2 : ℕ → List ℕ} (os us : List ℕ)
      → AllAway live k qs os k1 qs1
      → AllAway live k1 qs1 us k2 qs2
      → AllAway live k qs (os ++ us) k2 qs2
  AllAway-append {k} {k1} {k2} {qs} os us a b = record {
    tables = b.tables;
    waits = λ key.
        b.waits key
        ∙ ap (erase_all us) (a.waits key)
        ∙ sym (erase_all-append os us (waiting k qs key));
    elsewhere = λ h x y z. b.elsewhere h x y z ∙ a.elsewhere h x y z;
    sibs = λ i. b.sibs i ∙ a.sibs i;
    same = b.same ∙ ap (λ (m : Kernel). record m { links = k2.links }) a.same;
  }

  -- Whoever is not among them waits still.
  AllAway-AllBlocked :
      {k k1 : Kernel} {qs qs1 : ℕ → List ℕ} (os xs : List ℕ)
      → AllAway live k qs os k1 qs1
      → ((i : ℕ) → has i xs ≡ true → has i os ≡ false)
      → AllBlocked k qs xs
      → AllBlocked k1 qs1 xs
  AllAway-AllBlocked {k} {k1} {qs} {qs1} os xs a apart blocked i on =
      let key : (k1.pcbs i).p_semkey ≡ (k.pcbs i).p_semkey =
        ap (λ (m : Kernel). (m.pcbs i).p_semkey) a.same in
      ap (λ o. has i (waiting k1 qs1 o)) key
      ∙ ap (has i) (a.waits (k.pcbs i).p_semkey)
      ∙ has-erase_all i os (waiting k qs (k.pcbs i).p_semkey) (apart i on)
      ∙ blocked i on

  AllAway-Under :
      {k k1 : Kernel} {qs qs1 : ℕ → List ℕ} (os : List ℕ) (p : ℕ) (f : Forest)
      → AllAway live k qs os k1 qs1
      → Under live k qs p f
      → Under live k1 qs1 p f
  AllAway-Under {k} {k1} {qs} {qs1} os p f a u = Under-frame live k k1 qs qs1 p f u λ i on. (
    ap (λ (m : Kernel). (m.pcbs i).p_parent) a.same,
    a.elsewhere (p_child i) (omega arith) (omega arith) (omega arith),
    ap (has i) (a.elsewhere pcb_free_head (omega arith) (omega arith) (omega arith)),
  )

  -- The process itself, after those below it.
  itself :
      (k : Kernel) (qs : ℕ → List ℕ) (os : List ℕ) (c : ℕ) (k1 : Kernel) (qs1 : ℕ → List ℕ)
      → AllAway live k qs os k1 qs1
      → Returns
          (λ _ k'. (qs' : ℕ → List ℕ) × AllAway live k qs (os ++ c ∷ []) k' qs')
          (asl_find_and_remove_blocked c k1)
  itself k qs os c k1 qs1 a =
      Returns-map _ _ (asl_find_and_remove_blocked c k1)
        (asl_find_and_remove_blocked-Away k1 a.tables c)
        λ _ k2 (qs2, b). (
          qs2,
          AllAway-append os (c ∷ []) a (record {
            tables = b.tables;
            waits = b.waits;
            elsewhere = b.elsewhere;
            sibs = b.sibs;
            same = b.same;
          }),
        )

  -- A process that is blocked has a descriptor.
  has_descriptor :
      (k : Kernel) (qs : ℕ → List ℕ) (t : Tables live k qs) (c : ℕ)
      → has c (waiting k qs (k.pcbs c).p_semkey) ≡ true
      → (j : ℕ) × (find (λ i. k.s_keys i == (k.pcbs c).p_semkey) (qs asl) ≡ some j)
  has_descriptor k qs t c on =
      elim (Option-cases (find (λ i. k.s_keys i == (k.pcbs c).p_semkey) (qs asl))) [
        | inl missing ↦
            ground (arith, ap (has c) (waiting-none k qs (k.pcbs c).p_semkey missing), on)
        | inr found ↦ found
      ]

  -- A process without one ends the search.
  pub search-unblocked :
      (d : ℕ) (k : Kernel) (qs : ℕ → List ℕ) (c : ℕ)
      → Tables live k qs
      → find (λ i. k.s_keys i == (k.pcbs c).p_semkey) (qs asl) ≡ none
      → asl_find_and_remove_blocked_child (suc d) c k ≡ ok tt k
  unfolding asl_find_and_remove_blocked_child remove_subtree
  search-unblocked d k qs c t missing =
      rw (asl_semd-find t.queues.semaphores.descriptors (k.pcbs c).p_semkey, missing) refl

  -- One process and its tree, given what the loop does to the children.
  pub subtree :
      (d : ℕ) (k : Kernel) (qs : ℕ → List ℕ) (c : ℕ) (cs : Forest)
      → Tables live k qs
      → has c (waiting k qs (k.pcbs c).p_semkey) ≡ true
      → Returns
          (λ _ k'. (qs' : ℕ → List ℕ) × AllAway live k qs (postorder cs) k' qs')
          (for_each_from fuel
            (asl_find_and_remove_blocked_child d)
            (p_child c)
            (k.links.next (p_child c))
            k)
      → Returns
          (λ _ k'. (qs' : ℕ → List ℕ) × AllAway live k qs (postorder cs ++ c ∷ []) k' qs')
          (asl_find_and_remove_blocked_child (suc d) c k)
  unfolding asl_find_and_remove_blocked_child remove_subtree for_each_entry
  subtree d k qs c cs t blocked kids =
      let (j, found) = has_descriptor k qs t c blocked in
      rw (asl_semd-find t.queues.semaphores.descriptors (k.pcbs c).p_semkey, found)
        (Returns-bind _ _
          (for_each_from fuel (asl_find_and_remove_blocked_child d) (p_child c)
            (k.links.next (p_child c)) k)
          _ kids
          λ _ k1 (qs1, a).
            Returns-bind _ _ (asl_find_and_remove_blocked c k1) _
              (itself k qs (postorder cs) c k1 qs1 a) λ _ k2 b. b)

-- `m` rounds of the loop and `d` levels are enough for the children `f` of `p` that come after `a`.
pub children_away :
    (d m : ℕ) (f : Forest) {live : ℕ → Bool} (k : Kernel) (qs : ℕ → List ℕ) (p a : ℕ)
    → Tables live k qs
    → Nexts k.links a (roots f) (p_child p)
    → Under live k qs p f
    → HasDepth d f
    → Distinct (postorder f)
    → AllBlocked k qs (postorder f)
    → length (roots f) < m
    → Returns
        (λ _ k'. (qs' : ℕ → List ℕ) × AllAway live k qs (postorder f) k' qs')
        (for_each_from m (asl_find_and_remove_blocked_child d) (p_child p) (k.links.next a) k)
children_away d zero f k qs p a t next u deep dist blocked enough = absurd (omega arith)
children_away d (suc m) empty k qs p a t next u deep dist blocked enough =
    rw (next, for_each_from-end m (asl_find_and_remove_blocked_child d) (p_child p) k)
      (
        qs,
        record {
          tables = t;
          waits = λ key. refl;
          elsewhere = λ h x y z. refl;
          sibs = λ i. refl;
          same = refl;
        },
      )
children_away zero (suc m) (grow c cs fs) k qs p a t next u deep dist blocked enough = absurd deep
children_away (suc d) (suc m) (grow c cs fs) {live} k qs p a t next u deep dist blocked enough =
    let (_, at_c, kids, _, _, below, beside) = u in
    let ((front, back), apart) = Distinct-parts (postorder cs) (c ∷ postorder fs) dist in
    let member = λ (i : ℕ). has-append i (postorder cs) (c ∷ postorder fs) in
    rw (next.0, for_each_from-child m (asl_find_and_remove_blocked_child (suc d)) p c k)
      (Returns-bind _ _ (asl_find_and_remove_blocked_child (suc d) c k) _
        (subtree d k qs c cs t (blocked c (ground (arith, member c))) (
          children_away d fuel cs k qs c (p_child c) t
            (Nexts-children t.queues.semaphores.lists c (roots cs) at_c kids) below deep.0 front
            (λ i on. blocked i (ground (arith, member i)))
            (ground
              (arith, ap length kids, short t.queues.semaphores.descriptors (p_child c) at_c))))
        λ _ k1 (qs1, b).
          Returns-map _ _
            (for_each_from m (asl_find_and_remove_blocked_child (suc d)) (p_child p)
              (k1.links.next (p_sib c)) k1)
            (children_away (suc d) m fs k1 qs1 p (p_sib c) b.tables
              (Nexts-sibs k.links k1.links c (roots fs) (p_child p) b.sibs next.1)
              (AllAway-Under (postorder cs ++ c ∷ []) p fs b beside) deep.1 back.1
              (AllAway-AllBlocked (postorder cs ++ c ∷ []) (postorder fs) b
                (λ i on. ground (arith, has-append i (postorder cs) (c ∷ []), apart i, back.0))
                (λ i on. blocked i (ground (arith, member i))))
              (omega arith))
            λ _ k2 (qs2, e). (
              qs2,
              subst (λ os. AllAway live k qs os k2 qs2)
                  (append_assoc (postorder cs) (c ∷ []) (postorder fs))
                  (AllAway-append (postorder cs ++ c ∷ []) (postorder fs) b e),
            ))
