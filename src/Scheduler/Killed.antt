-- ===== src/Scheduler/Killed.antt =====
-- What `kill_tree` of src/scheduler.c makes of the queues, and one round of it.
use mathlib.Core.List.{reverse_aux}
use bi_kaya.Base.{
  ℕ, ◌<◌, ◌≡◌, ◌≢◌, refl, ap, sym, ◌∙◌, Bool, true, false, ◌||◌, Option, some, List, [], ◌∷◌, ◌++◌,
  arith, ◌==◌, if◌then◌else◌, Bool-cases, inl, inr, has, has-append, erase, reverse_aux-append,
  has-reverse_aux,
}
use bi_kaya.Types.{Pcb, max_proc, p_child, pcb_free_head, ready_queue, asl, s_proc_q}
use bi_kaya.Machine.{Kernel, Cmd, Returns, Returns-bind, Returns-map, for_each_entry, ◌>>◌}
use bi_kaya.Pcb.{pcb_find_and_remove_child}
use bi_kaya.Asl.Semaphores.{waiting}
use bi_kaya.Scheduler.Tables.{Tables, waiting_same}
use bi_kaya.Scheduler.Release.{Released, release, release-Released}
use bi_kaya.Scheduler.Detach.{Quiet, orphan, IsChild, Detached, pcb_find_and_remove_child-Detached}
use bi_kaya.Scheduler.Forest.{erase_all, erase_all-append}

-- `os` have ended, in this order; `p` has the children `rest`.
pub record Killed (live : ℕ → Bool) (k : Kernel) (qs : ℕ → List ℕ) (p : Option ℕ) (rest os : List ℕ)
    (k' : Kernel) (qs' : ℕ → List ℕ) : Type 0 where
  pub tables : Tables live k' qs'
  pub left : (i : ℕ) → p ≡ some i → qs' (p_child i) ≡ rest
  pub children : (i : ℕ) → p ≢ some i → qs' (p_child i) ≡ (if has i os then [] else qs (p_child i))
  pub free : qs' pcb_free_head ≡ reverse_aux os (qs pcb_free_head)
  pub ready : qs' ready_queue ≡ erase_all os (qs ready_queue)
  pub waits : (key : ℕ) → waiting k' qs' key ≡ erase_all os (waiting k qs key)
  pub pcbs : (i : ℕ) → k'.pcbs i ≡ (if has i os then orphan (k.pcbs i) else k.pcbs i)
  pub same : k' ≡ record k { links = k'.links; pcbs = k'.pcbs }

orphan_twice :
    (u o : Bool) (b : Pcb)
    → (let b' = if o then orphan b else b in if u then orphan b' else b')
      ≡ (if o || u then orphan b else b)
orphan_twice true true b = refl
orphan_twice true false b = refl
orphan_twice false true b = refl
orphan_twice false false b = refl

pub Killed-append :
    {live : ℕ → Bool} {k k1 k2 : Kernel} {qs qs1 qs2 : ℕ → List ℕ} {p : Option ℕ}
    {mid rest os us : List ℕ}
    → Killed live k qs p mid os k1 qs1
    → Killed live k1 qs1 p rest us k2 qs2
    → Killed live k qs p rest (os ++ us) k2 qs2
Killed-append {k} {k1} {k2} {qs} {qs1} {qs2} {p} {rest} {os} {us} a b = record {
  tables = b.tables;
  left = b.left;
  children = λ i ne. ground (arith, has-append i os us, a.children i ne, b.children i ne);
  free = b.free ∙ ap (reverse_aux us) a.free ∙ sym (reverse_aux-append os us (qs pcb_free_head));
  ready = b.ready ∙ ap (erase_all us) a.ready ∙ sym (erase_all-append os us (qs ready_queue));
  waits = λ key.
      b.waits key
      ∙ ap (erase_all us) (a.waits key)
      ∙ sym (erase_all-append os us (waiting k qs key));
  pcbs = λ i.
      b.pcbs i
      ∙ ap (λ x. if has i us then orphan x else x) (a.pcbs i)
      ∙ orphan_twice (has i us) (has i os) (k.pcbs i)
      ∙ ap (λ x. if x then orphan (k.pcbs i) else k.pcbs i) (sym (has-append i os us));
  same = b.same ∙ ap (λ (n : Kernel). record n { links = k2.links; pcbs = k2.pcbs }) a.same;
}

-- `kill_tree` by its calls.
abbrev pub end_with : (ℕ → Cmd (Unit {0})) → ℕ → Cmd (Unit {0})
end_with body c = do for_each_entry body (p_child c); pcb_find_and_remove_child c; release c

module _ {live : ℕ → Bool} (k : Kernel) (qs : ℕ → List ℕ) (c : ℕ) (os rest : List ℕ)
    (inside : c < max_proc) (taken : has c (qs pcb_free_head) ≡ false) (out : has c os ≡ false)
    (child : IsChild live k qs c)
    (above : (p : ℕ) → (k.pcbs c).p_parent ≡ some p → has p (c ∷ os) ≡ false)
    (siblings : (p : ℕ) → (k.pcbs c).p_parent ≡ some p → erase c (qs (p_child p)) ≡ rest) where
  module _ (k1 : Kernel) (qs1 : ℕ → List ℕ) (a : Killed live k qs (some c) [] os k1 qs1) where
    parent : (k1.pcbs c).p_parent ≡ (k.pcbs c).p_parent
    parent =
        let kept : k1.pcbs c ≡ k.pcbs c = a.pcbs c ∙ rw out refl in
        ap (λ (b : Pcb). b.p_parent) kept

    sibs : (p : ℕ) → (k.pcbs c).p_parent ≡ some p → qs1 (p_child p) ≡ qs (p_child p)
    sibs p e = ground (arith, a.children p, above p e)

    child1 : IsChild live k1 qs1 c
    child1 p e =
        let (at, on) = child p (sym parent ∙ e) in (at, ap (has c) (sibs p (sym parent ∙ e)) ∙ on)

    ended :
        (k2 k3 : Kernel) (qs2 qs3 : ℕ → List ℕ)
        → Detached live k1 qs1 c k2 qs2
        → Released live k2 qs2 c k3 qs3
        → Killed live k qs (k.pcbs c).p_parent rest (os ++ c ∷ []) k3 qs3
    ended k2 k3 qs2 qs3 b r = record {
      tables = r.tables;
      left = λ i e.
          r.children (p_child i) (omega arith)
          ∙ b.left i (parent ∙ e)
          ∙ ap (erase c) (sibs i e)
          ∙ siblings i e;
      children = λ i ne. elim (Bool-cases (i == c)) [
        | inl here ↦
            let here' : i ≡ c = ground arith in
            ground (
              arith,
              r.children (p_child i) (omega arith),
              b.children i (λ e. ne (sym parent ∙ e)),
              a.left i (ap some (sym here')),
              has-append i os (c ∷ []),
            )
        | inr there ↦ ground (
          arith,
          r.children (p_child i) (omega arith),
          b.children i (λ e. ne (sym parent ∙ e)),
          a.children i,
          has-append i os (c ∷ []),
        )
      ];
      free =
          r.free
          ∙ ap (◌∷◌ c) (b.elsewhere pcb_free_head (omega arith) ∙ a.free)
          ∙ sym (reverse_aux-append os (c ∷ []) (qs pcb_free_head));
      ready =
          r.ready
          ∙ ap (erase c) (b.elsewhere ready_queue (omega arith) ∙ a.ready)
          ∙ sym (erase_all-append os (c ∷ []) (qs ready_queue));
      waits = λ key.
          r.waits key
          ∙ ap (erase c) (
              waiting_same k1 k2 qs1 qs2 key (ap (λ (n : Kernel). n.s_keys) b.same)
                (b.elsewhere asl (omega arith)) (λ j. b.elsewhere (s_proc_q j) (omega arith))
              ∙ a.waits key)
          ∙ sym (erase_all-append os (c ∷ []) (waiting k qs key));
      pcbs = λ i.
          ap (λ (n : Kernel). n.pcbs i) r.same
          ∙ b.pcbs i
          ∙ ap (λ x. if i == c then orphan x else x) (a.pcbs i)
          ∙ orphan_twice (i == c) (has i os) (k.pcbs i)
          ∙ ap (λ x. if x then orphan (k.pcbs i) else k.pcbs i)
              (ground (arith, has-append i os (c ∷ [])));
      same =
          r.same
          ∙ ap (λ (n : Kernel). record n { links = k3.links }) b.same
          ∙ ap (λ (n : Kernel). record n { links = k3.links; pcbs = k2.pcbs }) a.same
          ∙ ap (λ (f : ℕ → Pcb). record k { links = k3.links; pcbs = f })
              (sym (ap (λ (n : Kernel). n.pcbs) r.same));
    }

    taken1 :
        (k2 : Kernel) (qs2 : ℕ → List ℕ)
        → Detached live k1 qs1 c k2 qs2
        → has c (qs2 pcb_free_head) ≡ false
    taken1 k2 qs2 b =
        ap (has c) (b.elsewhere pcb_free_head (omega arith) ∙ a.free)
        ∙ has-reverse_aux c os (qs pcb_free_head)
        ∙ rw (out, taken) refl

  -- One process, once its children have ended.
  pub end_with-Killed :
      (body : ℕ → Cmd (Unit {0}))
      → Tables live k qs
      → Returns
          (λ _ k1. (qs1 : ℕ → List ℕ) × Killed live k qs (some c) [] os k1 qs1 × Quiet k k1)
          (for_each_entry body (p_child c) k)
      → Returns
          (λ _ k'.
            (qs' : ℕ → List ℕ) × Killed live k qs (k.pcbs c).p_parent rest (os ++ c ∷ []) k' qs'
            × ((p : ℕ) (next : List ℕ)
                → (k.pcbs c).p_parent ≡ some p
                → live (p_child p) ≡ true
                → qs (p_child p) ≡ c ∷ next
                → Quiet k k'))
          (end_with body c k)
  end_with-Killed body t kids =
      Returns-bind _ _ (for_each_entry body (p_child c) k) _ kids λ _ k1 (qs1, a, q).
        Returns-bind _ _ (pcb_find_and_remove_child c k1) _
          (pcb_find_and_remove_child-Detached k1 a.tables c (child1 k1 qs1 a))
          λ _ k2 (qs2, b).
            Returns-map _ _ (release c k2)
              (release-Released k2 c b.tables inside (taken1 k1 qs1 a k2 qs2 b))
              λ _ k3 (qs3, r). (
                qs3,
                ended k1 qs1 a k2 k3 qs2 qs3 b r,
                λ p next e at first i.
                    r.sibs i
                    ∙ b.quiet p next (parent k1 qs1 a ∙ e) at (sibs k1 qs1 a p e ∙ first) i
                    ∙ q i,
              )
