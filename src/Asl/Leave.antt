-- ===== src/Asl/Leave.antt =====
-- A process leaves the queue of a descriptor of src/asl.c, which is closed if it was the last one.
use bi_kaya.Base.{
  ℕ, ◌%◌, ◌≡◌, ◌∙◌, ◌≢◌, refl, ap, inl, inr, Option-cases, Bool, true, false, Option, none, some,
  List, [], ◌∷◌, arith, ◌==◌, is_nil, nil_of_is_nil, find, has, find-some, erase, Bool-cases,
  ==_refl, has-erase, find-erase,
}
use bi_kaya.ListX.{Links, put, list_add, list_del}
use bi_kaya.Types.{p_sib, member, slot, p_next, s_next, s_proc_q, semd_free, asl}
use bi_kaya.Types.Siblings.{list_del-sibs, list_add-sibs}
use bi_kaya.Types.Lists.{
  Lists, IsOff, distinct, apart, list_empty-Lists, list_del-Lists, list_del-IsOff, list_add-Lists,
}
use bi_kaya.Machine.{Kernel, Returns, SameButLinks}
use bi_kaya.Asl.{release_if_empty}
use bi_kaya.Asl.Semaphores.{
  described, Descriptors, Semaphores, waiting, queue_at, find_key, found_key,
}

-- What taking `p` from the queue of `key` does to the queues of all keys and to the other lists.
pub record Left (live : ℕ → Bool) (k : Kernel) (qs : ℕ → List ℕ) (key p : ℕ) (k' : Kernel)
    (qs' : ℕ → List ℕ) : Type 0 where
  pub invariant : Semaphores live k' qs'
  pub remaining : waiting k' qs' key ≡ erase p (waiting k qs key)
  pub others : (o : ℕ) → o ≢ key → waiting k' qs' o ≡ waiting k qs o
  pub gone : IsOff live qs' 0 p
  pub elsewhere : (h : ℕ) → h % 8 ≢ 4 → h ≢ asl → h ≢ semd_free → qs' h ≡ qs h
  pub sibs : (i : ℕ) → k'.links.next (p_sib i) ≡ k.links.next (p_sib i)
  pub kept : (i : ℕ) → described qs' i ≡ described qs i
  pub only : (h i : ℕ) → member h ≡ 0 → i ≢ p → has i (qs' h) ≡ has i (qs h)

module _ {live : ℕ → Bool} (k : Kernel) {qs : ℕ → List ℕ} (s : Semaphores live k qs) (p j : ℕ)
    (on : has j (qs asl) ≡ true) (queued : has p (qs (s_proc_q j)) ≡ true) where
  queue_live : live (s_proc_q j) ≡ true
  queue_live = s.queues j (ground arith)

  abbrev rest : List ℕ
  rest = erase p (qs (s_proc_q j))

  abbrev unlinked : ℕ → List ℕ
  unlinked = put qs (s_proc_q j) rest

  unlinked-Lists : Lists live (list_del k.links (p_next p)) unlinked
  unlinked-Lists =
      let place : slot (s_proc_q j) p ≡ p_next p = ground arith in
      rw place at (list_del-Lists s.lists (s_proc_q j) p queue_live queued)

  unlinked-sibs : (i : ℕ) → (list_del k.links (p_next p)).next (p_sib i) ≡ k.links.next (p_sib i)
  unlinked-sibs i =
      let place : slot (s_proc_q j) p ≡ p_next p = ground arith in
      rw place at (list_del-sibs s.lists (s_proc_q j) p i queue_live queued (ground arith))

  unlinked-IsOff : IsOff live unlinked 0 p
  unlinked-IsOff h at via =
      list_del-IsOff s.lists (s_proc_q j) p queue_live queued h at (ground arith)

  in_unlinked : (h i : ℕ) → has i (unlinked h) ≡ true → has i (qs h) ≡ true
  in_unlinked h i a =
      ground (arith, has-erase i p (qs (s_proc_q j)) (distinct s.lists (s_proc_q j) queue_live))

  only_unlinked : (h i : ℕ) → i ≢ p → has i (unlinked h) ≡ has i (qs h)
  only_unlinked h i ne =
      ground (arith, has-erase i p (qs (s_proc_q j)) (distinct s.lists (s_proc_q j) queue_live))

  same_asl : unlinked asl ≡ qs asl
  same_asl = ground arith

  same_free : unlinked semd_free ≡ qs semd_free
  same_free = ground arith

  -- With `p` away; the descriptor may have no process left.
  unlinked-Descriptors :
      Descriptors live (record k { links = list_del k.links (p_next p) }) unlinked
  unlinked-Descriptors = record {
    lists = unlinked-Lists;
    inside = λ h i at a. s.inside h i at (in_unlinked h i a);
    asl_live = s.asl_live;
    free_live = s.free_live;
    queues = λ i a. s.queues i (ground (arith, ap (has i) same_asl, ap (has i) same_free));
    idle = λ i a.
        let free : has i (qs semd_free) ≡ true = rw same_free at a in
        ground (arith, s.idle i free, apart s.lists asl semd_free j s.asl_live s.free_live refl on);
    keyed = λ i h a b e. s.keyed i h (rw same_asl at a) (rw same_asl at b) e;
    blocked = λ i q a b. s.blocked i q (rw same_asl at a) (in_unlinked (s_proc_q i) q b);
  }

  abbrev key : ℕ
  key = k.s_keys j

  was_waiting : waiting k qs key ≡ qs (s_proc_q j)
  unfolding waiting
  was_waiting = rw (find_key s.descriptors j key on refl)

  other_key :
      (qs' : ℕ → List ℕ)
      → ((i : ℕ) → i ≢ j → qs' (s_proc_q i) ≡ qs (s_proc_q i))
      → (o : ℕ) (r : Option ℕ) → find (λ i. k.s_keys i == o) (qs asl) ≡ r
      → o ≢ key
      → queue_at qs' r ≡ queue_at qs r
  unfolding queue_at
  other_key qs' same o none e ne = refl
  other_key qs' same o (some i) e ne = same i (ground (arith, found_key s.descriptors i o e))

  -- The queue has other processes: the descriptor stays.
  stay-Left :
      is_nil rest ≡ false
      → Left live k qs key p (record k { links = list_del k.links (p_next p) }) unlinked
  unfolding waiting
  stay-Left others_left = record {
    invariant = record {
      descriptors = unlinked-Descriptors;
      busy = λ i a. ground (arith, s.busy i (rw same_asl at a));
    };
    remaining =
        rw (was_waiting, find_key unlinked-Descriptors j key (rw same_asl on) refl) (ground arith);
    others = λ o ne. rw same_asl (other_key unlinked (λ i ne. ground arith) o _ refl ne);
    gone = unlinked-IsOff;
    elsewhere = λ h a b c. ground arith;
    sibs = unlinked-sibs;
    kept = λ i. ground arith;
    only = λ h i via ne. only_unlinked h i ne;
  }

  abbrev closed : ℕ → List ℕ
  closed = put (put unlinked asl (erase j (qs asl))) semd_free (j ∷ qs semd_free)

  abbrev closed_links : Links
  closed_links = list_add (list_del (list_del k.links (p_next p)) (s_next j)) (s_next j) semd_free

  closed-Lists : Lists live closed_links closed
  closed-Lists =
      let place : slot asl j ≡ s_next j = omega arith in
      let place' : slot semd_free j ≡ s_next j = omega arith in
      let on' : has j (unlinked asl) ≡ true = rw same_asl on in
      let taken = list_del-Lists unlinked-Lists asl j s.asl_live on' in
      let off = list_del-IsOff unlinked-Lists asl j s.asl_live on' in
      rw (place', place, same_asl, same_free) at (list_add-Lists taken semd_free j s.free_live off)

  closing-sibs :
      (i : ℕ)
      → (list_del (list_del k.links (p_next p)) (s_next j)).next (p_sib i)
        ≡ (list_del k.links (p_next p)).next (p_sib i)
  closing-sibs i =
      let place : slot asl j ≡ s_next j = omega arith in
      rw place at (list_del-sibs unlinked-Lists asl j i s.asl_live (rw same_asl on) (omega arith))

  same_queue : (i : ℕ) → i ≢ j → closed (s_proc_q i) ≡ qs (s_proc_q i)
  same_queue i ne = ground arith

  in_closed : (i : ℕ) → has i (closed asl) ≡ true → (i ≢ j) × (has i (qs asl) ≡ true)
  in_closed i a = ground (arith, has-erase i j (qs asl) (distinct s.lists asl s.asl_live))

  -- The queue is empty: the descriptor goes back to the free list.
  closed-Left : rest ≡ [] → Left live k qs key p (record k { links = closed_links }) closed
  unfolding waiting
  closed-Left none_left = record {
    invariant = record {
      descriptors = record {
        lists = closed-Lists;
        inside = λ h i at a. ground (
          arith,
          s.inside h i at,
          s.inside asl j s.asl_live on,
          s.inside semd_free i s.free_live,
          in_closed i,
          in_unlinked h i,
        );
        asl_live = s.asl_live;
        free_live = s.free_live;
        queues = λ i a. s.queues i (ground (arith, in_closed i));
        idle = λ i a. ground (
          arith,
          none_left,
          s.idle i,
          apart s.lists asl semd_free j s.asl_live s.free_live refl on,
        );
        keyed = λ i h a b e. s.keyed i h (in_closed i a).1 (in_closed h b).1 e;
        blocked =
            λ i q a b. s.blocked i q (in_closed i a).1 (rw (same_queue i (in_closed i a).0) at b);
      };
      busy = λ i a. rw (same_queue i (in_closed i a).0) (s.busy i (in_closed i a).1);
    };
    remaining = rw (was_waiting, none_left, unused);
    others = λ o ne.
        rw (find-erase (λ i. k.s_keys i == o) j (qs asl) (ground arith))
          (other_key closed same_queue o _ refl ne);
    gone = λ h at via. ground (arith, unlinked-IsOff h at via);
    elsewhere = λ h a b c. ground arith;
    sibs = λ i.
        list_add-sibs (list_del (list_del k.links (p_next p)) (s_next j)) (s_next j) semd_free i
          (omega arith) (omega arith)
        ∙ closing-sibs i
        ∙ unlinked-sibs i;
    kept = λ i. ground (arith, has-erase i j (qs asl) (distinct s.lists asl s.asl_live));
    only = λ h i via ne. ground (arith, only_unlinked h i ne);
  }
    where
      unused : find (λ i. k.s_keys i == key) (erase j (qs asl)) ≡ none
      unused = elim (Option-cases (find (λ i. k.s_keys i == key) (erase j (qs asl)))) [
        | inl e ↦ e
        | inr (i, e) ↦
            let (there, same) = find-some (λ i. k.s_keys i == key) (erase j (qs asl)) i e in
            let (ne, on') = in_closed i there in absurd (ne (s.keyed i j on' on (ground arith)))
      ]

  -- `list_del` of the process and the check for an empty queue.
  pub leave_lem :
      Returns
        (λ _ k'. (qs' : ℕ → List ℕ) × Left live k qs key p k' qs' × SameButLinks k k')
        (release_if_empty j (record k { links = list_del k.links (p_next p) }))
  unfolding release_if_empty
  leave_lem =
      rw (list_empty-Lists unlinked-Lists (s_proc_q j) queue_live, ==_refl (s_proc_q j))
        (elim (Bool-cases (is_nil rest)) [
          | inl empty ↦ rw empty (closed, closed-Left (nil_of_is_nil rest empty), refl)
          | inr others ↦ rw others (unlinked, stay-Left others, refl)
        ])
