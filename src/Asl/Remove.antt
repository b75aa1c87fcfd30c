-- ===== src/Asl/Remove.antt =====
-- `asl_remove_blocked`, `asl_find_and_remove_blocked` and `asl_blocked_head` of src/asl.c on the queues
-- of blocked processes.
use bi_kaya.Base.{
  ℕ, ◌≡◌, refl, ap, inl, inr, ◌⊎◌, Bool, true, false, Option, none, some, List, [], ◌∷◌, arith,
  ◌==◌, is_nil, head?, find, has, Bool-cases,
}
use bi_kaya.ListX.{put, list_del}
use bi_kaya.Types.{null, slot, p_next, s_proc_q, asl, container_of}
use bi_kaya.Types.Lists.{container-slot, list_next-Lists, list_find-Lists}
use bi_kaya.Machine.{Kernel, ok, fuel, Returns, Returns-bind, Returns-map, SameButLinks}
use bi_kaya.Pcb.Remove.{find-has}
use bi_kaya.Asl.{
  set_semkey, release_if_empty, remove_found, asl_remove_blocked, find_in,
  asl_find_and_remove_blocked, head_blocked, asl_blocked_head,
}
use bi_kaya.Asl.Semaphores.{
  Descriptors, Semaphores, waiting, waiting-none, short, asl_semd-find, found_key,
}
use bi_kaya.Asl.Leave.{Left, leave_lem}

-- The key of a process that is in no queue may change.
Left-clear :
    {live : ℕ → Bool} (k : Kernel) (qs : ℕ → List ℕ) (key p : ℕ) (k' : Kernel) (qs' : ℕ → List ℕ)
    → Left live k qs key p k' qs'
    → Left live k qs key p (record k' { pcbs = put k'.pcbs p (set_semkey null (k'.pcbs p)) }) qs'
unfolding waiting
Left-clear {live} k qs key p k' qs' left = record {
  invariant = record {
    descriptors = record {
      lists = d.lists;
      inside = d.inside;
      asl_live = d.asl_live;
      free_live = d.free_live;
      queues = d.queues;
      idle = d.idle;
      keyed = d.keyed;
      blocked = λ j i a b. ground (
        arith,
        d.blocked j i a b,
        left.gone (s_proc_q j) (d.queues j (ground arith)) (ground arith),
      );
    };
    busy = left.invariant.busy;
  };
  remaining = left.remaining;
  others = left.others;
  gone = left.gone;
  elsewhere = left.elsewhere;
  sibs = left.sibs;
  kept = left.kept;
  only = left.only;
}
  where
    d : Descriptors live k' qs'
    d = left.invariant.descriptors

-- `p` has left the queue of `key`, with its own key cleared.
abbrev pub Woken : (ℕ → Bool) → Kernel → (ℕ → List ℕ) → ℕ → ℕ → Kernel → Type 0
Woken live k qs key p k' =
    (qs' : ℕ → List ℕ) × Left live k qs key p k' qs'
    × (k' ≡ record k { links = k'.links; pcbs = put k.pcbs p (set_semkey null (k.pcbs p)) })

-- The first of the queue of `key` has left it, if there is one.
abbrev pub Removed : (ℕ → Bool) → Kernel → (ℕ → List ℕ) → ℕ → Option ℕ → Kernel → Type 0
Removed live k qs key o k' =
    (o ≡ head? (waiting k qs key))
    × (((o ≡ none) × (k' ≡ k)) ⊎ ((p : ℕ) × (o ≡ some p) × Woken live k qs key p k'))

-- `p` has left the queue of its key, if it was there.
abbrev pub Withdrawn : (ℕ → Bool) → Kernel → (ℕ → List ℕ) → ℕ → Option ℕ → Kernel → Type 0
Withdrawn live k qs p o k' =
    let key = (k.pcbs p).p_semkey in
    ((has p (waiting k qs key) ≡ false) × (o ≡ none) × (k' ≡ k))
    ⊎ ((qs' : ℕ → List ℕ) × (has p (waiting k qs key) ≡ true)
        × (o ≡ some p)
        × Left live k qs key p k' qs'
        × SameButLinks k k')

module _ {live : ℕ → Bool} (k : Kernel) {qs : ℕ → List ℕ} (s : Semaphores live k qs) where
  abbrev at_key : ℕ → Option ℕ
  at_key key = find (λ j. k.s_keys j == key) (qs asl)

  pub waiting-some : (key j : ℕ) → at_key key ≡ some j → waiting k qs key ≡ qs (s_proc_q j)
  unfolding waiting
  waiting-some key j e = rw e

  remove_first :
      (key j p : ℕ) (ps : List ℕ)
      → at_key key ≡ some j
      → qs (s_proc_q j) ≡ p ∷ ps
      → Returns (λ o k'. (o ≡ some p) × Woken live k qs key p k') (remove_found (some j) k)
  unfolding remove_found
  remove_first key j p ps e whole =
      let (on, keyed) = found_key s.descriptors j key e in
      let at : live (s_proc_q j) ≡ true = s.queues j (ground arith) in
      let place : slot (s_proc_q j) p ≡ p_next p = ground arith in
      let back : container_of (p_next p) ≡ p = ground arith in
      rw (list_next-Lists s.lists (s_proc_q j) at, whole, place, back)
        (Returns-bind _ _ (release_if_empty j (record k { links = list_del k.links (p_next p) })) _
          (leave_lem k s p j on (rw whole (ground arith)))
          λ _ k' (qs', left, same). (
            refl,
            (
              qs',
              Left-clear k qs key p k' qs' (rw keyed at left),
              ap
                  (λ (m : Kernel). record m {
                    links = k'.links;
                    pcbs = put m.pcbs p (set_semkey null (m.pcbs p));
                  })
                  same,
            ),
          ))

  -- With well-formed semaphores `asl_remove_blocked key` returns, and takes the first process out of the queue of `key`, clears
  -- its key and returns it; the queues of the other keys, the ready queue,
  -- the free list and the process tree are as before. Where nobody waits it returns `NULL` and
  -- changes nothing.
  pub asl_remove_blocked_lem :
      (key : ℕ) → Returns (Removed live k qs key) (asl_remove_blocked key k)
  unfolding asl_remove_blocked
  asl_remove_blocked_lem key = rw (asl_semd-find s.descriptors key) (by_key (at_key key) refl)
    where
      Goal : Option ℕ → Kernel → Type 0
      Goal = Removed live k qs key

      by_queue :
          (j : ℕ) (xs : List ℕ)
          → at_key key ≡ some j
          → qs (s_proc_q j) ≡ xs
          → Returns Goal (remove_found (some j) k)
      by_queue j [] e whole =
          ground (arith, s.busy j (found_key s.descriptors j key e).0, ap is_nil whole)
      by_queue j (p ∷ ps) e whole =
          Returns-map _ Goal (remove_found (some j) k) (remove_first key j p ps e whole)
            λ o k' (got, woken). (rw (waiting-some key j e, whole) got, inr (p, got, woken))

      by_key : (r : Option ℕ) → at_key key ≡ r → Returns Goal (remove_found r k)
      by_key none e = (rw (waiting-none k qs key e), inl (refl, refl))
      by_key (some j) e = by_queue j (qs (s_proc_q j)) e refl

  -- With well-formed semaphores `asl_blocked_head key` returns the first process of the queue of `key`, or `NULL`, and changes
  -- nothing.
  pub asl_blocked_head-waiting :
      (key : ℕ) → asl_blocked_head key k ≡ ok (head? (waiting k qs key)) k
  unfolding asl_blocked_head
  asl_blocked_head-waiting key = rw (asl_semd-find s.descriptors key) (by_key (at_key key) refl)
    where
      by_key : (r : Option ℕ) → at_key key ≡ r → head_blocked r k ≡ ok (head? (waiting k qs key)) k
      by_key none e = rw (waiting-none k qs key e)
      by_key (some j) e = rw (
        list_next-Lists s.lists (s_proc_q j)
            (s.queues j (ground (arith, found_key s.descriptors j key e))),
        waiting-some key j e,
        container-slot (s_proc_q j),
      )

  -- With well-formed semaphores `asl_find_and_remove_blocked p` returns, and takes `p` out of the queue of its key, wherever it stands there,
  -- and returns it; the other queues, the ready queue, the free list and the process tree are
  -- as before. A process that is not in that queue gives `NULL`, and nothing changes.
  pub asl_find_and_remove_blocked_lem :
      (p : ℕ) → Returns (Withdrawn live k qs p) (asl_find_and_remove_blocked p k)
  unfolding asl_find_and_remove_blocked
  asl_find_and_remove_blocked_lem p =
      rw (asl_semd-find s.descriptors key) (by_key (at_key key) refl)
    where
      key : ℕ
      key = (k.pcbs p).p_semkey

      Goal : Option ℕ → Kernel → Type 0
      Goal = Withdrawn live k qs p

      in_queue : (j : ℕ) → at_key key ≡ some j → Returns Goal (find_in p (some j) k)
      in_queue j e =
          let (on, keyed) = found_key s.descriptors j key e in
          let at : live (s_proc_q j) ≡ true = s.queues j (ground arith) in
          rw
            (
              list_find-Lists s.lists fuel (λ i. i == p) (s_proc_q j) at
                  (short s.descriptors (s_proc_q j) at),
              find-has p (qs (s_proc_q j)),
            )
            (elim (Bool-cases (has p (qs (s_proc_q j)))) [
              | inl here ↦
                  let place : slot (s_proc_q j) p ≡ p_next p = ground arith in
                  rw (here, place)
                    (Returns-bind _ Goal
                      (release_if_empty j (record k { links = list_del k.links (p_next p) })) _
                      (leave_lem k s p j on here)
                      λ _ k' (qs', left, same).
                        inr (qs', rw (waiting-some key j e) here, refl, rw keyed at left, same))
              | inr missing ↦ rw missing (inl (rw (waiting-some key j e) missing, refl, refl))
            ])

      by_key : (r : Option ℕ) → at_key key ≡ r → Returns Goal (find_in p r k)
      by_key none e = inl (rw (waiting-none k qs key e), refl, refl)
      by_key (some j) e = in_queue j e
