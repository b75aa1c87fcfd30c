-- ===== src/Asl/Insert.antt =====
-- `asl_insert_blocked` of src/asl.c: a process joins the queue of its key, which it may have to open.
use mathlib.Core.Option
use bi_kaya.Base.{
  ℕ, ◌<◌, ◌≡◌, refl, ap, sym, ◌∙◌, inl, inr, ◌⊎◌, Bool, true, false, Option, none, some, List, [],
  ◌∷◌, arith, ◌==◌, head?, fun_ext, find, has, ==_refl,
}
use bi_kaya.ListX.{put}
use bi_kaya.Types.{max_proc, slot, s_proc_q, semd_free, asl, container_of}
use bi_kaya.Types.Lists.{IsOff, list_next-Lists}
use bi_kaya.Machine.{Kernel, Returns, Returns-map}
use bi_kaya.Pcb.Insert.{insert_by}
use bi_kaya.Asl.{block_on, insert_new, insert_found, asl_insert_blocked}
use bi_kaya.Asl.Join.{Joined, block_on_lem, found-Joined}
use bi_kaya.Asl.Open.{
  opened, opened_links, opened_lists, opened_elsewhere, opened-Descriptors, opened-waiting,
  opened_others, opened_busy, opened_kept,
}
use bi_kaya.Asl.Semaphores.{Semaphores, waiting, waiting-none, short, asl_semd-find, found_key}

-- Failure, for want of a descriptor, or `p` in the queue of `key`.
abbrev pub Inserted : (ℕ → Bool) → Kernel → (ℕ → List ℕ) → ℕ → ℕ → Bool → Kernel → Type 0
Inserted live k qs key p failed k' =
    ((failed ≡ true) × (k' ≡ k) × (waiting k qs key ≡ []) × (qs semd_free ≡ []))
    ⊎ ((qs' : ℕ → List ℕ) × (failed ≡ false) × Joined live k qs key p k' qs')

-- `asl_insert_blocked key p`, for a process `p` of the table that is in no queue and with the
-- semaphores well-formed, returns. It fails only where the key has no descriptor and none is free, and then changes nothing. Otherwise `p` joins the queue
-- of `key` by its priority and carries the key; the queues of the other keys, the ready queue, the
-- free list and the process tree are as before, and the semaphores are well-formed
-- again.
pub asl_insert_blocked_lem :
    {live : ℕ → Bool} (k : Kernel) {qs : ℕ → List ℕ} (key p : ℕ)
    → Semaphores live k qs
    → IsOff live qs 0 p
    → p < max_proc
    → Returns (Inserted live k qs key p) (asl_insert_blocked key p k)
unfolding asl_insert_blocked
asl_insert_blocked_lem {live} k {qs} key p s off p_inside =
    rw (asl_semd-find s.descriptors key) (by_key (find (λ j. k.s_keys j == key) (qs asl)) refl)
  where
    Goal : Bool → Kernel → Type 0
    Goal = Inserted live k qs key p

    with_descriptor :
        (j : ℕ)
        → find (λ i. k.s_keys i == key) (qs asl) ≡ some j
        → Returns Goal (block_on key p j k)
    with_descriptor j e =
        let (on, keyed) = found_key s.descriptors j key e in
        let at = s.queues j (ground arith) in
        Returns-map _ Goal (block_on key p j k)
          (block_on_lem k s.lists key p j at off (short s.descriptors (s_proc_q j) at))
          λ failed k' (done, lists, same). inr (
            _,
            done,
            found-Joined k s.descriptors key p j k' _ on keyed (λ i a ne. s.busy i a) off p_inside
                lists (ap (λ (m : Kernel). m.s_keys) same) (ap (λ (m : Kernel). m.pcbs) same)
                (ap (λ (m : Kernel). m.words) same) (rw (==_refl (s_proc_q j)))
                (λ h ne. ground arith),
          )

    rewrite_key : (j : ℕ) → put (put k.s_keys j key) j key ≡ put k.s_keys j key
    rewrite_key j = fun_ext λ i. ground arith

    with_new :
        (j : ℕ) (js : List ℕ) (e : find (λ i. k.s_keys i == key) (qs asl) ≡ none)
        (free : qs semd_free ≡ j ∷ js)
        → Returns Goal (block_on key p j (record k { links = opened_links k s key j js free e }))
    with_new j js e free =
        let ls = opened_lists k s key j js free e in
        let m = opened k s key j js free e in
        let d = opened-Descriptors k s key j js free e in
        let at : live (s_proc_q j) ≡ true = s.queues j (ground (arith, ap (has j) free)) in
        let off' : IsOff live ls 0 p = λ h a b. ground (arith, off h a b) in
        let ls' = put ls (s_proc_q j) (insert_by (λ i. (k.pcbs i).priority) p (ls (s_proc_q j))) in
        Returns-map _ Goal (block_on key p j (record k { links = m.links }))
          (block_on_lem (record k { links = m.links }) d.lists key p j at off'
            (short d (s_proc_q j) at))
          λ failed k' (done, lists, same).
            let joined : Joined live m ls key p k' ls' =
              found-Joined m d key p j k' ls' (ground arith) (ground arith)
                (opened_busy k s key j js free e) off' p_inside lists
                (ap (λ (n : Kernel). n.s_keys) same ∙ sym (rewrite_key j))
                (ap (λ (n : Kernel). n.pcbs) same) (ap (λ (n : Kernel). n.words) same)
                (rw (==_refl (s_proc_q j))) (λ h ne. ground arith) in
            inr (
              ls',
              done,
              record {
                invariant = joined.invariant;
                joined =
                    joined.joined
                    ∙ ap (insert_by (λ i. (k.pcbs i).priority) p)
                        (opened-waiting k s key j js free e ∙ sym (waiting-none k qs key e));
                others = λ o ne. joined.others o ne ∙ opened_others k s key j js free e o ne;
                stamped = joined.stamped;
                words = joined.words;
                elsewhere = λ h a b c.
                    joined.elsewhere h a b c ∙ opened_elsewhere k s key j js free e h b c;
                kept = λ i. joined.kept i ∙ opened_kept k s key j js free e i;
                only = λ h i via ne.
                    joined.only h i via ne
                    ∙ ap (has i)
                        (opened_elsewhere k s key j js free e h (ground arith) (ground arith));
              },
            )

    by_free :
        (xs : List ℕ)
        → find (λ i. k.s_keys i == key) (qs asl) ≡ none
        → qs semd_free ≡ xs
        → Returns Goal (insert_new key p (Option.map (slot semd_free) (head? xs)) k)
    by_free [] e free = inl (refl, refl, waiting-none k qs key e, free)
    by_free (j ∷ js) e free =
        let back : container_of (slot semd_free j) ≡ j = ground arith in
        rw back (with_new j js e free)

    by_key :
        (r : Option ℕ)
        → find (λ j. k.s_keys j == key) (qs asl) ≡ r
        → Returns Goal (insert_found key p r k)
    by_key none e =
        rw (list_next-Lists s.lists semd_free s.free_live) (by_free (qs semd_free) e refl)
    by_key (some j) e = with_descriptor j e
