-- ===== src/Asl/Join.antt =====
-- The end of `asl_insert_blocked` of src/asl.c: a process joins the queue of a descriptor on `asl`.
use bi_kaya.Base.{
  ℕ, ◌%◌, ◌<◌, ◌≡◌, ◌≢◌, refl, ap, sym, ◌∙◌, inl, inr, ◌⊎◌, Bool, true, false, Option, none, some,
  List, arith, ◌==◌, length, is_nil, find, has, Bool-cases, ==_refl, find_same,
}
use bi_kaya.ListX.{Links, put}
use bi_kaya.Types.{member, max_proc, s_proc_q, semd_free, asl}
use bi_kaya.Types.Lists.{Lists, IsOff, apart}
use bi_kaya.Machine.{Kernel, fuel, Returns, Returns-bind}
use bi_kaya.Pcb.{pcb_insert_in_queue}
use bi_kaya.Pcb.Insert.{insert_by, has-insert_by, is_nil-insert_by, pcb_insert_in_queue-insert_by}
use bi_kaya.Asl.{set_semkey, block_on}
use bi_kaya.Asl.Semaphores.{Descriptors, Semaphores, described, waiting, find_key, found_key}

module _ {live : ℕ → Bool} (k : Kernel) {qs : ℕ → List ℕ} (r : Lists live k.links qs) where
  pub block_on_lem :
      (key p j : ℕ)
      → live (s_proc_q j) ≡ true
      → IsOff live qs 0 p
      → length (qs (s_proc_q j)) < fuel
      → Returns
          (λ failed k'.
            (failed ≡ false)
            × Lists live k'.links
                (put qs (s_proc_q j) (insert_by (λ i. (k.pcbs i).priority) p (qs (s_proc_q j))))
            × (k' ≡ record k {
              links = k'.links;
              s_keys = put k.s_keys j key;
              pcbs = put k.pcbs p (set_semkey key (k.pcbs p));
            }))
          (block_on key p j k)
  unfolding block_on
  block_on_lem key p j at off enough =
      Returns-bind _ _ (pcb_insert_in_queue (s_proc_q j) p k) _
        (pcb_insert_in_queue-insert_by k r (s_proc_q j) p at (ground arith) off enough)
        λ _ k' (lists, same). (refl, lists, ap (stamped k'.links) same)
    where
      stamped : Links → Kernel → Kernel
      stamped l m = record m {
        links = l;
        s_keys = put m.s_keys j key;
        pcbs = put m.pcbs p (set_semkey key (m.pcbs p));
      }

-- What a successful `asl_insert_blocked key p` does to the queues of all keys and to the other
-- lists.
pub record Joined (live : ℕ → Bool) (k : Kernel) (qs : ℕ → List ℕ) (key p : ℕ) (k' : Kernel)
    (qs' : ℕ → List ℕ) : Type 0 where
  pub invariant : Semaphores live k' qs'
  pub joined : waiting k' qs' key ≡ insert_by (λ i. (k.pcbs i).priority) p (waiting k qs key)
  pub others : (o : ℕ) → o ≢ key → waiting k' qs' o ≡ waiting k qs o
  pub stamped : k'.pcbs ≡ put k.pcbs p (set_semkey key (k.pcbs p))
  pub elsewhere : (h : ℕ) → h % 8 ≢ 4 → h ≢ asl → h ≢ semd_free → qs' h ≡ qs h
  pub words : k'.words ≡ k.words
  pub kept : (i : ℕ) → described qs' i ≡ described qs i
  pub only : (h i : ℕ) → member h ≡ 0 → i ≢ p → has i (qs' h) ≡ has i (qs h)

abbrev pub queue_with : Kernel → ℕ → List ℕ → List ℕ
queue_with k p xs = insert_by (λ i. (k.pcbs i).priority) p xs

-- The state when descriptor `j`, on `asl` with this key, has taken in `p`.
module _ {live : ℕ → Bool} (k : Kernel) {qs : ℕ → List ℕ} (s : Descriptors live k qs) (key p j : ℕ)
    (k' : Kernel) (qs' : ℕ → List ℕ) (on : has j (qs asl) ≡ true) (keyed : k.s_keys j ≡ key)
    (busy : (i : ℕ) → has i (qs asl) ≡ true → i ≢ j → is_nil (qs (s_proc_q i)) ≡ false)
    (off : IsOff live qs 0 p) (p_inside : p < max_proc) (lists : Lists live k'.links qs')
    (keys : k'.s_keys ≡ put k.s_keys j key)
    (pcbs : k'.pcbs ≡ put k.pcbs p (set_semkey key (k.pcbs p))) (words : k'.words ≡ k.words)
    (here : qs' (s_proc_q j) ≡ queue_with k p (qs (s_proc_q j)))
    (there : (h : ℕ) → h ≢ s_proc_q j → qs' h ≡ qs h) where
  same_asl : qs' asl ≡ qs asl
  same_asl = there asl (omega arith)

  same_free : qs' semd_free ≡ qs semd_free
  same_free = there semd_free (omega arith)

  same_keys : (i : ℕ) → k'.s_keys i ≡ k.s_keys i
  same_keys i = rw keys (ground arith)

  -- A process in a queue of the new state was there before, or is `p` in its new queue.
  in_queue : (h i : ℕ) → has i (qs' h) ≡ true → ((i ≡ p) × (h ≡ s_proc_q j)) ⊎ (has i (qs h) ≡ true)
  in_queue h i a = elim (Bool-cases (h == s_proc_q j)) [
    | inl same ↦
        let same' : h ≡ s_proc_q j = ground arith in
        ground
          (arith, ap (has i) here, has-insert_by (λ i. (k.pcbs i).priority) i p (qs (s_proc_q j)))
    | inr other ↦ inr (rw (there h (ground arith)) at a)
  ]

  found-Descriptors : Descriptors live k' qs'
  found-Descriptors = record {
    lists = lists;
    inside = λ h i at a. ground (arith, in_queue h i a, s.inside h i at);
    asl_live = s.asl_live;
    free_live = s.free_live;
    queues = λ i a. s.queues i (ground (arith, ap (has i) same_asl, ap (has i) same_free));
    idle = λ i a.
        let free : has i (qs semd_free) ≡ true = rw same_free at a in
        rw
          (there (s_proc_q i)
            (ground (arith, apart s.lists asl semd_free j s.asl_live s.free_live refl on)))
          (s.idle i free);
    keyed = λ i h a b e.
        s.keyed i h (rw same_asl at a) (rw same_asl at b) (rw (same_keys i, same_keys h) at e);
    blocked = λ i q a b.
        let mine : has i (qs asl) ≡ true = rw same_asl at a in
        rw (pcbs, same_keys i)
          (elim (in_queue (s_proc_q i) q b) [
            | inl (new, at_j) ↦
                let same : i ≡ j = omega (arith, at_j) in rw (same, new, ==_refl p) (sym keyed)
            | inr old ↦ ground (
              arith,
              s.blocked i q mine old,
              off (s_proc_q i) (s.queues i (ground arith)) (ground arith),
            )
          ]);
  }

  found-Semaphores : Semaphores live k' qs'
  found-Semaphores = record {
    descriptors = found-Descriptors;
    busy = λ i a. elim (Bool-cases (i == j)) [
      | inl same ↦
          let same' : i ≡ j = ground arith in
          rw (same', here) (is_nil-insert_by _ p (qs (s_proc_q j)))
      | inr other ↦
          rw (there (s_proc_q i) (ground arith)) (busy i (rw same_asl at a) (ground arith))
    ];
  }

  pub found-Joined : Joined live k qs key p k' qs'
  unfolding waiting
  found-Joined = record {
    invariant = found-Semaphores;
    joined =
        let new_place = find_key found-Descriptors j key (rw same_asl on) (rw same_keys keyed) in
        let old_place = find_key s j key on keyed in rw (new_place, old_place) here;
    others = λ o ne. others o ne (find (λ i. k.s_keys i == o) (qs asl)) refl;
    stamped = pcbs;
    words = words;
    elsewhere = λ h a b c. there h (λ e. a (rw e (omega arith)));
    kept = λ i. ground (arith, ap (has i) same_asl, ap (has i) same_free);
    only = λ h i via ne. elim (Bool-cases (h == s_proc_q j)) [
      | inl same ↦
          let same' : h ≡ s_proc_q j = ground arith in
          rw same' (
            ground (
              arith,
              ap (has i) here,
              has-insert_by (λ i. (k.pcbs i).priority) i p (qs (s_proc_q j)),
            ))
      | inr other ↦ ap (has i) (there h (ground arith))
    ];
  }
    where
      same_find :
          (o : ℕ) → find (λ i. k'.s_keys i == o) (qs' asl) ≡ find (λ i. k.s_keys i == o) (qs asl)
      same_find o = rw same_asl (find_same _ _ (qs asl) (λ i a. rw (same_keys i)))

      others :
          (o : ℕ)
          → o ≢ key
          → (r : Option ℕ) → find (λ i. k.s_keys i == o) (qs asl) ≡ r
          → waiting k' qs' o ≡ waiting k qs o
      others o ne none e = rw (same_find o, e)
      others o ne (some i) e =
          rw (same_find o, e)
            (there (s_proc_q i) (λ f.
              let same : i ≡ j = omega (arith, f) in
              ne (sym (found_key s i o e).1 ∙ ap k.s_keys same ∙ keyed)))
