-- ===== src/Asl/Open.antt =====
-- `asl_insert_blocked` of src/asl.c opens a descriptor: from `semdFree` to `asl`.
use bi_kaya.Base.{
  ℕ, ◌≡◌, ◌≢◌, refl, ap, ◌∙◌, Bool, true, false, Option, none, some, List, [], ◌∷◌, arith, ◌==◌,
  is_nil, find, has, find-none, erase, ==_refl, find_same,
}
use bi_kaya.ListX.{Links, put, list_add, list_del}
use bi_kaya.Types.{slot, s_next, s_proc_q, semd_free, asl}
use bi_kaya.Types.Lists.{Lists, apart, list_del-Lists, list_del-IsOff, list_add-Lists}
use bi_kaya.Machine.{Kernel}
use bi_kaya.Asl.Semaphores.{described, Descriptors, Semaphores, waiting, queue_at}

-- The state when a free descriptor `j` has moved to `asl` and has the key. The code writes the key
-- last, which nothing reads in between.
module _ {live : ℕ → Bool} (k : Kernel) {qs : ℕ → List ℕ} (s : Semaphores live k qs) (key j : ℕ)
    (js : List ℕ) (free : qs semd_free ≡ j ∷ js)
    (unused : find (λ i. k.s_keys i == key) (qs asl) ≡ none) where
  abbrev pub opened_lists : ℕ → List ℕ
  opened_lists = put (put qs semd_free js) asl (j ∷ qs asl)

  abbrev pub opened_links : Links
  opened_links = list_add (list_del k.links (s_next j)) (s_next j) asl

  abbrev pub opened : Kernel
  opened = record k { links = opened_links; s_keys = put k.s_keys j key }

  on_free : has j (qs semd_free) ≡ true
  on_free = rw free (ground arith)

  left : erase j (qs semd_free) ≡ js
  left = rw (free, ==_refl j)

  -- `j` was not in use.
  not_used : has j (qs asl) ≡ false
  not_used = ground (arith, apart s.lists asl semd_free j s.asl_live s.free_live refl)

  pub same_queue : (i : ℕ) → opened_lists (s_proc_q i) ≡ qs (s_proc_q i)
  same_queue i = ground arith

  pub opened_empty : opened_lists (s_proc_q j) ≡ []
  opened_empty = same_queue j ∙ s.idle j on_free

  opened-Lists : Lists live opened_links opened_lists
  opened-Lists =
      let place : slot semd_free j ≡ s_next j = omega arith in
      let place' : slot asl j ≡ s_next j = omega arith in
      let unlinked = list_del-Lists s.lists semd_free j s.free_live on_free in
      let off = list_del-IsOff s.lists semd_free j s.free_live on_free in
      rw (place', left, place) at (list_add-Lists unlinked asl j s.asl_live off)

  fresh_key : (i : ℕ) → has i (qs asl) ≡ true → k.s_keys i ≢ key
  fresh_key i on e = ground (arith, find-none _ (qs asl) i unused on)

  pub opened-Descriptors : Descriptors live opened opened_lists
  opened-Descriptors = record {
    lists = opened-Lists;
    inside = λ h i at a. ground (
      arith,
      s.inside h i at,
      s.inside semd_free j s.free_live on_free,
      s.inside semd_free i s.free_live,
      ap (has i) free,
    );
    asl_live = s.asl_live;
    free_live = s.free_live;
    queues = λ i a. s.queues i (ground (arith, ap (has i) free));
    idle = λ i a. rw (same_queue i) (s.idle i (ground (arith, ap (has i) free)));
    keyed = λ h i a b e. ground (arith, s.keyed h i, fresh_key h, fresh_key i);
    blocked = λ i q a b.
        let old : has q (qs (s_proc_q i)) ≡ true = rw (same_queue i) at b in
        ground (arith, s.blocked i q, ap (has q) (s.idle j on_free));
  }

  pub opened-waiting : waiting opened opened_lists key ≡ []
  unfolding waiting
  opened-waiting = rw (==_refl j, ==_refl key) opened_empty

  pub opened_others : (o : ℕ) → o ≢ key → waiting opened opened_lists o ≡ waiting k qs o
  unfolding waiting
  opened_others o ne =
      let miss : (key == o) ≡ false = ground arith in
      rw
        (
          ==_refl j,
          miss,
          find_same (λ i. put k.s_keys j key i == o) (λ i. k.s_keys i == o) (qs asl)
              λ i on. ground (arith, not_used),
        )
        (same_at (find (λ i. k.s_keys i == o) (qs asl)))
    where
      same_at : (r : Option ℕ) → queue_at opened_lists r ≡ queue_at qs r
      same_at none = refl
      same_at (some i) = same_queue i

  pub opened_busy :
      (i : ℕ) → has i (opened_lists asl) ≡ true → i ≢ j → is_nil (opened_lists (s_proc_q i)) ≡ false
  opened_busy i a ne = rw (same_queue i) (s.busy i (ground arith))

  pub opened_kept : (i : ℕ) → described opened_lists i ≡ described qs i
  opened_kept i = ground (arith, ap (has i) free)

  pub opened_elsewhere : (h : ℕ) → h ≢ asl → h ≢ semd_free → opened_lists h ≡ qs h
  opened_elsewhere h a b = ground arith
