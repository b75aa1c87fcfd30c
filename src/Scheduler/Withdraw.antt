-- ===== src/Scheduler/Withdraw.antt =====
-- A process that is ended leaves its semaphore and the ready queue, in `kill_tree` of src/scheduler.c.
use bi_kaya.Base.{
  ℕ, ◌%◌, ◌<◌, ◌≡◌, ◌≢◌, refl, ap, sym, subst, ◌∙◌, inl, inr, Bool, true, false, Option, none, some,
  List, arith, ◌==◌, if◌then◌else◌, has, erase, erase_off, Bool-cases, find,
}
use bi_kaya.ListX.{Links, put, list_del}
use bi_kaya.Types.{max_proc, slot, p_next, p_sib, s_proc_q, ready_queue, semd_free, asl}
use bi_kaya.Types.Lists.{Lists, list_find-Lists, list_del-Lists, put_same}
use bi_kaya.Types.Siblings.{list_del-sibs}
use bi_kaya.Machine.{Kernel, Returns, Returns-map, SameButLinks, fuel, ok}
use bi_kaya.Pcb.{pcb_find_and_remove}
use bi_kaya.Pcb.Remove.{find-has}
use bi_kaya.Asl.{asl_find_and_remove_blocked}
use bi_kaya.Asl.Semaphores.{waiting, queue_at, short, found_key}
use bi_kaya.Asl.Remove.{Withdrawn, asl_find_and_remove_blocked_lem}
use bi_kaya.Scheduler.Queues.{ByPriority-same}
use bi_kaya.Scheduler.Tables.{Tables, waits_by_key}

-- `c` waits nowhere any more.
pub record Away (live : ℕ → Bool) (k : Kernel) (qs : ℕ → List ℕ) (c : ℕ) (k' : Kernel)
    (qs' : ℕ → List ℕ) : Type 0 where
  pub tables : Tables live k' qs'
  pub waits : (key : ℕ) → waiting k' qs' key ≡ erase c (waiting k qs key)
  pub gone : (j : ℕ) → live (s_proc_q j) ≡ true → has c (qs' (s_proc_q j)) ≡ false
  pub elsewhere : (h : ℕ) → h % 8 ≢ 4 → h ≢ asl → h ≢ semd_free → qs' h ≡ qs h
  pub sibs : (i : ℕ) → k'.links.next (p_sib i) ≡ k.links.next (p_sib i)
  pub same : SameButLinks k k'

module _ {live : ℕ → Bool} (k : Kernel) {qs : ℕ → List ℕ} (t : Tables live k qs) (c : ℕ) where
  -- It waits for no other key than its own.
  other_key : (key : ℕ) → key ≢ (k.pcbs c).p_semkey → has c (waiting k qs key) ≡ false
  unfolding waiting queue_at
  other_key key ne = go (find (λ j. k.s_keys j == key) (qs asl)) refl
    where
      go :
          (o : Option ℕ)
          → find (λ j. k.s_keys j == key) (qs asl) ≡ o
          → has c (queue_at qs o) ≡ false
      go none e = refl
      go (some j) e =
          let (on, keyed) = found_key t.queues.semaphores.descriptors j key e in
          ground (arith, t.queues.semaphores.blocked j c on)

  bound : (j : ℕ) → live (s_proc_q j) ≡ true → j < max_proc
  bound j at = ground (arith, t.places (s_proc_q j) at (ground arith))

  withdrawn :
      (o : Option ℕ) (k' : Kernel)
      → Withdrawn live k qs c o k'
      → (qs' : ℕ → List ℕ) × Away live k qs c k' qs'
  withdrawn o k' (inl (missing, _, same)) = (
    qs,
    subst (λ n. Away live k qs c n qs) (sym same)
        (record {
          tables = t;
          waits = λ key. sym (
              erase_off c (waiting k qs key) (elim (Bool-cases (key == (k.pcbs c).p_semkey)) [
                | inl own ↦ let own' : key ≡ (k.pcbs c).p_semkey = ground arith in rw own' missing
                | inr other ↦ other_key key (ground arith)
              ]));
          gone = λ j at. ground (arith, missing, waits_by_key t j c (bound j at));
          elsewhere = λ h a b d. refl;
          sibs = λ i. refl;
          same = refl;
        }),
  )
  withdrawn o k' (inr (qs', _, _, l, same)) = (
    qs',
    record {
      tables = record {
        queues = record {
          semaphores = l.invariant;
          ready_live = t.queues.ready_live;
          ordered = rw (l.elsewhere ready_queue (omega arith) (omega arith) (omega arith)) (
              ByPriority-same _ _ (qs ready_queue)
                (λ i on. ap (λ (n : Kernel). (n.pcbs i).priority) same) t.queues.ordered);
        };
        every = λ j lt. l.kept j ∙ t.every j lt;
        free_live = t.free_live;
        places = t.places;
      };
      waits = λ key. elim (Bool-cases (key == (k.pcbs c).p_semkey)) [
        | inl own ↦ let own' : key ≡ (k.pcbs c).p_semkey = ground arith in rw own' l.remaining
        | inr other ↦
            l.others key (ground arith)
            ∙ sym (erase_off c (waiting k qs key) (other_key key (ground arith)))
      ];
      gone = λ j at. l.gone (s_proc_q j) at (ground arith);
      elsewhere = l.elsewhere;
      sibs = l.sibs;
      same = same;
    },
  )

  pub asl_find_and_remove_blocked-Away :
      Returns
        (λ _ k'. (qs' : ℕ → List ℕ) × Away live k qs c k' qs')
        (asl_find_and_remove_blocked c k)
  asl_find_and_remove_blocked-Away =
      Returns-map _ _ (asl_find_and_remove_blocked c k)
        (asl_find_and_remove_blocked_lem k t.queues.semaphores c) λ o k' w. withdrawn o k' w

  -- Out of the ready queue.
  abbrev pub unready : Links
  unready = if has c (qs ready_queue) then list_del k.links (p_next c) else k.links

  pub pcb_find_and_remove-unready :
      pcb_find_and_remove ready_queue c k
      ≡ ok (if has c (qs ready_queue) then some c else none) (record k { links = unready })
  unfolding pcb_find_and_remove
  pcb_find_and_remove-unready =
      rw
        (
          list_find-Lists t.queues.semaphores.lists fuel (λ i. i == c) ready_queue
              t.queues.ready_live
              (short t.queues.semaphores.descriptors ready_queue t.queues.ready_live),
          find-has c (qs ready_queue),
        )
        (elim (Bool-cases (has c (qs ready_queue))) [
          | inl here ↦ rw here refl
          | inr missing ↦ rw missing refl
        ])

  pub unready-Lists : Lists live unready (put qs ready_queue (erase c (qs ready_queue)))
  unready-Lists = elim (Bool-cases (has c (qs ready_queue))) [
    | inl here ↦
        let place : slot ready_queue c ≡ p_next c = omega arith in
        rw here (
          rw place at
            (list_del-Lists t.queues.semaphores.lists ready_queue c t.queues.ready_live here))
    | inr missing ↦
        rw
          (
            missing,
            erase_off c (qs ready_queue) missing,
            put_same qs ready_queue (qs ready_queue) refl,
          )
          t.queues.semaphores.lists
  ]

  pub unready-sibs : (i : ℕ) → unready.next (p_sib i) ≡ k.links.next (p_sib i)
  unready-sibs i = elim (Bool-cases (has c (qs ready_queue))) [
    | inl here ↦
        let place : slot ready_queue c ≡ p_next c = omega arith in
        rw here (
          rw place at (
            list_del-sibs t.queues.semaphores.lists ready_queue c i t.queues.ready_live here
              (omega arith)))
    | inr missing ↦ rw missing refl
  ]
