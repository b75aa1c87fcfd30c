-- ===== src/Kernel/Newborn.antt =====
-- `create_process` of src/syscalls.c on the whole kernel, where a process is free.
use bi_kaya.Base.{
  ℕ, ◌<◌, ◌≡◌, ◌≢◌, refl, ap, sym, fun_ext, ◌∙◌, inl, inr, Bool, true, false, some, List, [], ◌∷◌,
  ◌++◌, arith, ◌==◌, if◌then◌else◌, Bool-cases, has, has-append, ==_refl,
}
use bi_kaya.ListX.{put}
use bi_kaya.Types.{Pcb, max_proc, null, p_child, pcb_free_head, ready_queue, semd_free, asl}
use bi_kaya.Types.Lists.{Lists, IsOff}
use bi_kaya.Machine.{Kernel, ok, Returns, Returns-bind, Returns-deref}
use bi_kaya.Umps.{load_state}
use bi_kaya.Pcb.{zero_pcb, pcb_alloc, pcb_insert_child}
use bi_kaya.Pcb.Insert.{insert_by, has-insert_by}
use bi_kaya.Pcb.Tree.{Reparented, pcb_insert_child_lem}
use bi_kaya.Scheduler.{set_state, scheduler_enqueue_process}
use bi_kaya.Scheduler.Queues.{Queues, Queues-frame, Enqueued, scheduler_enqueue_process_lem}
use bi_kaya.Scheduler.Tables.{Tables, Tables-put}
use bi_kaya.Syscalls.{create_process, create_with, store_if, pid_word, syscall_success}
use bi_kaya.Kernel.Alloc.{
  not_left, alloc_live, alloc_lists, alloc-IsOff, same_ready, pcb_alloc-Queues,
}
use bi_kaya.Kernel.Adopt.{adopted}
use bi_kaya.Kernel.Family.{Family}
use bi_kaya.Kernel.Sound.{ProcessHeads, Sound, Sound-frame}
use bi_kaya.Kernel.Created.{Created}

module _ {live : ℕ → Bool} (k : Kernel) {qs : ℕ → List ℕ} (s : Sound live k qs)
    (state priority cpid c p : ℕ) (ps : List ℕ) (there : (state == null) ≡ false)
    (running : k.current_proc ≡ some c) (at : live (p_child c) ≡ true)
    (whole : qs pcb_free_head ≡ p ∷ ps) (off : IsOff live qs 2 p) where
  abbrev now : ℕ → Bool
  now = alloc_live live p

  new_heads : ProcessHeads now
  new_heads = record {
    free_live = ground (arith, s.heads.free_live);
    places = λ h e via. s.heads.places h (ground arith) via;
  }

  other : c ≢ p
  other same =
      ground (arith, (s.running c running).1 pcb_free_head s.heads.free_live refl, ap (has c) whole)

  first_only : has p ps ≡ false
  first_only = not_left k s.queues p ps s.heads.free_live whole

  not_new : (d : ℕ) → IsOff live qs 0 d → (d == p) ≡ false
  not_new d away = ground (arith, away pcb_free_head s.heads.free_live refl, ap (has d) whole)

  inside : p < max_proc
  inside = s.queues.semaphores.inside pcb_free_head p s.heads.free_live (rw whole (ground arith))

  abbrev stored : Kernel → ℕ → Pcb
  stored k1 = put k1.pcbs p (set_state (k1.states state) (k1.pcbs p))

  abbrev prepared : Kernel → Kernel
  prepared k1 = record k1 {
    pcbs = put (stored k1) p (record (stored k1 p) { original_priority = priority });
  }

  module _ (k1 k2 : Kernel) (qs2 : ℕ → List ℕ) (q1 : Queues now k1 (alloc_lists qs p ps))
      (same1 : k1 ≡ record k { links = k1.links; pcbs = put k.pcbs p zero_pcb })
      (e : Enqueued now (prepared k1) (alloc_lists qs p ps) p k2 qs2) where
    tables2 : Tables now k2 qs2
    tables2 = record {
      queues = e.queues;
      every = λ j lt. ground (
        arith,
        s.every j lt,
        ap (has j) (e.others asl (omega arith)),
        ap (has j) (e.others semd_free (omega arith)),
      );
      free_live = new_heads.free_live;
      places = new_heads.places;
    }

    nobodys : IsOff now qs2 2 p
    nobodys h live_h via = ground (arith, e.others h, off h)

    running2 : k2.current_proc ≡ some c
    running2 =
        ap (λ (n : Kernel). n.current_proc) e.same
        ∙ ap (λ (n : Kernel). n.current_proc) same1
        ∙ running

    module _ (k3 : Kernel)
        (lists3 : Lists now k3.links (put qs2 (p_child c) (qs2 (p_child c) ++ p ∷ [])))
        (same3 : Reparented k2 p (some c) k3) where
      abbrev lists_now : ℕ → List ℕ
      lists_now = put qs2 (p_child c) (qs2 (p_child c) ++ p ∷ [])

      same_line : lists_now ready_queue ≡ qs2 ready_queue
      same_line = ground arith

      tables3 : Tables now k3 lists_now
      tables3 =
          Tables-put tables2 k3 (p_child c) (qs2 (p_child c) ++ p ∷ []) (omega arith) (omega arith)
            (omega arith) lists3
            (λ i on. ground (
              arith,
              inside,
              has-append i (qs2 (p_child c)) (p ∷ []),
              e.queues.semaphores.inside (p_child c) i,
            ))
            (ap (λ (n : Kernel). n.s_keys) same3)
            (λ i. (
              ap (λ (n : Kernel). (n.pcbs i).p_semkey) same3 ∙ ground arith,
              ap (λ (n : Kernel). (n.pcbs i).priority) same3 ∙ ground arith,
            ))
            (rw same_line e.queues.ordered)

      current3 : k3.current_proc ≡ k.current_proc
      current3 =
          ap (λ (n : Kernel). n.current_proc) same3
          ∙ ap (λ (n : Kernel). n.current_proc) e.same
          ∙ ap (λ (n : Kernel). n.current_proc) same1

      pcbs3 :
          (i : ℕ)
          → k3.pcbs i ≡ (
              if i == p
              then record zero_pcb {
                p_s = k.states state;
                original_priority = priority;
                priority = priority;
                p_parent = some c;
              }
              else k.pcbs i)
      pcbs3 i =
          rw
            (
              ap (λ (n : Kernel). n.pcbs) same3,
              ap (λ (n : Kernel). n.pcbs) e.same,
              ap (λ (n : Kernel). n.pcbs) same1,
              ap (λ (n : Kernel). n.states) same1,
            )
            (elim (Bool-cases (i == p)) [
              | inl here ↦ rw (here, ==_refl p) refl
              | inr there ↦ rw there refl
            ])

      kin : Family now k3 lists_now
      kin =
          let (small, off_c) = s.running c running in
          adopted k s.family p c ps k3 lists_now whole first_only
            (ground (arith, e.others pcb_free_head)) (ground (arith, e.others (p_child p), other))
            (ground (arith, e.others (p_child c), other))
            (λ h via ne_p ne_c. ground (arith, e.others h)) small
            (off_c pcb_free_head s.heads.free_live refl)
            (ap (λ (x : Pcb). x.p_parent) (pcbs3 p) ∙ rw (==_refl p) refl)
            (λ i ne.
              let not_here : (i == p) ≡ false = ground arith in
              ap (λ (x : Pcb). x.p_parent) (pcbs3 i) ∙ rw not_here refl)

      sound3 : Sound now k3 lists_now
      sound3 = record {
        queues = tables3.queues;
        heads = new_heads;
        family = kin;
        every = tables3.every;
        running = λ d f.
            let (small, away) = s.running d (sym current3 ∙ f) in
            (
              small,
              λ h live_h via. elim (Bool-cases (h == ready_queue)) [
                | inl ready ↦
                    let ready' : h ≡ ready_queue = ground arith in
                    rw ready' (
                      ap (has d) (same_line ∙ e.ready)
                      ∙ has-insert_by (λ i. (k2.pcbs i).priority) d p
                          (alloc_lists qs p ps ready_queue)
                      ∙ ground (arith, not_new d away, away ready_queue s.queues.ready_live refl))
                | inr elsewhere ↦ ground (arith, e.others h, away h, ap (has d) whole)
              ],
            );
      }

      levels3 : ◌≡◌ {A = ℕ → ℕ} (λ i. (k3.pcbs i).priority) (λ i. (k2.pcbs i).priority)
      levels3 = fun_ext λ i. ap (λ (n : Kernel). (n.pcbs i).priority) same3 ∙ ground arith

      told : Kernel
      told = record k3 {
        words = if cpid == null then k3.words else put k3.words cpid (pid_word (some p));
      }

      store_if-told : store_if cpid (pid_word (some p)) k3 ≡ ok tt told
      unfolding told
      store_if-told = elim (Bool-cases (cpid == null)) [
        | inl nowhere ↦ rw nowhere refl
        | inr given ↦ rw given refl
      ]

      words3 : k3.words ≡ k.words
      words3 =
          ap (λ (n : Kernel). n.words) same3
          ∙ ap (λ (n : Kernel). n.words) e.same
          ∙ ap (λ (n : Kernel). n.words) same1

      told-Created : Created live k qs state priority cpid c p ps told lists_now
      unfolding told
      told-Created = record {
        sound = Sound-frame k3 sound3 told refl refl refl refl;
        free = ground (arith, e.others pcb_free_head);
        ready =
            same_line
            ∙ e.ready
            ∙ ap (λ f. insert_by f p (alloc_lists qs p ps ready_queue)) (sym levels3)
            ∙ ap (insert_by (λ i. (k3.pcbs i).priority) p)
                (same_ready k s.queues p ps s.heads.free_live whole);
        siblings = ground (arith, e.others (p_child c), other);
        childless = ground (arith, e.others (p_child p), other);
        lists = λ h a b d f. ground (arith, e.others h);
        created = pcbs3 p ∙ rw (==_refl p) refl;
        others =
            λ i ne. let not_here : (i == p) ≡ false = ground arith in pcbs3 i ∙ rw not_here refl;
        words = ap (λ ws. if cpid == null then ws else put ws cpid (pid_word (some p))) words3;
        current = current3;
      }

  pub first_free-Created :
      Returns
        (λ r k'.
          (r ≡ syscall_success)
          × ((qs' : ℕ → List ℕ) × Created live k qs state priority cpid c p ps k' qs'))
        (create_process state priority cpid k)
  unfolding create_process create_with load_state
  first_free-Created =
      Returns-bind _ _ (pcb_alloc k) _
        (pcb_alloc-Queues k s.queues p ps s.heads.free_live whole off)
        λ o k1 (got, q1, same1).
          rw (got, there)
            (Returns-bind _ _ (scheduler_enqueue_process p (prepared k1)) _
              (scheduler_enqueue_process_lem (prepared k1) p
                (Queues-frame (prepared k1) q1 refl refl λ i. (ground arith, ground arith))
                (alloc-IsOff k s.queues p ps s.heads.free_live whole) (inside))
              λ _ k2 (qs2, e).
                Returns-deref _ k2.current_proc c k2 _ (running2 k1 k2 qs2 q1 same1 e) (
                  Returns-bind _ _ (pcb_insert_child c p k2) _
                    (pcb_insert_child_lem k2 e.queues.semaphores.lists c p (ground arith)
                      (nobodys k1 k2 qs2 q1 same1 e))
                    λ _ k3 (lists3, same3).
                      rw (store_if-told k1 k2 qs2 q1 same1 e k3 lists3 same3) (
                        refl,
                        (
                          lists_now k1 k2 qs2 q1 same1 e k3 lists3 same3,
                          told-Created k1 k2 qs2 q1 same1 e k3 lists3 same3,
                        ),
                      )))
