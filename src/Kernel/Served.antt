-- ===== src/Kernel/Served.antt =====
-- What the device lines in `interrupts_handler` of src/interrupts.c have done in a sound kernel so far.
use bi_kaya.Base.{
  ℕ, ◌-◌, ◌%◌, ◌<◌, ◌≤◌, ◌≡◌, ◌≢◌, refl, ap, sym, subst, ◌∙◌, inl, inr, ◌⊎◌, Bool, true, false,
  ◌||◌, ◌&&◌, some, none, Option, List, [], ◌∷◌, arith, ◌==◌, Bool-cases, if◌then◌else◌, has, head?,
  tail, ==_refl, find,
}
use bi_kaya.ListX.{put}
use bi_kaya.Types.{max_proc, rank, word_size, cmd_ack, ready_queue, s_proc_q, asl}
use bi_kaya.Types.Lists.{apart}
use bi_kaya.Machine.{Kernel, Returns, Returns-bind, ◌>>◌}
use bi_kaya.Umps.{dev_reg_start, bus_reg_timer, store_word, set_sysreturn}
use bi_kaya.Pcb.Insert.{has-insert_by}
use bi_kaya.Asl.Semaphores.{waiting, queue_at, found_key}
use bi_kaya.Scheduler.Queues.{Queues}
use bi_kaya.Scheduler.Block.{waiting-frame}
use bi_kaya.Interrupts.{unblock_process}
use bi_kaya.Interrupts.Unblock.{Unblocked, unblock_process-Unblocked}
use bi_kaya.Interrupts.Pending.{Request, for_key, requested}
use bi_kaya.Kernel.Sound.{Sound, Sound-frame, Unblocked-Sound}

-- The registers that the handler reads: `status` of the devices, and the bitmaps.
abbrev pub IsRead : ℕ → Type 0
IsRead a = (a ≢ bus_reg_timer) × ((a % 8 ≡ 0) ⊎ (a < dev_reg_start))

-- No priority wraps around when the processes age.
abbrev pub AreLow : Kernel → Type 0
AreLow k =
    (i : ℕ)
    → i < max_proc
    → (rank (k.pcbs i).priority < word_size - 1)
      × (rank (k.pcbs i).original_priority < word_size - 1)

-- The first process that waited for `key` at `k` is ready, at its original priority and with `status` as the
-- result of its system call.
pub record Woken (k : Kernel) (qs : ℕ → List ℕ) (key status : ℕ) (k' : Kernel) (qs' : ℕ → List ℕ)
    : Type 0 where
  pub p : ℕ
  pub first : head? (waiting k qs key) ≡ some p
  pub ready : has p (qs' ready_queue) ≡ true
  pub priority : (k'.pcbs p).priority ≡ (k.pcbs p).original_priority
  pub state : (k'.pcbs p).p_s ≡ set_sysreturn status (k.pcbs p).p_s

-- From `k` on, the first process that waited for each key of `done` has been woken.
pub record Served (live : ℕ → Bool) (k : Kernel) (qs : ℕ → List ℕ) (done : List Request)
    (k' : Kernel) : Type 0 where
  pub qs' : ℕ → List ℕ
  pub sound : Sound live k' qs'
  pub reads : (a : ℕ) → IsRead a → k'.words a ≡ k.words a
  pub waits :
      (key : ℕ)
      → waiting k' qs' key
        ≡ (if for_key key done then tail (waiting k qs key) else waiting k qs key)
  pub woken : (key status : ℕ) → requested key status done ≡ true → Woken k qs key status k' qs'
  pub stays :
      (i : ℕ)
      → has i (qs ready_queue) ≡ true
      → (has i (qs' ready_queue) ≡ true)
        × ((k'.pcbs i).priority ≡ (k.pcbs i).priority)
        × ((k'.pcbs i).p_s ≡ (k.pcbs i).p_s)
  pub unready : (i : ℕ) → has i (qs' ready_queue) ≡ false → (k'.pcbs i).p_s ≡ (k.pcbs i).p_s
  pub originals : (i : ℕ) → (k'.pcbs i).original_priority ≡ (k.pcbs i).original_priority
  pub low : AreLow k'
  pub current : k'.current_proc ≡ k.current_proc

-- Nobody has yet been woken for the keys, none is twice in the list, and somebody waits for each.
abbrev pub Attended : Kernel → (ℕ → List ℕ) → (done requests : List Request) → Type 0
Attended k qs done [] = Unit {0}
Attended k qs done ((key, status) ∷ requests) =
    (for_key key done ≡ false)
    × (waiting k qs key ≢ [])
    × Attended k qs ((key, status) ∷ done) requests

first_of : (xs : List ℕ) → xs ≢ [] → (p : ℕ) × (head? xs ≡ some p) × (has p xs ≡ true)
first_of [] ne = absurd (ne refl)
first_of (x ∷ xs) ne = (x, refl, ground (arith, ==_refl x))

-- Who waits is not ready.
waiting-unready :
    {live : ℕ → Bool} (k : Kernel) {qs : ℕ → List ℕ}
    → Queues live k qs
    → (key p : ℕ) → has p (waiting k qs key) ≡ true
    → has p (qs ready_queue) ≡ false
unfolding waiting queue_at
waiting-unready {live} k {qs} q key p = go (find (λ j. k.s_keys j == key) (qs asl)) refl
  where
    go :
        (o : Option ℕ)
        → find (λ j. k.s_keys j == key) (qs asl) ≡ o
        → has p (queue_at qs o) ≡ true
        → has p (qs ready_queue) ≡ false
    go none e h = ground arith
    go (some j) e h = elim (Bool-cases (has p (qs ready_queue))) [
      | inl both ↦
          let (active, _) = found_key q.semaphores.descriptors j key e in
          let same : s_proc_q j ≡ ready_queue =
            apart q.semaphores.lists (s_proc_q j) ready_queue p
              (q.semaphores.queues j (ground arith)) q.ready_live (ground arith) h both in
          absurd (omega arith)
      | inr apart_from ↦ apart_from
    ]

-- One more process has been woken, and the device has its acknowledgement.
module _ {live : ℕ → Bool} (k : Kernel) (qs : ℕ → List ℕ) (done : List Request) (k1 : Kernel)
    (v : Served live k qs done k1) (key status p : ℕ) (new : for_key key done ≡ false)
    (first : head? (waiting k1 v.qs' key) ≡ some p) (on : has p (waiting k1 v.qs' key) ≡ true)
    (k2 : Kernel) (qs2 : ℕ → List ℕ) (u : Unblocked live k1 v.qs' key status p k2 qs2) where
  before : waiting k1 v.qs' key ≡ waiting k qs key
  before = v.waits key ∙ rw new refl

  was_unready : has p (v.qs' ready_queue) ≡ false
  was_unready = waiting-unready k1 v.sound.queues key p on

  now_ready : (i : ℕ) → has i (qs2 ready_queue) ≡ ((i == p) || has i (v.qs' ready_queue))
  now_ready i =
      ap (has i) u.ready ∙ has-insert_by (λ j. (k2.pcbs j).priority) i p (v.qs' ready_queue)

  here : Woken k qs key status k2 qs2
  here = record {
    p = p;
    first = ap head? (sym before) ∙ first;
    ready = ground (arith, now_ready p, ==_refl p);
    priority = (u.priorities p).1 ∙ rw (==_refl p) (v.originals p);
    state = u.states p ∙ rw (==_refl p) (ap (set_sysreturn status) (v.unready p was_unready));
  }

  -- Who was ready still is, and is not `p`.
  still :
      (i : ℕ)
      → has i (v.qs' ready_queue) ≡ true
      → (has i (qs2 ready_queue) ≡ true)
        × ((k2.pcbs i).priority ≡ (k1.pcbs i).priority)
        × ((k2.pcbs i).p_s ≡ (k1.pcbs i).p_s)
  still i ready =
      let other : (i == p) ≡ false = ground (arith, was_unready) in
      (ground (arith, now_ready i), (u.priorities i).1 ∙ rw other refl, u.states i ∙ rw other refl)

  earlier : (o st : ℕ) → Woken k qs o st k1 v.qs' → Woken k qs o st k2 qs2
  earlier o st w =
      let (ready, level, state) = still w.p w.ready in
      record {
        p = w.p;
        first = w.first;
        ready = ready;
        priority = level ∙ w.priority;
        state = state ∙ w.state;
      }

  requested-Woken :
      (o st : ℕ) → requested o st ((key, status) ∷ done) ≡ true → Woken k qs o st k2 qs2
  requested-Woken o st req = elim (Bool-cases ((key == o) && (status == st))) [
    | inl it ↦
        let key' : key ≡ o = ground arith in
        let status' : status ≡ st = ground arith in
        subst (λ x. Woken k qs x st k2 qs2) key' (subst (λ x. Woken k qs key x k2 qs2) status' here)
    | inr other ↦ earlier o st (v.woken o st (ground arith))
  ]

  next_Served :
      (a : ℕ)
      → (a % 8 ≡ 4) × (dev_reg_start ≤ a)
      → Served live k qs ((key, status) ∷ done) (record k2 { words = put k2.words a cmd_ack })
  next_Served a (odd, high) = record {
    qs' = qs2;
    sound =
        Sound-frame k2 (Unblocked-Sound k1 v.sound key status p k2 qs2 first u) _ refl refl refl
          refl;
    reads = λ b read. ground (arith, ap (λ f. f b) u.words, v.reads b read);
    waits = λ o. waiting-frame k2 _ qs2 o refl ∙ elim (Bool-cases (key == o)) [
      | inl same ↦
          let same' : o ≡ key = ground arith in
          rw (same', ==_refl key) (u.remaining ∙ ap tail before)
      | inr other ↦ rw other (u.others o (ground arith) ∙ v.waits o)
    ];
    woken = λ o st req.
        let w = requested-Woken o st req in
        record {
          p = w.p;
          first = w.first;
          ready = w.ready;
          priority = w.priority;
          state = w.state;
        };
    stays = λ i ready.
        let (at, level, state) = v.stays i ready in
        let (at', level', state') = still i at in (at', level' ∙ level, state' ∙ state);
    unready = λ i not_ready.
        let other : (i == p) ≡ false = ground (arith, now_ready i) in
        u.states i ∙ rw other (v.unready i (ground (arith, now_ready i)));
    originals = λ i. (u.priorities i).0 ∙ v.originals i;
    low = λ i lt.
        let (base, level) = u.priorities i in
        let (was, base_was) = v.low i lt in
        (
          rw level (elim (Bool-cases (i == p)) [
            | inl it ↦ let same : i ≡ p = ground arith in rw it (rw same at base_was)
            | inr other ↦ rw other was
          ]),
          rw base base_was,
        );
    current = u.current ∙ v.current;
  }

module _ (live : ℕ → Bool) (k : Kernel) (qs : ℕ → List ℕ) where
  -- What is left to do is `rest`.
  abbrev pub Serves : List Request → List Request → Kernel → Type 0
  Serves done rest k' = Served live k qs done k' × Attended k qs done rest

  pub wake_and_acknowledge :
      (key status a : ℕ) (done rest : List Request) (k1 : Kernel)
      → (a % 8 ≡ 4) × (dev_reg_start ≤ a)
      → Serves done ((key, status) ∷ rest) k1
      → Returns
          (λ _ k'. Serves ((key, status) ∷ done) rest k')
          ((unblock_process key status >> store_word a cmd_ack) k1)
  wake_and_acknowledge key status a done rest k1 at (v, (new, somebody, others)) =
      let (p, first, on) =
        first_of (waiting k1 v.qs' key) (λ e. somebody (sym (v.waits key ∙ rw new refl) ∙ e)) in
      Returns-bind _ _ (unblock_process key status k1) _
        (unblock_process-Unblocked k1 v.sound.queues key status p first)
        λ _ k2 (qs2, u).
          (next_Served k qs done k1 v key status p new first on k2 qs2 u a at, others)
