-- ===== src/Kernel/Interrupts.antt =====
-- `interrupts_handler` of src/interrupts.c from entry to `LDST`, in a sound kernel.
use mathlib.Core.List.{append-nil, reverse_aux}
use bi_kaya.Base.{
  ℕ, ◌<◌, ◌≡◌, refl, ap, sym, subst, ◌∙◌, inl, inr, Bool, true, false, ◌||◌, ◌&&◌, ◌==◌, List, [],
  arith, if◌then◌else◌, tail, Bool-cases,
}
use bi_kaya.ListX.{put}
use bi_kaya.Types.{StateT}
use bi_kaya.Machine.{Kernel, Returns, Returns-map, Leaves, Leaves-bind, Leaves-map, ◌>>◌}
use bi_kaya.Umps.{
  int_oldarea, il_timer, il_disk, il_tape, il_ethernet, il_printer, il_terminal, int_is_pending,
  set_timer, bus_reg_timer, load_state,
}
use bi_kaya.Asl.Semaphores.{waiting}
use bi_kaya.Scheduler.{scheduler_account_time, scheduler_resume}
use bi_kaya.Scheduler.Time.{Accounted, Accounted-SameButClock, scheduler_account_time-Accounted}
use bi_kaya.Scheduler.Block.{waiting-frame}
use bi_kaya.Interrupts.{handle_interrupt, handle_lines, interrupts_handler, timer_ack, when}
use bi_kaya.Interrupts.Pending.{
  Request, only_if, line_requests, pending_requests, any_of, any_of-reverse_aux,
}
use bi_kaya.Kernel.Sound.{Accounted-Sound, Sound, Sound-frame, IsSound}
use bi_kaya.Kernel.Switches.{scheduler_resume-Sound}
use bi_kaya.Kernel.Served.{AreLow, Served, Attended}
use bi_kaya.Kernel.Devices.{Wakes, Wakes-seq, Wakes-if, handle_interrupt-Wakes}

or_false : (b : Bool) → (b || false) ≡ b
or_false true = refl
or_false false = refl

module _ (live : ℕ → Bool) (k : Kernel) (qs : ℕ → List ℕ) where
  line_if :
      (test : Bool) (line : ℕ)
      → line < 8
      → Wakes live k qs
          (only_if test (line_requests k.words line))
          (when test (handle_interrupt line))
  line_if test line few =
      Wakes-if live k qs test (line_requests k.words line) (handle_interrupt line)
        (handle_interrupt-Wakes live k qs line (omega arith))

  handle_lines-Wakes :
      (cause : ℕ) → Wakes live k qs (pending_requests k.words cause) (handle_lines cause)
  unfolding handle_lines
  handle_lines-Wakes cause =
      let step = Wakes-seq live k qs in
      step _ _ _ _ (line_if (int_is_pending cause il_disk) il_disk (omega arith)) (
        step _ _ _ _ (line_if (int_is_pending cause il_tape) il_tape (omega arith)) (
          step _ _ _ _ (line_if (int_is_pending cause il_ethernet) il_ethernet (omega arith)) (
            step _ _ _ _ (line_if (int_is_pending cause il_printer) il_ethernet (omega arith))
              (line_if (int_is_pending cause il_terminal) il_terminal (omega arith)))))

  -- `k1` is as good as `k` to begin with.
  lines_from :
      (cause : ℕ) (k1 : Kernel)
      → Served live k qs [] k1
      → Attended k qs [] (pending_requests k.words cause)
      → Returns
          (λ _ k'. Served live k qs (pending_requests k.words cause) k')
          (handle_lines cause k1)
  lines_from cause k1 v attended =
      let requests = pending_requests k.words cause in
      Returns-map _ _ (handle_lines cause k1)
        (handle_lines-Wakes cause [] [] k1
          (v, subst (Attended k qs []) (sym (append-nil requests)) attended))
        λ _ k' (w, _).
          let whole : (test : Request → Bool)
              → any_of test (reverse_aux requests []) ≡ any_of test requests =
            λ test. any_of-reverse_aux test requests [] ∙ or_false (any_of test requests) in
          record {
            qs' = w.qs';
            sound = w.sound;
            reads = w.reads;
            waits = λ key.
                w.waits key
                ∙ ap (λ b. if b then tail (waiting k qs key) else waiting k qs key)
                    (whole (λ r. r.0 == key));
            woken = λ key status req.
                w.woken key status (whole (λ r. (r.0 == key) && (r.1 == status)) ∙ req);
            stays = w.stays;
            unready = w.unready;
            originals = w.originals;
            low = w.low;
            current = w.current;
          }

-- `handle_lines`, in a sound state in which no priority is near the largest, where somebody waits
-- for each device that has an interrupt on a pending line and no two of these devices have the same
-- key, returns: for each of these keys, which `pending_requests` reads off the registers with the
-- status of the device, the first process that waited is in the ready queue at its original
-- priority, with that status as the result of its system call, and no other process that waits has
-- left its queue; the processes that were ready still are, with the priority and the state that they
-- had, the registers that the handler reads are as before, and the kernel is sound again.
pub handle_lines-Served :
    {live : ℕ → Bool} (k : Kernel) (qs : ℕ → List ℕ) (cause : ℕ)
    → Sound live k qs
    → AreLow k
    → Attended k qs [] (pending_requests k.words cause)
    → Returns (λ _ k'. Served live k qs (pending_requests k.words cause) k') (handle_lines cause k)
handle_lines-Served {live} k qs cause s low attended =
    lines_from live k qs cause k
      (record {
        qs' = qs;
        sound = s;
        reads = λ a read. refl;
        waits = λ key. refl;
        woken = λ key status req. ground arith;
        stays = λ i on. (on, refl, refl);
        unready = λ i off. refl;
        originals = λ i. refl;
        low = low;
        current = refl;
      })
      attended

-- `interrupts_handler`, entered in a sound state in which no priority is near the largest, where
-- somebody waits for each device that has an interrupt on a pending line and no two of these devices
-- have the same key, leaves the kernel, and the kernel is sound, whether a time slice has ended or
-- not.
pub interrupts_handler-Sound :
    {live : ℕ → Bool} (k : Kernel) (qs : ℕ → List ℕ)
    → Sound live k qs
    → AreLow k
    → Attended k qs [] (pending_requests k.words (k.states int_oldarea).cause)
    → Leaves (λ _ k'. IsSound live k') (interrupts_handler k)
unfolding interrupts_handler load_state set_timer
interrupts_handler-Sound {live} k qs s low attended =
    Leaves-bind _ _ (scheduler_account_time false k) _ (scheduler_account_time-Accounted false k)
      λ _ k1 a. elim (Bool-cases (int_is_pending (k1.states int_oldarea).cause il_timer)) [
        | inl over ↦ rw over (
            rest k1 a true (record k1 { words = put k1.words bus_reg_timer timer_ack })
              (timed k1 a))
        | inr early ↦ rw early (rest k1 a false k1 (counted k1 a))
      ]
  where
    counted : (k1 : Kernel) → Accounted false k k1 → Served live k qs [] k1
    counted k1 a = record {
      qs' = qs;
      sound = Accounted-Sound k s false k1 a;
      reads = λ b read. ap (λ (m : Kernel). m.words b) a.same;
      waits = λ key. waiting-frame k k1 qs key (ap (λ (m : Kernel). m.s_keys) a.same);
      woken = λ key status req. ground arith;
      stays =
          λ i on. let same = Accounted-SameButClock false k k1 a i in (on, same.priority, same.p_s);
      unready = λ i off. (Accounted-SameButClock false k k1 a i).p_s;
      originals = λ i. (Accounted-SameButClock false k k1 a i).original_priority;
      low = λ i lt.
          let same = Accounted-SameButClock false k k1 a i in
          (rw same.priority (low i lt).0, rw same.original_priority (low i lt).1);
      current = ap (λ (m : Kernel). m.current_proc) a.same;
    }

    timed :
        (k1 : Kernel)
        → Accounted false k k1
        → Served live k qs [] (record k1 { words = put k1.words bus_reg_timer timer_ack })
    timed k1 a =
        let v = counted k1 a in
        record {
          qs' = qs;
          sound = Sound-frame k1 v.sound _ refl refl refl refl;
          reads = λ b read. ground (arith, v.reads b read);
          waits = λ key. waiting-frame k1 _ qs key refl ∙ v.waits key;
          woken = λ key status req. ground arith;
          stays = v.stays;
          unready = v.unready;
          originals = v.originals;
          low = v.low;
          current = v.current;
        }

    rest :
        (k1 : Kernel)
        → Accounted false k k1
        → (ended : Bool) (k2 : Kernel) → Served live k qs [] k2
        → Leaves
            (λ _ k'. IsSound live k')
            ((handle_lines (k1.states int_oldarea).cause >> scheduler_resume ended int_oldarea) k2)
    rest k1 a ended k2 v =
        Leaves-bind _ _ (handle_lines (k1.states int_oldarea).cause k2) _
          (lines_from live k qs (k1.states int_oldarea).cause k2 v (
            subst
              (λ (f : ℕ → StateT).
                Attended k qs [] (pending_requests k.words (f int_oldarea).cause))
              (sym (ap (λ (m : Kernel). m.states) a.same)) attended))
          λ _ k3 w.
            Leaves-map _ _ (scheduler_resume ended int_oldarea k3)
              (scheduler_resume-Sound k3 w.sound ended int_oldarea (λ p e. refl)
                (λ over i lt. (w.low i lt).0))
              λ _ k' sound. sound
