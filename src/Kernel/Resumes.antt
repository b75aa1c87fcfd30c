-- ===== src/Kernel/Resumes.antt =====
-- `scheduler_resume` does what `Spec` says.
use bi_kaya.Base.{
  ℕ, ◌≡◌, refl, ap, sym, subst, fun_ext, ◌∙◌, inl, inr, Bool, true, false, none, some, arith, ◌==◌,
  if◌then◌else◌, All-of_has,
}
use bi_kaya.ListX.{put}
use bi_kaya.Types.{StateT, ready_queue}
use bi_kaya.Machine.{Kernel, Leaves, Leaves-map}
use bi_kaya.Umps.{sysbk_oldarea}
use bi_kaya.Pcb.Insert.{insert_by}
use bi_kaya.Scheduler.{scheduler_resume}
use bi_kaya.Scheduler.Block.{waiting-frame}
use bi_kaya.Syscalls.Verhogen.{waiting-elsewhere}
use bi_kaya.Kernel.Sound.{Accounted-Sound}
use bi_kaya.Kernel.Switches.{Dispatched-Sound, Preempted-Sound}
use bi_kaya.Scheduler.Run.{Selected}
use bi_kaya.Scheduler.Preempt.{Preempted, aged_pcbs}
use bi_kaya.Scheduler.Time.{Accounted, Accounted-SameButClock}
use bi_kaya.Scheduler.Resume.{Resumed, scheduler_resume-Leaves}
use bi_kaya.Kernel.Spec.{Spec, resume, spec_resume, spec_step, take_first, aged_levels, Allowed}
use bi_kaya.Kernel.Implements.{Implements}

module _ {live : ℕ → Bool} (k : Kernel) (s : Spec) (m : Implements live k s) where
  resume_idle :
      (st : StateT) (k' : Kernel)
      → k.current_proc ≡ none
      → Selected k m.sound.queues st k'
      → Implements live k' (take_first s.ready s)
  resume_idle st k' e (inl (empty, _, same)) =
      subst (λ xs. Implements live k' (take_first xs s)) (sym (m.ready ∙ empty))
        (subst (λ n. Implements live n s) (sym same) m)
  resume_idle st k' e (inr (p, ps, whole, d)) = rw (m.ready ∙ whole) (record {
    qs = put m.qs ready_queue ps;
    sound = Dispatched-Sound k m.sound p ps st k' whole d;
    ready = refl;
    waits = λ o.
        m.waits o
        ∙ sym (
            waiting-elsewhere k' m.qs (put m.qs ready_queue ps) o (λ h ne. ground arith)
            ∙ waiting-frame k k' m.qs o d.keys);
    running = sym d.current;
    value = λ a ne. m.value a ne ∙ sym (d.words a ne);
    base = λ i. m.base i ∙ sym (d.kept i).1;
    level = λ i. m.level i ∙ sym (d.kept i).0;
  })

  resume_on : (k' : Kernel) → Accounted true k k' → Implements live k' s
  resume_on k' a = record {
    qs = m.qs;
    sound = Accounted-Sound k m.sound true k' a;
    ready = m.ready;
    waits = λ o. m.waits o ∙ sym (waiting-frame k k' m.qs o (ap (λ (n : Kernel). n.s_keys) a.same));
    running = m.running ∙ sym (ap (λ (n : Kernel). n.current_proc) a.same);
    value = λ b ne. m.value b ne ∙ sym (ap (λ (n : Kernel). n.words b) a.same);
    base = λ i. m.base i ∙ sym (Accounted-SameButClock true k k' a i).original_priority;
    level = λ i. m.level i ∙ sym (Accounted-SameButClock true k k' a i).priority;
  }

  resume-Preempted :
      (c : ℕ) (old st : StateT) (k' : Kernel)
      → k.current_proc ≡ some c
      → Preempted live k m.qs c old st k'
      → Implements live k' (spec_resume true (some c) s)
  resume-Preempted c old st k' e r = rw (line ∙ sym r.line) (record {
    qs = r.qs';
    sound = Preempted-Sound k m.sound c old st k' e r;
    ready = refl;
    waits = λ o.
        m.waits o
        ∙ sym (waiting-elsewhere k' m.qs r.qs' o r.others ∙ waiting-frame k k' m.qs o r.keys);
    running = sym r.current;
    value = λ a ne. m.value a ne ∙ sym (r.words a ne);
    base = λ i. m.base i ∙ sym (r.originals i);
    level = λ i. levels i ∙ sym (r.priorities i);
  })
    where
      after : ℕ → ℕ
      after i = if i == c then (k.pcbs c).original_priority else (aged_pcbs k m.qs i).priority

      levels : (i : ℕ) → aged_levels s c i ≡ after i
      levels i = rw m.ready (ground (arith, m.base c, m.level i))

      line : insert_by (aged_levels s c) c s.ready ≡ insert_by after c (m.qs ready_queue)
      line =
          ap (λ xs. insert_by (aged_levels s c) c xs) m.ready
          ∙ ap (λ f. insert_by f c (m.qs ready_queue)) (fun_ext levels)

  pub resume-Implements :
      (ended : Bool)
      → Allowed (resume ended) s
      → Leaves
          (λ _ k'. Implements live k' (spec_step (resume ended) s))
          (scheduler_resume ended sysbk_oldarea k)
  resume-Implements ended allowed =
      Leaves-map _ _ (scheduler_resume ended sysbk_oldarea k)
        (scheduler_resume-Leaves k ended sysbk_oldarea m.sound.queues
          (λ p e. (refl, (m.sound.running p e).0, (m.sound.running p e).1))
          (λ over. All-of_has _ (m.qs ready_queue) λ i on. rw (m.level i) at (
            allowed i
              (m.sound.queues.semaphores.inside ready_queue i m.sound.queues.ready_live on))))
        λ st k' r.
          subst (λ o. Implements live k' (spec_resume ended o s)) (sym m.running) (go ended st k' r)
    where
      go :
          (t : Bool) (st : StateT) (k' : Kernel)
          → Resumed k m.sound.queues t sysbk_oldarea st k'
          → Implements live k' (spec_resume t k.current_proc s)
      go true st k' (inl (e, sel)) = rw e (resume_idle st k' e sel)
      go false st k' (inl (e, sel)) = rw e (resume_idle st k' e sel)
      go true st k' (inr (inl (p, e, unended, _, _, _))) = cc
      go false st k' (inr (inl (p, e, _, _, _, a))) = rw e (resume_on k' a)
      go true st k' (inr (inr (p, e, _, r))) = rw e (resume-Preempted p _ st k' e r)
      go false st k' (inr (inr (p, e, ended', r))) = cc
