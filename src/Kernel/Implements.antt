-- ===== src/Kernel/Implements.antt =====
-- The memory that stands for a state of `Spec`, and that `verhogen` and `passeren` do on it what `Spec` says.
use bi_kaya.Base.{
  ℕ, ◌+◌, ◌-◌, ◌%◌, ◌<◌, ◌≡◌, ◌≢◌, refl, ap, sym, subst, fun_ext, ◌∙◌, inl, inr, Bool, true, false,
  some, List, [], ◌∷◌, arith, ◌==◌, head?, tail, Bool-cases,
}
use bi_kaya.ListX.{put}
use bi_kaya.Types.{StateT, null, word_size, ready_queue}
use bi_kaya.Machine.{Kernel, Returns, Returns-map}
use bi_kaya.Umps.{bus_reg_timer, sysbk_oldarea}
use bi_kaya.Asl.Semaphores.{waiting}
use bi_kaya.Scheduler.Block.{Blocked, waiting-frame}
use bi_kaya.Syscalls.{verhogen, passeren}
use bi_kaya.Syscalls.Verhogen.{Readied, Raised, verhogen-Raised}
use bi_kaya.Kernel.Sound.{Sound, Sound-frame, Readied-Sound}
use bi_kaya.Kernel.Switches.{PassedOrBlocked, passeren-PassedOrBlocked}
use bi_kaya.Kernel.Spec.{Spec, raise, pass, spec_raise, spec_pass, spec_step}

-- The memory `k` stands for `s`. The timer is a word that the scheduler writes.
pub record Implements (live : ℕ → Bool) (k : Kernel) (s : Spec) : Type 0 where
  pub qs : ℕ → List ℕ
  pub sound : Sound live k qs
  pub ready : s.ready ≡ qs ready_queue
  pub waits : (key : ℕ) → s.waiting key ≡ waiting k qs key
  pub running : s.running ≡ k.current_proc
  pub value : (a : ℕ) → a ≢ bus_reg_timer → s.value a ≡ k.words a
  pub base : (i : ℕ) → s.base i ≡ (k.pcbs i).original_priority
  pub level : (i : ℕ) → s.level i ≡ (k.pcbs i).priority

module _ {live : ℕ → Bool} (k : Kernel) (s : Spec) (m : Implements live k s) where
  raise_empty :
      (key : ℕ)
      → key ≢ bus_reg_timer
      → Implements live
          (record k { words = put k.words key ((k.words key + 1) % word_size) })
          (spec_raise key [] s)
  raise_empty key ne = record {
    qs = m.qs;
    sound = Sound-frame k m.sound _ refl refl refl refl;
    ready = m.ready;
    waits = λ o. m.waits o ∙ waiting-frame _ _ m.qs o refl;
    running = m.running;
    value = λ a not_timer. ground (arith, m.value a not_timer, m.value key ne);
    base = m.base;
    level = m.level;
  }

  raise_first :
      (key p : ℕ) (ps : List ℕ) (k' : Kernel) (qs' : ℕ → List ℕ)
      → waiting k m.qs key ≡ p ∷ ps
      → Readied k m.sound.queues key p k' qs'
      → Implements live k' (spec_raise key (p ∷ ps) s)
  raise_first key p ps k' qs' whole r = record {
    qs = qs';
    sound = Readied-Sound k m.sound key p k' qs' r;
    ready = rw (m.ready, fun_ext level') (sym r.ready);
    waits = λ o. elim (Bool-cases (o == key)) [
      | inl same ↦
          let same' : o ≡ key = ground arith in rw (same, same') (sym (r.remaining ∙ ap tail whole))
      | inr other ↦ rw other (m.waits o ∙ sym (r.others o (ground arith)))
    ];
    running = m.running ∙ sym (ap (λ (n : Kernel). n.current_proc) r.same);
    value = λ a ne. m.value a ne ∙ sym (ap (λ (n : Kernel). n.words a) r.same);
    base = λ i. rw (ap (λ (n : Kernel). n.pcbs) r.same) (ground (arith, m.base i));
    level = level';
  }
    where
      level' : (i : ℕ) → put s.level p (s.base p) i ≡ (k'.pcbs i).priority
      level' i = rw (ap (λ (n : Kernel). n.pcbs) r.same) (ground (arith, m.level i, m.base p))

  pub raise-Implements :
      (key : ℕ)
      → (key == null) ≡ false
      → key ≢ bus_reg_timer
      → Returns (λ _ k'. Implements live k' (spec_step (raise key) s)) (verhogen key k)
  raise-Implements key there ne =
      Returns-map _ _ (verhogen key k) (verhogen-Raised k m.sound.queues key there)
        λ _ k' r. rw (m.waits key) (go (waiting k m.qs key) k' refl r)
    where
      go :
          (xs : List ℕ) (k' : Kernel)
          → waiting k m.qs key ≡ xs
          → Raised k m.sound.queues key k'
          → Implements live k' (spec_raise key xs s)
      go [] k' e (inl (_, same)) = rw same (raise_empty key ne)
      go [] k' e (inr (p, qs', r)) = ground (arith, sym r.first ∙ ap head? e)
      go (x ∷ xs) k' e (inl (empty, _)) = ground (arith, ap head? (sym empty ∙ e))
      go (x ∷ xs) k' e (inr (p, qs', r)) =
          let first : x ≡ p = ground (arith, sym r.first ∙ ap head? e) in
          rw first (raise_first key p xs k' qs' (rw first at e) r)

  pass_lower :
      (key p : ℕ)
      → key ≢ bus_reg_timer
      → k.words key ≢ 0
      → Implements live
          (record k { words = put k.words key (k.words key - 1) })
          (spec_pass key (some p) s)
  pass_lower key p ne there =
      let positive : (s.value key == 0) ≡ false = ground (arith, m.value key ne) in
      rw positive (record {
        qs = m.qs;
        sound = Sound-frame k m.sound _ refl refl refl refl;
        ready = m.ready;
        waits = λ o. m.waits o ∙ waiting-frame _ _ m.qs o refl;
        running = m.running;
        value = λ a not_timer. ground (arith, m.value a not_timer, m.value key ne);
        base = m.base;
        level = m.level;
      })

  pass-Blocked :
      (key p : ℕ) (st : StateT) (k' : Kernel) (qs' : ℕ → List ℕ)
      → key ≢ bus_reg_timer
      → k.words key ≡ 0
      → Blocked live k m.qs key p st k' qs'
      → Sound live k' qs'
      → Implements live k' (spec_pass key (some p) s)
  pass-Blocked key p st k' qs' ne closed b sound =
      let none_left : (s.value key == 0) ≡ true = ground (arith, m.value key ne) in
      rw none_left (record {
        qs = qs';
        sound = sound;
        ready = m.ready ∙ sym (b.elsewhere ready_queue (omega arith) (omega arith) (omega arith));
        waits = λ o. elim (Bool-cases (o == key)) [
          | inl same ↦
              let same' : o ≡ key = ground arith in
              rw (same, same', m.waits key, fun_ext m.level) (sym b.joined)
          | inr other ↦ rw other (m.waits o ∙ sym (b.others o (ground arith)))
        ];
        running = sym b.current;
        value = λ a not_timer. m.value a not_timer ∙ sym (ap (λ ws. ws a) b.words);
        base = λ i. m.base i ∙ sym (b.levels i).1;
        level = λ i. m.level i ∙ sym (b.levels i).0;
      })

  pub pass-Implements :
      (key p : ℕ)
      → (key == null) ≡ false
      → key ≢ bus_reg_timer
      → s.value key < word_size
      → s.running ≡ some p
      → Returns (λ _ k'. Implements live k' (spec_step (pass key) s)) (passeren key k)
  pass-Implements key p there ne word e =
      Returns-map _ _ (passeren key k)
        (passeren-PassedOrBlocked k m.sound key p (sym m.running ∙ e) there
          (omega (arith, word, m.value key ne)))
        λ _ k' b. subst (λ o. Implements live k' (spec_pass key o s)) (sym e) (go k' b)
    where
      go :
          (k' : Kernel)
          → PassedOrBlocked k m.sound key p k'
          → Implements live k' (spec_pass key (some p) s)
      go k' (inl (positive, same)) = rw same (pass_lower key p ne positive)
      go k' (inr (closed, (qs', b, sound))) =
          pass-Blocked key p (k.states sysbk_oldarea) k' qs' ne closed b sound
