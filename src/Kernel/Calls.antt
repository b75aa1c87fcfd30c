-- ===== src/Kernel/Calls.antt =====
-- `syscall_handler` of src/syscalls.c as a whole.
use bi_kaya.Base.{
  ℕ, ◌%◌, ◌<◌, ◌≡◌, refl, ap, ◌∙◌, inl, inr, Bool, true, false, Option, none, some, List, arith,
  ◌==◌, Bool-cases,
}
use bi_kaya.Types.{StateT, max_proc, null, word_size}
use bi_kaya.Machine.{Kernel, Run, and_then, ◌>>=◌, Returns, Returns-bind, Returns-deref}
use bi_kaya.Machine.Ends.{Ends, Ends-case, Ends-bind, Returns-Ends, Leaves-Ends}
use bi_kaya.Umps.{sysbk_oldarea, sysarg, get_todlo, load_state, store_state}
use bi_kaya.Scheduler.{scheduler_account_time, specpassup_sysbk_type}
use bi_kaya.Scheduler.Time.{scheduler_account_time-Accounted}
use bi_kaya.Syscalls.{
  createprocess, terminateprocess, passeren_no, specpassup, getcputime, verhogen_no, waitio, getpid,
  or_current, word_pid, get_cpu_time, get_pid, sysreturn, syscall, create_process,
  terminate_process,
}
use bi_kaya.Kernel.Alloc.{alloc_live}
use bi_kaya.Kernel.Sound.{Accounted-Sound, Sound, Sound-frame, IsSound, Stands, verhogen-Sound}
use bi_kaya.Kernel.Ancestors.{Spares}
use bi_kaya.Kernel.Created.{CreatedOrFull}
use bi_kaya.Kernel.Create.{create_process-CreatedOrFull}
use bi_kaya.Kernel.Switches.{passeren-Sound}
use bi_kaya.Kernel.Terminate.{Terminated, terminate_process-Sound}
use bi_kaya.Kernel.PassUp.{BothAreas, scheduler_handle_exception-Sound, spec_pass_up-Sound}
use bi_kaya.Kernel.Waits.{wait_io-Sound}

-- What the kernel does not test: the process `c` that calls has put a state, a target, the type of an
-- exception, a semaphore, a device and places for times into its registers where the call is about them.
pub record Proper (k : Kernel) (s : StateT) (c : ℕ) : Type 0 where
  pub given : sysarg s 0 ≡ createprocess → (sysarg s 1 == null) ≡ false
  pub target :
      (p : ℕ)
      → sysarg s 0 ≡ terminateprocess
      → or_current (word_pid (sysarg s 1)) (some c) ≡ some p
      → (p < max_proc) × Spares k p
  pub times :
      sysarg s 0 ≡ getcputime
      → ((sysarg s 1 == null) ≡ false)
        × ((sysarg s 2 == null) ≡ false)
        × ((sysarg s 3 == null) ≡ false)
  pub raised : sysarg s 0 ≡ verhogen_no → (sysarg s 1 == null) ≡ false
  pub lowered : sysarg s 0 ≡ passeren_no → (sysarg s 1 == null) ≡ false
  pub device : sysarg s 0 ≡ waitio → (sysarg s 2 == null) ≡ false
  pub word : sysarg s 0 ≡ passeren_no → k.words (sysarg s 1) < word_size
  pub type : sysarg s 0 ≡ specpassup → sysarg s 1 < 3
  pub areas : BothAreas k specpassup_sysbk_type c

module _ {live : ℕ → Bool} (k : Kernel) {qs : ℕ → List ℕ} (s : Sound live k qs) where
  get_cpu_time-Sound :
      (user kernel wallclock c : ℕ)
      → ((user == null) ≡ false) × ((kernel == null) ≡ false) × ((wallclock == null) ≡ false)
      → k.current_proc ≡ some c
      → Returns (λ _ k'. IsSound live k') (get_cpu_time user kernel wallclock k)
  unfolding get_cpu_time get_todlo
  get_cpu_time-Sound user kernel wallclock c (u, n, w) e = Returns-deref _ k.current_proc c _ _ e (
      rw (w, u)
        (Returns-bind _ _ (scheduler_account_time true _) _
          (scheduler_account_time-Accounted true _)
          λ _ k1 a.
            let s1 = Accounted-Sound _ (Sound-frame k s _ refl refl refl refl) true k1 a in
            rw n (qs, Sound-frame k1 s1 _ refl refl refl refl)))

  get_pid-Sound :
      (pid ppid c : ℕ)
      → k.current_proc ≡ some c
      → Returns (λ _ k'. IsSound live k') (get_pid pid ppid k)
  unfolding get_pid
  get_pid-Sound pid ppid c e = elim (Bool-cases (pid == null)) [
    | inl skip ↦ rw skip (
        Returns-deref _ k.current_proc c _ _ e (elim (Bool-cases (ppid == null)) [
          | inl skip' ↦ rw skip' (qs, s)
          | inr write' ↦ rw write' (qs, Sound-frame k s _ refl refl refl refl)
        ]))
    | inr write ↦ rw write (
        Returns-deref _ k.current_proc c _ _ e (elim (Bool-cases (ppid == null)) [
          | inl skip' ↦ rw skip' (qs, Sound-frame k s _ refl refl refl refl)
          | inr write' ↦ rw write' (qs, Sound-frame k s _ refl refl refl refl)
        ]))
  ]

sysreturn-Stands : (v : ℕ) (k : Kernel) → Stands k → Ends Stands (sysreturn v k)
unfolding sysreturn load_state store_state
sysreturn-Stands v k (live, (qs, s)) = (live, (qs, Sound-frame k s _ refl refl refl refl))

-- A call that returns in a sound kernel, and then its result.
answered :
    (P : ℕ → Kernel → Type 0) (r : Run ℕ)
    → Returns P r
    → ((v : ℕ) (k : Kernel) → P v k → Stands k)
    → Ends Stands (and_then r sysreturn)
answered P r h stands =
    Ends-bind Stands r sysreturn (Returns-Ends Stands P r h stands) sysreturn-Stands

module _ {live : ℕ → Bool} (k : Kernel) {qs : ℕ → List ℕ} (s : Sound live k qs) where
  stands : {A : Type 0} (r : Run A) → Returns (λ _ k'. IsSound live k') r → Ends Stands r
  stands r h = Returns-Ends Stands _ r h λ _ k' sound. (live, sound)

  create_process-Stands :
      (state priority cpid c : ℕ)
      → (state == null) ≡ false
      → k.current_proc ≡ some c
      → Ends Stands ((create_process state priority cpid >>= sysreturn) k)
  create_process-Stands state priority cpid c there e =
      answered _ (create_process state priority cpid k)
        (create_process-CreatedOrFull k s state priority cpid c there e) λ v k' h. created v k' h
    where
      created :
          (v : ℕ) (k' : Kernel) → CreatedOrFull live k qs state priority cpid c v k' → Stands k'
      created v k' (inl (_, _, same)) = (live, (qs, rw same s))
      created v k' (inr (_, (p, _, qs', _, d))) = (alloc_live live p, (qs', d.sound))

  terminate_process-Stands :
      (pid : Option ℕ) (c : ℕ)
      → k.current_proc ≡ some c
      → ((p : ℕ) → or_current pid (some c) ≡ some p → (p < max_proc) × Spares k p)
      → Ends Stands ((terminate_process pid >>= sysreturn) k)
  terminate_process-Stands pid c e target = go pid refl
    where
      ended : (p r : ℕ) (k' : Kernel) → Terminated k s p r k' → Stands k'
      ended p r k' (inl (_, _, same)) = (live, (qs, rw same s))
      ended p r k' (inr (_, _, (qs', _, _, s'))) = (live, (qs', s'))

      at :
          (p : ℕ)
          → or_current pid (some c) ≡ some p
          → Ends Stands ((terminate_process pid >>= sysreturn) k)
      at p f =
          let (small, spares) = target p f in
          answered (Terminated k s p) (terminate_process pid k)
            (terminate_process-Sound k s pid p (ap (or_current pid) e ∙ f) small spares) (ended p)

      go : (o : Option ℕ) → pid ≡ o → Ends Stands ((terminate_process pid >>= sysreturn) k)
      go none f = at c (ap (λ o. or_current o (some c)) f)
      go (some p) f = at p (ap (λ o. or_current o (some c)) f)

  pub syscall-Stands :
      (st : StateT) (c : ℕ)
      → k.current_proc ≡ some c
      → Proper k st c
      → Ends Stands (syscall st (sysarg st 0) k)
  unfolding syscall
  syscall-Stands st c e proper =
      let no = sysarg st 0 in
      Ends-case Stands no getcputime _ _ k
        (λ t.
          stands _
            (get_cpu_time-Sound k s (sysarg st 1) (sysarg st 2) (sysarg st 3) c (proper.times t) e))
        (Ends-case Stands no createprocess _ _ k
          (λ t.
            create_process-Stands (sysarg st 1) (sysarg st 2) (sysarg st 3) c (proper.given t) e)
          (Ends-case Stands no terminateprocess _ _ k
            (λ t. terminate_process-Stands (word_pid (sysarg st 1)) c e λ p. proper.target p t)
            (Ends-case Stands no verhogen_no _ _ k
              (λ t. stands _ (verhogen-Sound k s (sysarg st 1) (proper.raised t)))
              (Ends-case Stands no passeren_no _ _ k
                (λ t.
                  stands _
                    (passeren-Sound k s (sysarg st 1) c e (proper.lowered t) (proper.word t)))
                (Ends-case Stands no waitio _ _ k
                  (λ t. stands _ (
                    wait_io-Sound k qs (sysarg st 1) (sysarg st 2) (sysarg st 3 % 256) c s e
                      (proper.device t)))
                  (Ends-case Stands no specpassup _ _ k
                    (λ t.
                      answered _ _
                        (spec_pass_up-Sound k s (sysarg st 1) (sysarg st 2) (sysarg st 3) c e
                          (proper.type t))
                        λ v k' sound. (live, sound))
                    (Ends-case Stands no getpid _ _ k
                      (λ _. stands _ (get_pid-Sound k s (sysarg st 1) (sysarg st 2) c e))
                      (Leaves-Ends Stands _ _
                        (scheduler_handle_exception-Sound k s specpassup_sysbk_type sysbk_oldarea c
                          e (omega arith) proper.areas refl)
                        λ _ k' sound. (live, sound)))))))))
