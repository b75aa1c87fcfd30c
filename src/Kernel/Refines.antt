-- ===== src/Kernel/Refines.antt =====
-- The kernel does what `Spec` says.
use bi_kaya.Base.{ℕ, ◌≡◌, refl, Bool, some, List, [], ◌∷◌}
use bi_kaya.Machine.{Kernel, Run, ok, loaded, fault, out_of_fuel, Returns, Leaves}
use bi_kaya.Umps.{sysbk_oldarea}
use bi_kaya.Scheduler.{scheduler_resume}
use bi_kaya.Syscalls.{verhogen, passeren}
use bi_kaya.Kernel.Spec.{
  Spec, Call, raise, pass, resume, spec_step, spec_steps, Allowed, AllAllowed, memory_of, call,
  calls,
}
use bi_kaya.Kernel.Implements.{Implements, raise-Implements, pass-Implements}
use bi_kaya.Kernel.Resumes.{resume-Implements}

-- A run that ends well has a memory.
after_return :
    (P : Kernel → Type 0) (r : Run (Unit {0}))
    → Returns (λ _ k'. P k') r
    → (k' : Kernel) × (memory_of r ≡ some k') × P k'
after_return P (ok a k) h = (k, refl, h)
after_return P (loaded st k) h = absurd h
after_return P fault h = absurd h
after_return P out_of_fuel h = absurd h

after_exit :
    (P : Kernel → Type 0) (r : Run (Unit {0}))
    → Leaves (λ _ k'. P k') r
    → (k' : Kernel) × (memory_of r ≡ some k') × P k'
after_exit P (ok a k) h = absurd h
after_exit P (loaded st k) h = (k, refl, h)
after_exit P fault h = absurd h
after_exit P out_of_fuel h = absurd h

module _ {live : ℕ → Bool} (k : Kernel) (s : Spec) (m : Implements live k s) where
  call-Implements :
      (c : Call)
      → Allowed c s
      → (k' : Kernel) × (memory_of (call c k) ≡ some k') × Implements live k' (spec_step c s)
  call-Implements (raise key) (there, ne) =
      after_return _ (verhogen key k) (raise-Implements k s m key there ne)
  call-Implements (pass key) (there, ne, word, (p, e)) =
      after_return _ (passeren key k) (pass-Implements k s m key p there ne word e)
  call-Implements (resume ended) allowed =
      after_exit _ (scheduler_resume ended sysbk_oldarea k) (resume-Implements k s m ended allowed)

-- From a memory that stands for a state `s` of `Spec`, any sequence of calls of `verhogen`,
-- `passeren` and `scheduler_resume` that is allowed at `s` runs to its end without a fault, and the
-- memory then stands for what `Spec` makes of `s`. A call is allowed where a process runs that
-- `passeren` could block, a semaphore is a word that is neither at `NULL` nor the timer, and no
-- priority wraps around.
pub calls-Implements :
    {live : ℕ → Bool} (cs : List Call) (k : Kernel) (s : Spec)
    → Implements live k s
    → AllAllowed cs s
    → (k' : Kernel) × (calls cs k ≡ some k') × Implements live k' (spec_steps cs s)
calls-Implements [] k s m allowed = (k, refl, m)
calls-Implements (c ∷ cs) k s m (allowed, rest) =
    let (k1, e, m1) = call-Implements k s m c allowed in
    let (k2, f, m2) = calls-Implements cs k1 (spec_step c s) m1 rest in (k2, rw e f, m2)
