-- ===== src/Examples/Reach.antt =====
-- A run of the kernel at the sample memory, in which every queue changes.
use bi_kaya.Base.{◌<◌, ◌≡◌, ◌≢◌, ◌+◌, refl, sym, subst, false, arith}
use bi_kaya.Types.{StateT, word_size}
use bi_kaya.Machine.{Kernel, Run, ok, loaded, fault, out_of_fuel, Returns, Leaves}
use bi_kaya.Umps.{sysbk_oldarea}
use bi_kaya.Scheduler.{scheduler_resume}
use bi_kaya.Scheduler.Waits.{Slice, run_slice}
use bi_kaya.Syscalls.{verhogen, passeren}
use bi_kaya.Kernel.Sound.{Stands}
use bi_kaya.Kernel.Spec.{Spec, raise, pass, resume, spec_step}
use bi_kaya.Kernel.Implements.{Implements, raise-Implements, pass-Implements}
use bi_kaya.Kernel.Resumes.{resume-Implements}
use bi_kaya.Kernel.Steps.{machine, raises, passes, resumes, here, next, Reach-IsSound}
use bi_kaya.Examples.{sample_key}
use bi_kaya.Examples.Whole.{table_heads, whole, whole_lists, whole-Sound}
use bi_kaya.Examples.System.{whole_spec, whole-Implements}

returned_at :
    (P : Kernel → Type 0) (r : Run (Unit {0}))
    → Returns (λ _ k'. P k') r
    → (k' : Kernel) × (r ≡ ok tt k') × P k'
returned_at P (ok a k) h = (k, refl, h)
returned_at P (loaded s k) h = absurd h
returned_at P fault h = absurd h
returned_at P out_of_fuel h = absurd h

left_at :
    (P : Kernel → Type 0) (r : Run (Unit {0}))
    → Leaves (λ _ k'. P k') r
    → (s : StateT) × (k' : Kernel) × (r ≡ loaded s k') × P k'
left_at P (ok a k) h = absurd h
left_at P (loaded s k) h = (s, k, refl, h)
left_at P fault h = absurd h
left_at P out_of_fuel h = absurd h

-- Process 8 wakes 2, and waits for key 200; then 5 runs.
abbrev raised_spec : Spec
raised_spec = spec_step (raise sample_key) whole_spec

woken :
    (k1 : Kernel) × (verhogen sample_key whole ≡ ok tt k1) × Implements table_heads k1 raised_spec
woken =
    returned_at _ (verhogen sample_key whole)
      (raise-Implements whole whole_spec whole-Implements sample_key refl (omega arith))

abbrev passed_spec : Spec
passed_spec = spec_step (pass 200) raised_spec

abbrev k1 : Kernel
k1 = woken.0

blocked : (k2 : Kernel) × (passeren 200 k1 ≡ ok tt k2) × Implements table_heads k2 passed_spec
blocked =
    returned_at _ (passeren 200 k1)
      (pass-Implements k1 raised_spec woken.2 200 8 refl (omega arith) (omega arith) refl)

abbrev k2 : Kernel
k2 = blocked.0

chosen :
    (s : StateT) × (k3 : Kernel) × (scheduler_resume false sysbk_oldarea k2 ≡ loaded s k3)
    × Implements table_heads k3 (spec_step (resume false) passed_spec)
chosen =
    left_at _ (scheduler_resume false sysbk_oldarea k2)
      (resume-Implements k2 passed_spec blocked.2 false λ i lt. ground arith)

abbrev k3 : Kernel
k3 = chosen.1

closed : k1.words 200 < word_size
closed =
    let not_timer : 200 ≢ bi_kaya.Umps.bus_reg_timer = omega arith in
    subst (λ w. w < word_size) (woken.2.value 200 not_timer) (omega arith)

abbrev later : Slice
later = record { words = k3.words; states = k3.states; tod = λ n. 5000 + n }

Reach-IsSound_example : Stands (run_slice later k3)
Reach-IsSound_example =
    Reach-IsSound {k = whole} (whole_lists, whole-Sound)
      (next
        (next
          (next (next here (raises sample_key refl woken.1))
            (passes 200 8 (sym woken.2.running) refl closed blocked.1))
          (resumes false sysbk_oldarea chosen.0 (λ p e. refl) (λ over. cc) chosen.2))
        (machine later refl))
