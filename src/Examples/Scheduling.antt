-- ===== src/Examples/Scheduling.antt =====
-- The theorems of src/scheduler.c at the sample memory.
use bi_kaya.Base.{
  ℕ, ◌+◌, ◌*◌, ◌%◌, ◌^◌, ◌≡◌, ◌<◌, refl, true, false, some, [], ◌∷◌, arith, ◌==◌, if◌then◌else◌,
  has, subst,
}
use bi_kaya.ListX.{put}
use bi_kaya.Types.{max_proc, null, ready_queue, word_size}
use bi_kaya.Types.Lists.{IsOff}
use bi_kaya.Machine.{Kernel, ok, Returns, Leaves}
use bi_kaya.Scheduler.{aging, scheduler_account_time, scheduler_run, scheduler_resume}
use bi_kaya.Scheduler.Run.{Dispatched, scheduler_run_lem}
use bi_kaya.Scheduler.Time.{scheduler_account_time-elapsed}
use bi_kaya.Scheduler.Aging.{aged, aging-aged}
use bi_kaya.Scheduler.Resume.{Resumed, scheduler_resume-Leaves}
use bi_kaya.Scheduler.Waits.{Slice}
use bi_kaya.Scheduler.Starvation.{RunsWithin, scheduler_resume-RunsWithin}
use bi_kaya.Examples.{heads, sample_lists, memory, memory-Queues, current-IsOff}

scheduler_run_example :
    Leaves (Dispatched heads memory sample_lists 5 (4 ∷ [])) (scheduler_run memory)
scheduler_run_example = scheduler_run_lem memory memory-Queues 5 (4 ∷ []) refl

aging_example :
    aging memory
    ≡ ok tt (record memory {
      pcbs = λ i. if has i (sample_lists ready_queue) then aged (memory.pcbs i) else memory.pcbs i;
    })
aging_example = aging-aged memory memory-Queues

-- The clock has wrapped around since the last switch.
abbrev wrapped : Kernel
wrapped = record memory { switch_tick = 4294967290; tod = λ n. 4294967300 + n }

scheduler_account_time_example :
    Returns
      (λ _ k'.
        (k'.pcbs
          ≡ put wrapped.pcbs 8 (
              if true
              then record (wrapped.pcbs 8) {
                kernel_tm = ((wrapped.pcbs 8).kernel_tm + 10) % 2 ^ 64;
              }
              else record (wrapped.pcbs 8) { user_tm = ((wrapped.pcbs 8).user_tm + 10) % 2 ^ 64 }))
        × (k'.switch_tick ≡ wrapped.tod 1 % word_size)
        × (k' ≡ record wrapped { pcbs = k'.pcbs; switch_tick = k'.switch_tick; tod = k'.tod }))
      (scheduler_account_time true wrapped)
scheduler_account_time_example =
    scheduler_account_time-elapsed true wrapped 8 4294967290 10 refl refl refl (omega arith)

running :
    (p : ℕ)
    → memory.current_proc ≡ some p
    → ((4096 == null) ≡ false) × (p < max_proc) × IsOff heads sample_lists 0 p
running p e =
    let same : 8 ≡ p = ground (arith, e) in
    (refl, omega arith, subst (IsOff heads sample_lists 0) same current-IsOff)

scheduler_resume_example :
    Leaves (Resumed memory memory-Queues true 4096) (scheduler_resume true 4096 memory)
scheduler_resume_example =
    scheduler_resume-Leaves memory true 4096 memory-Queues running
      (λ over. (omega arith, (omega arith, tt)))

-- The current process has declared areas for type 1.
abbrev declaring : Kernel
declaring = record memory { pcbs = λ i. record (memory.pcbs i) { exc_areas = λ n. 8192 + 64 * n } }

-- Nothing but the clock changes.
abbrev slices : ℕ → Slice
slices n = record { words = memory.words; states = memory.states; tod = λ m. 2000 + 100 * n + m }

-- Process 4 has priority 4, and the highest of the table is 19.
scheduler_resume-RunsWithin_example : RunsWithin 4096 4 35 slices memory
scheduler_resume-RunsWithin_example =
    scheduler_resume-RunsWithin memory 4096 4 8 (2 ^ 31 + 19) 35 slices memory-Queues refl
      (omega arith) current-IsOff refl refl (λ i lt. omega arith) (omega arith) (omega arith)
      λ i on. ground arith
