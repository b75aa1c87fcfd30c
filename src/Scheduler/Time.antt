-- ===== src/Scheduler/Time.antt =====
-- The accounting of time in src/scheduler.c.
use bi_kaya.Base.{
  ℕ, ◌+◌, ◌%◌, ◌^◌, ◌<◌, ◌≡◌, refl, inl, inr, Bool, true, false, Option, none, some, arith, ◌==◌,
  if◌then◌else◌, Bool-cases,
}
use bi_kaya.ListX.{put}
use bi_kaya.Types.{Pcb, word_size}
use bi_kaya.Machine.{Kernel, Returns}
use bi_kaya.Umps.{get_todlo}
use bi_kaya.Scheduler.{sub32, charge, scheduler_account_time}

-- Only the times of `b` and `c` differ.
abbrev pub SameButTimes : Pcb → Pcb → Type 0
SameButTimes b c = c ≡ record b { user_tm = c.user_tm; kernel_tm = c.kernel_tm }

-- What `scheduler_account_time` writes.
pub record Accounted (kernel : Bool) (k k' : Kernel) : Type 0 where
  pub same : k' ≡ record k { pcbs = k'.pcbs; switch_tick = k'.switch_tick; tod = k'.tod }
  pub idle : k.current_proc ≡ none → k'.pcbs ≡ k.pcbs
  pub busy :
      (p : ℕ)
      → k.current_proc ≡ some p
      → k'.pcbs
        ≡ put k.pcbs p (charge kernel (sub32 (k.tod 0 % word_size) k.switch_tick) (k.pcbs p))

pub scheduler_account_time-Accounted :
    (kernel : Bool) (k : Kernel)
    → Returns (λ _ k'. Accounted kernel k k') (scheduler_account_time kernel k)
unfolding scheduler_account_time get_todlo
scheduler_account_time-Accounted kernel k = go k.current_proc refl
  where
    go :
        (o : Option ℕ)
        → k.current_proc ≡ o
        → Returns (λ _ k'. Accounted kernel k k') (scheduler_account_time kernel k)
    go none e = rw e (record { same = refl; idle = λ f. refl; busy = λ p f. ground (arith, e, f) })
    go (some p) e = rw e (record {
      same = refl;
      idle = λ f. ground (arith, e, f);
      busy = λ i f. let same : p ≡ i = ground (arith, f) in rw same refl;
    })

-- So the accounting of time is invisible to the queues.
pub record SameButClock (b c : Pcb) : Type 0 where
  pub p_s : c.p_s ≡ b.p_s
  pub priority : c.priority ≡ b.priority
  pub original_priority : c.original_priority ≡ b.original_priority
  pub p_semkey : c.p_semkey ≡ b.p_semkey
  pub exc_areas : c.exc_areas ≡ b.exc_areas
  pub p_parent : c.p_parent ≡ b.p_parent

charge-SameButClock : (kernel : Bool) (d : ℕ) (b : Pcb) → SameButClock b (charge kernel d b)
unfolding charge
charge-SameButClock true d b = record {
  p_s = refl;
  priority = refl;
  original_priority = refl;
  p_semkey = refl;
  exc_areas = refl;
  p_parent = refl;
}
charge-SameButClock false d b = record {
  p_s = refl;
  priority = refl;
  original_priority = refl;
  p_semkey = refl;
  exc_areas = refl;
  p_parent = refl;
}

pub Accounted-SameButClock :
    (kernel : Bool) (k k' : Kernel)
    → Accounted kernel k k'
    → (i : ℕ) → SameButClock (k.pcbs i) (k'.pcbs i)
Accounted-SameButClock kernel k k' a i = go k.current_proc refl
  where
    itself : SameButClock (k.pcbs i) (k.pcbs i)
    itself = record {
      p_s = refl;
      priority = refl;
      original_priority = refl;
      p_semkey = refl;
      exc_areas = refl;
      p_parent = refl;
    }

    go : (o : Option ℕ) → k.current_proc ≡ o → SameButClock (k.pcbs i) (k'.pcbs i)
    go none e = rw (a.idle e) itself
    go (some p) e = rw (a.busy p e) (elim (Bool-cases (i == p)) [
      | inl here ↦
          let same : i ≡ p = ground arith in
          rw (here, same) (charge-SameButClock kernel _ (k.pcbs p))
      | inr other ↦ rw other itself
    ])

sub32_elapsed : (t d : ℕ) → d < word_size → sub32 ((t + d) % word_size) (t % word_size) ≡ d
sub32_elapsed t d small = omega arith

-- `scheduler_account_time` while process `p` is current, with the last switch at time `t` of the clock
-- and less than `2 ^ 32` ticks ago, adds the ticks since then to the kernel time of `p` or to its user
-- time, as it is told, even where the clock register has wrapped around; the other time, the other
-- processes and everything else but the tick of the switch and the clock stay as they are.
pub scheduler_account_time-elapsed :
    (kernel : Bool) (k : Kernel) (p t d : ℕ)
    → k.current_proc ≡ some p
    → k.switch_tick ≡ t % word_size
    → k.tod 0 ≡ t + d
    → d < word_size
    → Returns
        (λ _ k'.
          (k'.pcbs
            ≡ put k.pcbs p (
                if kernel
                then record (k.pcbs p) { kernel_tm = ((k.pcbs p).kernel_tm + d) % 2 ^ 64 }
                else record (k.pcbs p) { user_tm = ((k.pcbs p).user_tm + d) % 2 ^ 64 }))
          × (k'.switch_tick ≡ k.tod 1 % word_size)
          × (k' ≡ record k { pcbs = k'.pcbs; switch_tick = k'.switch_tick; tod = k'.tod }))
        (scheduler_account_time kernel k)
unfolding scheduler_account_time get_todlo charge
scheduler_account_time-elapsed kernel k p t d e tick now small =
    rw e (rw (tick, now, sub32_elapsed t d small) refl, refl, refl)
