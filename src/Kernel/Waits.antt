-- ===== src/Kernel/Waits.antt =====
-- `wait_io` of src/syscalls.c and `scheduler_account_time` of src/scheduler.c in a sound kernel.
use bi_kaya.Base.{ℕ, ◌≡◌, ◌==◌, refl, Bool, false, some, List}
use bi_kaya.ListX.{put}
use bi_kaya.Types.{null}
use bi_kaya.Machine.{Kernel, Returns, Returns-map}
use bi_kaya.Umps.{sysbk_oldarea}
use bi_kaya.Scheduler.{scheduler_account_time, scheduler_block_current}
use bi_kaya.Scheduler.Time.{scheduler_account_time-Accounted}
use bi_kaya.Syscalls.{wait_io, command_register}
use bi_kaya.Interrupts.{interrupts_get_dev_key}
use bi_kaya.Kernel.Sound.{Accounted-Sound, Sound, IsSound, Sound-frame}
use bi_kaya.Kernel.Switches.{scheduler_block_current-Blocked}

module _ {live : ℕ → Bool} where
  pub wait_io-Sound :
      (k : Kernel) (qs : ℕ → List ℕ) (command device subdev p : ℕ)
      → Sound live k qs
      → k.current_proc ≡ some p
      → (device == null) ≡ false
      → Returns (λ _ k'. IsSound live k') (wait_io command device subdev k)
  unfolding wait_io
  wait_io-Sound k qs command device subdev p s e there = rw there (
      Returns-map _ _
        (scheduler_block_current (interrupts_get_dev_key device subdev) sysbk_oldarea m)
        (scheduler_block_current-Blocked m (Sound-frame k s m refl refl refl refl)
          (interrupts_get_dev_key device subdev) sysbk_oldarea p e refl)
        λ _ k' (qs', _, s'). (qs', s'))
    where
      m : Kernel
      m = record k { words = put k.words (command_register device subdev) command }

  pub account-Sound :
      (k : Kernel) (qs : ℕ → List ℕ) (kernel : Bool)
      → Sound live k qs
      → Returns (λ _ k'. IsSound live k') (scheduler_account_time kernel k)
  account-Sound k qs kernel s =
      Returns-map _ _ (scheduler_account_time kernel k) (scheduler_account_time-Accounted kernel k)
        λ _ k' a. (qs, Accounted-Sound k s kernel k' a)
