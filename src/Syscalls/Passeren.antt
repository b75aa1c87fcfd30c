-- ===== src/Syscalls/Passeren.antt =====
-- `passeren` of src/syscalls.c on the semaphores.
use bi_kaya.Base.{
  ℕ, ◌+◌, ◌-◌, ◌%◌, ◌<◌, ◌≡◌, ◌≢◌, refl, inl, inr, ◌⊎◌, Bool, false, some, List, arith, ◌==◌,
  Bool-cases,
}
use bi_kaya.ListX.{put}
use bi_kaya.Types.{max_proc, null, word_size}
use bi_kaya.Types.Lists.{IsOff}
use bi_kaya.Machine.{Kernel, Returns, Returns-map}
use bi_kaya.Umps.{sysbk_oldarea}
use bi_kaya.Scheduler.{scheduler_block_current}
use bi_kaya.Scheduler.Queues.{Queues}
use bi_kaya.Scheduler.Block.{BlockedOrDropped, scheduler_block_current_lem}
use bi_kaya.Syscalls.{passeren}

-- The value of the semaphore is positive and one less now, or it is 0 and `p` waits.
abbrev pub Passed : (ℕ → Bool) → Kernel → (ℕ → List ℕ) → (semaddr p : ℕ) → Kernel → Type 0
Passed live k qs semaddr p k' =
    ((k.words semaddr ≢ 0) × (k' ≡ record k { words = put k.words semaddr (k.words semaddr - 1) }))
    ⊎ ((k.words semaddr ≡ 0) × BlockedOrDropped live k qs semaddr p (k.states sysbk_oldarea) k')

pub passeren-Passed :
    {live : ℕ → Bool} (k : Kernel) {qs : ℕ → List ℕ} (semaddr p : ℕ)
    → Queues live k qs
    → k.current_proc ≡ some p
    → IsOff live qs 0 p
    → p < max_proc
    → (semaddr == null) ≡ false
    → k.words semaddr < word_size
    → Returns (λ _ k'. Passed live k qs semaddr p k') (passeren semaddr k)
unfolding passeren
passeren-Passed {live} k {qs} semaddr p q e off inside there word =
    rw there (elim (Bool-cases (k.words semaddr == 0)) [
      | inl closed ↦
          let zero_value : k.words semaddr ≡ 0 = ground arith in
          rw closed (
            Returns-map _ _ (scheduler_block_current semaddr sysbk_oldarea k)
              (scheduler_block_current_lem k q semaddr sysbk_oldarea p e refl off inside)
              λ _ k' b. inr (zero_value, b))
      | inr open_value ↦
          let value : (k.words semaddr + word_size - 1) % word_size ≡ k.words semaddr - 1 =
            ground arith in
          rw (open_value, value) (inl (ground arith, refl))
    ])
