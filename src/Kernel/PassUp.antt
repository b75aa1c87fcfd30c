-- ===== src/Kernel/PassUp.antt =====
-- `scheduler_handle_exception` of src/scheduler.c, with or without a handler, and the second meaning of
-- `spec_pass_up` of src/syscalls.c, in a sound kernel.
use bi_kaya.Base.{
  ℕ, ◌+◌, ◌<◌, ◌≡◌, refl, ap, ◌∙◌, inl, inr, Bool, true, false, some, List, arith, ◌==◌, ltb,
  Bool-cases,
}
use bi_kaya.Types.{null, pcb_free_head}
use bi_kaya.Machine.{
  Kernel, Returns, Returns-map, Returns-bind, Returns-deref, Leaves, Leaves-map, Leaves-bind,
  Leaves-deref,
}
use bi_kaya.Umps.{load_state, store_state}
use bi_kaya.Scheduler.{
  pass_up, scheduler_account_time, scheduler_handle_exception, scheduler_kill_process,
}
use bi_kaya.Scheduler.Time.{Accounted-SameButClock, scheduler_account_time-Accounted}
use bi_kaya.Scheduler.Terminate.{scheduler_kill_process-TreeKilled}
use bi_kaya.Syscalls.{spec_pass_up}
use bi_kaya.Kernel.Sound.{Accounted-Sound, Sound, Sound-frame, Sound-pcbs, IsSound}
use bi_kaya.Kernel.Terminate.{tables, spared_Sound}
use bi_kaya.Kernel.Trees.{below_tree, below_tree-IsTree}
use bi_kaya.Kernel.Unhandled.{scheduler_handle_exception-Ended}

-- Who has declared a new area for the type has declared an old one.
abbrev pub BothAreas : Kernel → (type p : ℕ) → Type 0
BothAreas k type p =
    ((k.pcbs p).exc_areas type == null) ≡ false → ((k.pcbs p).exc_areas (3 + type) == null) ≡ false

module _ {live : ℕ → Bool} (k : Kernel) {qs : ℕ → List ℕ} (s : Sound live k qs) where
  pass_up-Sound :
      (type old c : ℕ)
      → k.current_proc ≡ some c
      → type < 3
      → ((k.pcbs c).exc_areas type == null) ≡ false
      → ((k.pcbs c).exc_areas (3 + type) == null) ≡ false
      → (old == null) ≡ false
      → Leaves (λ _ k'. IsSound live k') (scheduler_handle_exception type old k)
  unfolding scheduler_handle_exception pass_up load_state store_state
  pass_up-Sound type old c e few new_there old_there there =
      Leaves-bind _ _ (scheduler_account_time false k) _ (scheduler_account_time-Accounted false k)
        λ _ k1 a.
          let areas : (k1.pcbs c).exc_areas ≡ (k.pcbs c).exc_areas =
            (Accounted-SameButClock false k k1 a c).exc_areas in
          let in1 : ltb type 6 ≡ true = ground arith in
          let in2 : ltb (3 + type) 6 ≡ true = ground arith in
          Leaves-deref _ k1.current_proc c k1 _ (ap (λ (m : Kernel). m.current_proc) a.same ∙ e) (
            rw (in1, areas, new_there, there, in2, areas, old_there)
              (Leaves-bind _ _ (scheduler_account_time true _) _
                (scheduler_account_time-Accounted true _)
                λ _ k2 b. rw new_there (
                  qs,
                  Accounted-Sound _
                      (Sound-frame k1 (Accounted-Sound k s false k1 a) _ refl refl refl refl) true
                      k2 b,
                )))

  -- `scheduler_handle_exception`, in a sound state, for a type below 3 and an area that is not `NULL`,
  -- where the current process, if it has declared a new area for the type, has declared an old one,
  -- leaves the kernel, and the kernel is sound.
  pub scheduler_handle_exception-Sound :
      (type old c : ℕ)
      → k.current_proc ≡ some c
      → type < 3
      → BothAreas k type c
      → (old == null) ≡ false
      → Leaves (λ _ k'. IsSound live k') (scheduler_handle_exception type old k)
  scheduler_handle_exception-Sound type old c e few both there =
      elim (Bool-cases ((k.pcbs c).exc_areas type == null)) [
        | inl undeclared ↦
            Leaves-map _ _ (scheduler_handle_exception type old k)
              (scheduler_handle_exception-Ended k qs type old c s e few undeclared)
              λ _ k' (qs', s', _). (qs', s')
        | inr declared ↦ pass_up-Sound type old c e few declared (both declared) there
      ]

  kill_current-Sound :
      (c : ℕ)
      → k.current_proc ≡ some c
      → Returns (λ _ k'. IsSound live k') (scheduler_kill_process c k)
  kill_current-Sound c e =
      let (small, off) = s.running c e in
      let cs = below_tree k s c in
      let tree = below_tree-IsTree k s c small (off pcb_free_head s.heads.free_live refl) in
      Returns-map _ _ (scheduler_kill_process c k)
        (scheduler_kill_process-TreeKilled k qs c cs (tables k s) tree)
        λ _ k' (qs', d).
          (qs', spared_Sound k s c cs tree k' qs' d λ i on. ground (arith, e, on, tree.distinct.0))

  -- `spec_pass_up` for a type below 3: the current process declares its areas, or ends if it has done so before.
  pub spec_pass_up-Sound :
      (type old_area new_area c : ℕ)
      → k.current_proc ≡ some c
      → type < 3
      → Returns (λ _ k'. IsSound live k') (spec_pass_up type old_area new_area k)
  unfolding spec_pass_up
  spec_pass_up-Sound type old_area new_area c e few =
      let in1 : ltb type 6 ≡ true = ground arith in
      let in2 : ltb (3 + type) 6 ≡ true = ground arith in
      Returns-deref _ k.current_proc c k _ e
        (elim (Bool-cases ((k.pcbs c).exc_areas type == null)) [
          | inl none_yet ↦
              rw (in1, none_yet, in2)
                (
                  qs,
                  Sound-pcbs k s _ refl refl (λ i. (ground arith, ground arith, ground arith)) refl,
                )
          | inr declared ↦
              rw (in1, declared)
                (Returns-bind _ _ (scheduler_kill_process c k) _ (kill_current-Sound c e)
                  λ _ k' sound. sound)
        ])
