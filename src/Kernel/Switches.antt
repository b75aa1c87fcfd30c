-- ===== src/Kernel/Switches.antt =====
-- The kernel stays sound where the running process blocks or another takes its place.
use bi_kaya.Base.{
  ℕ, ◌-◌, ◌<◌, ◌≡◌, ◌≢◌, refl, ap, subst, ◌∙◌, inl, inr, ◌⊎◌, Bool, false, some, List, ◌∷◌, arith,
  ◌==◌, if◌then◌else◌, has, All-of_has, true,
}
use bi_kaya.ListX.{put}
use bi_kaya.Types.{StateT, max_proc, null, rank, word_size, ready_queue, semd_free, asl}
use bi_kaya.Types.Lists.{IsOff}
use bi_kaya.Machine.{Kernel, Returns, Returns-map, Leaves, Leaves-map}
use bi_kaya.Umps.{sysbk_oldarea}
use bi_kaya.Pcb.Insert.{has-insert_by}
use bi_kaya.Asl.Enough.{all_blocked}
use bi_kaya.Scheduler.{scheduler_resume, scheduler_block_current}
use bi_kaya.Scheduler.Run.{Dispatched}
use bi_kaya.Scheduler.Preempt.{Preempted, aged_pcbs}
use bi_kaya.Scheduler.Resume.{Resumed, scheduler_resume-Leaves}
use bi_kaya.Scheduler.Block.{Blocked, BlockedOrDropped, scheduler_block_current_lem}
use bi_kaya.Syscalls.{passeren}
use bi_kaya.Syscalls.Passeren.{Passed, passeren-Passed}
use bi_kaya.Kernel.Family.{Family-same}
use bi_kaya.Kernel.Sound.{Accounted-Sound, Sound, IsSound, Sound-frame}

module _ {live : ℕ → Bool} (k : Kernel) {qs : ℕ → List ℕ} (s : Sound live k qs) where
  -- With every descriptor in use or free there is one for the current process.
  not_dropped :
      (key p : ℕ) (st : StateT) (k' : Kernel)
      → p < max_proc
      → IsOff live qs 0 p
      → BlockedOrDropped live k qs key p st k'
      → (qs' : ℕ → List ℕ) × Blocked live k qs key p st k' qs' × Sound live k' qs'
  not_dropped key p st k' inside off (inl (_, none_free, _, _)) = absurd (
      all_blocked k s.queues.semaphores p
        (λ j lt. ground (arith, s.every j lt, ap (has j) none_free)) off inside)
  not_dropped key p st k' inside off (inr (qs', b)) = (
    qs',
    b,
    record {
      queues = b.queues;
      heads = s.heads;
      family = Family-same k' (λ h x y z w. b.elsewhere h x y z) b.parents s.family;
      every = λ j lt. b.kept j ∙ s.every j lt;
      running = λ c f. ground (arith, f, b.current);
    },
  )

  -- `scheduler_block_current key a` in a sound state, `p` being the current process and `a` not `NULL`,
  -- returns and has blocked `p` on `key`, and the kernel is sound again.
  pub scheduler_block_current-Blocked :
      (key a p : ℕ)
      → k.current_proc ≡ some p
      → (a == null) ≡ false
      → Returns
          (λ _ k'.
            (qs' : ℕ → List ℕ) × Blocked live k qs key p (k.states a) k' qs' × Sound live k' qs')
          (scheduler_block_current key a k)
  scheduler_block_current-Blocked key a p e there =
      let (inside, off) = s.running p e in
      Returns-map _ _ (scheduler_block_current key a k)
        (scheduler_block_current_lem k s.queues key a p e there off inside)
        λ _ k' b. not_dropped key p (k.states a) k' inside off b

  -- The value of the semaphore is one less, or `p` waits for it.
  abbrev pub PassedOrBlocked : (a p : ℕ) → Kernel → Type 0
  PassedOrBlocked a p k' =
      ((k.words a ≢ 0) × (k' ≡ record k { words = put k.words a (k.words a - 1) }))
      ⊎ ((k.words a ≡ 0)
          × ((qs' : ℕ → List ℕ) × Blocked live k qs a p (k.states sysbk_oldarea) k' qs'
              × Sound live k' qs'))

  pub passeren-PassedOrBlocked :
      (a p : ℕ)
      → k.current_proc ≡ some p
      → (a == null) ≡ false
      → k.words a < word_size
      → Returns (λ _ k'. PassedOrBlocked a p k') (passeren a k)
  passeren-PassedOrBlocked a p e there word =
      let (inside, off) = s.running p e in
      Returns-map _ _ (passeren a k) (passeren-Passed k a p s.queues e off inside there word)
        λ _ k' b. go k' inside off b
    where
      go :
          (k' : Kernel)
          → p < max_proc
          → IsOff live qs 0 p
          → Passed live k qs a p k'
          → PassedOrBlocked a p k'
      go k' inside off (inl lower) = inl lower
      go k' inside off (inr (closed, b)) =
          inr (closed, not_dropped a p (k.states sysbk_oldarea) k' inside off b)

  pub passeren-Sound :
      (a p : ℕ)
      → k.current_proc ≡ some p
      → (a == null) ≡ false
      → k.words a < word_size
      → Returns (λ _ k'. IsSound live k') (passeren a k)
  passeren-Sound a p e there word =
      Returns-map _ _ (passeren a k) (passeren-PassedOrBlocked a p e there word) λ _ k' b. go k' b
    where
      go : (k' : Kernel) → PassedOrBlocked a p k' → IsSound live k'
      go k' (inl (_, same)) = (qs, rw same (Sound-frame k s _ refl refl refl refl))
      go k' (inr (_, (qs', _, sound))) = (qs', sound)

  pub Dispatched-Sound :
      (p : ℕ) (ps : List ℕ) (st : StateT) (k' : Kernel)
      → qs ready_queue ≡ p ∷ ps
      → Dispatched live k qs p ps st k'
      → Sound live k' (put qs ready_queue ps)
  Dispatched-Sound p ps st k' whole d = record {
    queues = d.queues;
    heads = s.heads;
    family = Family-same k' (λ h x y z w. ground arith) d.parents s.family;
    every = λ j lt. ground (arith, s.every j lt);
    running = λ c f.
        let same : p ≡ c = ground (arith, f, d.current) in
        (
          s.queues.semaphores.inside ready_queue c s.queues.ready_live (rw whole (ground arith)),
          subst (IsOff live (put qs ready_queue ps) 0) same d.gone,
        );
  }

  pub Preempted-Sound :
      (p : ℕ) (old st : StateT) (k' : Kernel)
      → k.current_proc ≡ some p
      → (r : Preempted live k qs p old st k') → Sound live k' r.qs'
  Preempted-Sound p old st k' e r = record {
    queues = r.queues;
    heads = s.heads;
    family = Family-same k' (λ h x y z w. r.others h w) r.parents s.family;
    every = λ j lt. ground (
      arith,
      s.every j lt,
      ap (has j) (r.others asl (omega arith)),
      ap (has j) (r.others semd_free (omega arith)),
    );
    running = λ c f.
        let same : r.next ≡ c = ground (arith, f, r.current) in
        (
          ground (
            arith,
            ap (has c) r.line,
            has-insert_by
                (λ i. if i == p then (k.pcbs p).original_priority else (aged_pcbs k qs i).priority)
                c p (qs ready_queue),
            (s.running p e).0,
            s.queues.semaphores.inside ready_queue c s.queues.ready_live,
          ),
          subst (IsOff live r.qs' 0) same r.gone,
        );
  }

  pub scheduler_resume-Sound :
      (ended : Bool) (old : ℕ)
      → ((p : ℕ) → k.current_proc ≡ some p → (old == null) ≡ false)
      → (ended ≡ true → (i : ℕ) → i < max_proc → rank (k.pcbs i).priority < word_size - 1)
      → Leaves (λ _ k'. IsSound live k') (scheduler_resume ended old k)
  scheduler_resume-Sound ended old there small =
      Leaves-map _ _ (scheduler_resume ended old k)
        (scheduler_resume-Leaves k ended old s.queues
          (λ p e. (there p e, (s.running p e).0, (s.running p e).1))
          (λ over.
            All-of_has _ (qs ready_queue) λ i on.
              small over i (s.queues.semaphores.inside ready_queue i s.queues.ready_live on)))
        λ st k' r. go st k' r
    where
      go : (st : StateT) (k' : Kernel) → Resumed k s.queues ended old st k' → IsSound live k'
      go st k' (inl (_, inl (_, _, same))) = (qs, rw same s)
      go st k' (inl (_, inr (p, ps, whole, d))) =
          (put qs ready_queue ps, Dispatched-Sound p ps st k' whole d)
      go st k' (inr (inl (p, e, _, _, q, a))) = (qs, Accounted-Sound k s true k' a)
      go st k' (inr (inr (p, e, _, r))) = (r.qs', Preempted-Sound p _ st k' e r)
