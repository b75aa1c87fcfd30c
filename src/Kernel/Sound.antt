-- ===== src/Kernel/Sound.antt =====
-- What holds of the whole kernel between two calls of its handlers, and that the operations of
-- src/scheduler.c, src/syscalls.c and src/interrupts.c on the queues keep it so.
use bi_kaya.Base.{
  ℕ, ◌<◌, ◌≡◌, ◌≢◌, refl, ap, sym, ◌∙◌, inl, inr, ◌⊎◌, Bool, true, false, Option, none, some, List,
  [], ◌∷◌, arith, ◌==◌, find, has, head?,
}
use bi_kaya.Types.{null, max_proc, s_proc_q, asl, member, pcb_free_head, ready_queue}
use bi_kaya.Types.Lists.{IsOff}
use bi_kaya.Machine.{Kernel, Returns, Returns-map}
use bi_kaya.Asl.Semaphores.{described, waiting, queue_at, found_key}
use bi_kaya.Scheduler.Queues.{Queues, Queues-frame}
use bi_kaya.Scheduler.Time.{Accounted, Accounted-SameButClock}
use bi_kaya.Scheduler.Resume.{account}
use bi_kaya.Syscalls.{verhogen}
use bi_kaya.Syscalls.Verhogen.{Readied, Raised, verhogen-Raised}
use bi_kaya.Interrupts.{unblock_process}
use bi_kaya.Interrupts.Unblock.{Unblocked, unblock_process-Unblocked}
use bi_kaya.Kernel.Family.{Family, Family-same}

-- The lists of processes are the free list, the ready queue and the queues of the descriptors.
pub record ProcessHeads (live : ℕ → Bool) : Type 0 where
  pub free_live : live pcb_free_head ≡ true
  pub places :
      (h : ℕ)
      → live h ≡ true
      → member h ≡ 0
      → (h ≡ ready_queue) ⊎ ((h ≡ pcb_free_head) ⊎ ((j : ℕ) × (h ≡ s_proc_q j) × (j < max_proc)))

-- The queues are well-formed, every descriptor is in use or free, no other queues hold processes, and the
-- current process is in none of them.
pub record Sound (live : ℕ → Bool) (k : Kernel) (qs : ℕ → List ℕ) : Type 0 where
  pub queues : Queues live k qs
  pub heads : ProcessHeads live
  pub family : Family live k qs
  pub every : (j : ℕ) → j < max_proc → described qs j ≡ true
  pub running : (c : ℕ) → k.current_proc ≡ some c → (c < max_proc) × IsOff live qs 0 c

abbrev pub IsSound : (ℕ → Bool) → Kernel → Type 0
IsSound live k = (qs : ℕ → List ℕ) × Sound live k qs

-- Sound, whatever lists of children there are.
abbrev pub Stands : Kernel → Type 0
Stands k = (live : ℕ → Bool) × IsSound live k

module _ {live : ℕ → Bool} (k : Kernel) {qs : ℕ → List ℕ} (s : Sound live k qs) where
  -- Writes to the processes that the queues and the tree do not look at.
  pub Sound-pcbs :
      (k' : Kernel)
      → k'.links ≡ k.links
      → k'.s_keys ≡ k.s_keys
      → ((i : ℕ)
          → ((k'.pcbs i).p_semkey ≡ (k.pcbs i).p_semkey)
            × ((k'.pcbs i).priority ≡ (k.pcbs i).priority)
            × ((k'.pcbs i).p_parent ≡ (k.pcbs i).p_parent))
      → k'.current_proc ≡ k.current_proc
      → Sound live k' qs
  Sound-pcbs k' links keys pcbs current = record {
    queues = Queues-frame k' s.queues links keys λ i. ((pcbs i).0, (pcbs i).1);
    heads = s.heads;
    family = Family-same k' (λ h a b c d. refl) (λ i. (pcbs i).2) s.family;
    every = s.every;
    running = λ c e. s.running c (sym current ∙ e);
  }

  -- Writes to words, saved states and the clock.
  pub Sound-frame :
      (k' : Kernel)
      → k'.links ≡ k.links
      → k'.s_keys ≡ k.s_keys
      → k'.pcbs ≡ k.pcbs
      → k'.current_proc ≡ k.current_proc
      → Sound live k' qs
  Sound-frame k' links keys pcbs current =
      Sound-pcbs k' links keys (λ i. (rw pcbs refl, rw pcbs refl, rw pcbs refl)) current

  -- The accounting of time.
  pub Accounted-Sound : (kernel : Bool) (k' : Kernel) → Accounted kernel k k' → Sound live k' qs
  Accounted-Sound kernel k' a = record {
    queues = account k s.queues k' a;
    heads = s.heads;
    family =
        Family-same k' (λ h x b c d. refl) (λ i. (Accounted-SameButClock kernel k k' a i).p_parent)
          s.family;
    every = s.every;
    running = λ c e. s.running c (sym (ap (λ (m : Kernel). m.current_proc) a.same) ∙ e);
  }

  pub waiting-IsOff : (key c : ℕ) → IsOff live qs 0 c → has c (waiting k qs key) ≡ false
  unfolding waiting queue_at
  waiting-IsOff key c off = go (find (λ j. k.s_keys j == key) (qs asl)) refl
    where
      go :
          (o : Option ℕ)
          → find (λ j. k.s_keys j == key) (qs asl) ≡ o
          → has c (queue_at qs o) ≡ false
      go none e = refl
      go (some j) e =
          let (on, _) = found_key s.queues.semaphores.descriptors j key e in
          off (s_proc_q j) (s.queues.semaphores.queues j (ground arith)) (ground arith)

  has_head : (p : ℕ) (xs : List ℕ) → head? xs ≡ some p → has p xs ≡ true
  has_head p [] e = ground arith
  has_head p (x ∷ xs) e = ground arith

  -- Where only `p`, which was waiting, has changed its queue, the current process is off them still.
  still_off :
      (key p c : ℕ) (qs' : ℕ → List ℕ)
      → head? (waiting k qs key) ≡ some p
      → ((h i : ℕ) → member h ≡ 0 → i ≢ p → has i (qs' h) ≡ has i (qs h))
      → IsOff live qs 0 c
      → IsOff live qs' 0 c
  still_off key p c qs' first only off h at via =
      only h c via
        (λ same. ground (arith, same, has_head p (waiting k qs key) first, waiting-IsOff key c off))
      ∙ off h at via

  pub Readied-Sound :
      (key p : ℕ) (k' : Kernel) (qs' : ℕ → List ℕ)
      → Readied k s.queues key p k' qs'
      → Sound live k' qs'
  Readied-Sound key p k' qs' r = record {
    queues = r.queues;
    heads = s.heads;
    family =
        Family-same k' r.elsewhere
          (λ i. ap (λ (m : Kernel). (m.pcbs i).p_parent) r.same ∙ ground arith) s.family;
    every = λ j lt. r.kept j ∙ s.every j lt;
    running = λ c e.
        let (inside, off) = s.running c (sym (ap (λ (m : Kernel). m.current_proc) r.same) ∙ e) in
        (inside, still_off key p c qs' r.first r.only off);
  }

  pub verhogen-Sound :
      (a : ℕ) → (a == null) ≡ false → Returns (λ _ k'. IsSound live k') (verhogen a k)
  verhogen-Sound a there =
      Returns-map _ _ (verhogen a k) (verhogen-Raised k s.queues a there) λ _ k' r. go k' r
    where
      go : (k' : Kernel) → Raised k s.queues a k' → IsSound live k'
      go k' (inl (_, same)) = (qs, rw same (Sound-frame _ refl refl refl refl))
      go k' (inr (p, qs', r)) = (qs', Readied-Sound a p k' qs' r)

  pub Unblocked-Sound :
      (key status p : ℕ) (k' : Kernel) (qs' : ℕ → List ℕ)
      → head? (waiting k qs key) ≡ some p
      → Unblocked live k qs key status p k' qs'
      → Sound live k' qs'
  Unblocked-Sound key status p k' qs' first u = record {
    queues = u.queues;
    heads = s.heads;
    family = Family-same k' u.elsewhere u.parents s.family;
    every = λ j lt. u.kept j ∙ s.every j lt;
    running = λ c e.
        let (inside, off) = s.running c (sym u.current ∙ e) in
        (inside, still_off key p c qs' first u.only off);
  }

  pub unblock_process-Sound :
      (key status p : ℕ)
      → head? (waiting k qs key) ≡ some p
      → Returns (λ _ k'. IsSound live k') (unblock_process key status k)
  unblock_process-Sound key status p first =
      Returns-map _ _ (unblock_process key status k)
        (unblock_process-Unblocked k s.queues key status p first)
        λ _ k' (qs', u). (qs', Unblocked-Sound key status p k' qs' first u)
