-- ===== src/Kernel/Boot.antt =====
-- The lists when the kernel starts: `LIST_HEAD` of the four dummies, then `pcb_init` and `asl_init`.
use bi_kaya.Base.{
  ℕ, zero, suc, ◌+◌, ◌/◌, ◌%◌, ◌<◌, ◌≤◌, ◌≡◌, refl, ap, sym, ◌∙◌, fun_ext, subst, Bool, true, false,
  ◌||◌, ◌&&◌, List, [], ◌∷◌, arith, ◌==◌, ltb, leb, if◌then◌else◌, has,
}
use bi_kaya.ListX.{Links, put, list_add, init_list_head}
use bi_kaya.Types.{
  max_proc, null, slot, s_next, s_proc_q, pcb_free_head, ready_queue, semd_free, asl,
}
use bi_kaya.Types.Lists.{Lists, list_add-Lists, init_list_head-Lists}
use bi_kaya.Machine.{Kernel, Returns, Returns-bind, Returns-map, SameButLinks, ◌>>◌}
use bi_kaya.Pcb.{pcb_init}
use bi_kaya.Pcb.Free.{in_front, pcb_init_loop-in_front}
use bi_kaya.Asl.{init_semd, asl_init_loop, asl_init}
use bi_kaya.Asl.Semaphores.{Semaphores}

-- The dummies, and the queues of the first `n` descriptors.
abbrev pub boot_live : ℕ → ℕ → Bool
boot_live n h =
    (h == pcb_free_head)
    || (h == ready_queue)
    || (h == semd_free)
    || (h == asl)
    || ((h % 8 == 4) && ltb (h / 8) n)

abbrev pub boot_lists : (fs ss : List ℕ) → ℕ → List ℕ
boot_lists fs ss h = if h == pcb_free_head then fs else if h == semd_free then ss else []

-- Memory before `main`: the dummies point to themselves.
abbrev pub static_links : Links
static_links = record {
  next = λ a. if boot_live 0 a then a else null;
  prev = λ a. if boot_live 0 a then a else null;
}

no_lists : (h : ℕ) → boot_lists [] [] h ≡ []
no_lists h = ground arith

pub static-Lists : Lists (boot_live 0) static_links (boot_lists [] [])
static-Lists = record {
  rings = record {
    ring = λ h at. rw (no_lists h) (ground arith, ground arith);
    distinct = λ h at. rw (no_lists h) tt;
    entries = λ h n at i. ground (arith, no_lists h);
    apart = λ g h n a b i j. ground (arith, no_lists g);
  };
  heads = λ h at. ground arith;
}

-- What `boot_live` and `boot_lists` become in one round of `asl_init`.
live-suc : (n : ℕ) → (λ h. h == s_proc_q n || boot_live n h) ≡ boot_live (n + 1)
live-suc n = fun_ext λ h. ground arith

lists-put_free : (fs gs ss : List ℕ) → put (boot_lists fs ss) pcb_free_head gs ≡ boot_lists gs ss
lists-put_free fs gs ss = fun_ext λ h. ground arith

lists-put_semd : (fs ss ts : List ℕ) → put (boot_lists fs ss) semd_free ts ≡ boot_lists fs ts
lists-put_semd fs ss ts = fun_ext λ h. ground arith

lists-put_queue :
    (fs ss : List ℕ) (i : ℕ) → put (boot_lists fs ss) (s_proc_q i) [] ≡ boot_lists fs ss
lists-put_queue fs ss i = fun_ext λ h. ground arith

init_semd-Lists :
    (i : ℕ) (k : Kernel) (fs ss : List ℕ)
    → Lists (boot_live i) k.links (boot_lists fs ss)
    → has i ss ≡ false
    → Lists (boot_live (i + 1)) (init_semd i k).links (boot_lists fs (i ∷ ss))
unfolding init_semd
init_semd-Lists i k fs ss r new =
    let place : slot semd_free i ≡ s_next i = omega arith in
    let opened : Lists (boot_live (i + 1)) (init_list_head k.links (s_proc_q i))
        (boot_lists fs ss) =
      subst (λ live. Lists live (init_list_head k.links (s_proc_q i)) (boot_lists fs ss))
        (live-suc i)
        (subst (Lists _ _) (lists-put_queue fs ss i)
          (init_list_head-Lists r (s_proc_q i) (ground arith))) in
    subst
      (λ n.
        Lists (boot_live (i + 1)) (list_add (init_list_head k.links (s_proc_q i)) n semd_free)
          (boot_lists fs (i ∷ ss)))
      place
      (subst (Lists _ _) (lists-put_semd fs ss (i ∷ ss))
        (list_add-Lists opened semd_free i (ground arith) (λ h at same. ground arith)))

-- The links and the keys are all that the loop writes.
asl_init_loop-Lists :
    (n i : ℕ) (k : Kernel) (fs ss : List ℕ)
    → Lists (boot_live i) k.links (boot_lists fs ss)
    → ((j : ℕ) → i ≤ j → has j ss ≡ false)
    → Lists (boot_live (n + i)) (asl_init_loop n i k).links (boot_lists fs (in_front n i ss))
unfolding asl_init_loop in_front
asl_init_loop-Lists zero i k fs ss r new = let start : 0 + i ≡ i = omega arith in rw start r
asl_init_loop-Lists (suc n) i k fs ss r new =
    let count : n + (i + 1) ≡ suc n + i = omega arith in
    rw count at (
      asl_init_loop-Lists n (i + 1) (init_semd i k) fs (i ∷ ss)
        (init_semd-Lists i k fs ss r (new i (omega arith)))
        (λ j le. ground (arith, new j (omega arith))))

asl_init_loop-frame :
    (n i : ℕ) (k : Kernel)
    → asl_init_loop n i k
      ≡ record k { links = (asl_init_loop n i k).links; s_keys = (asl_init_loop n i k).s_keys }
unfolding asl_init_loop init_semd
asl_init_loop-frame zero i k = refl
asl_init_loop-frame (suc n) i k = asl_init_loop-frame n (i + 1) (init_semd i k)

has-in_front :
    (n i j : ℕ) (xs : List ℕ) → has j (in_front n i xs) ≡ ((leb i j && ltb j (n + i)) || has j xs)
unfolding in_front
has-in_front zero i j xs = ground arith
has-in_front (suc n) i j xs = ground (arith, has-in_front n (i + 1) j (i ∷ xs))

abbrev pub table : List ℕ
table = in_front max_proc 0 []

table-inside : (i : ℕ) → has i table ≡ true → i < max_proc
table-inside i on = ground (arith, has-in_front max_proc 0 i [])

boot-Semaphores :
    (k : Kernel) (fs : List ℕ)
    → ((i : ℕ) → has i fs ≡ true → i < max_proc)
    → Lists (boot_live max_proc) k.links (boot_lists fs table)
    → Semaphores (boot_live max_proc) k (boot_lists fs table)
boot-Semaphores k fs below r = record {
  descriptors = record {
    lists = r;
    inside = λ h i at on. ground (arith, table-inside i, below i);
    asl_live = ground arith;
    free_live = ground arith;
    queues = λ j on. ground (arith, table-inside j);
    idle = λ j on. ground arith;
    keyed = λ i j a b e. ground arith;
    blocked = λ j i a b. ground arith;
  };
  busy = λ j on. ground arith;
}

-- Every descriptor is free after `asl_init` alone.
pub asl_init_loop-Semaphores :
    (k : Kernel)
    → k.links ≡ static_links
    → Semaphores (boot_live max_proc) (asl_init_loop max_proc 0 k) (boot_lists [] table)
asl_init_loop-Semaphores k e =
    boot-Semaphores _ [] (λ i on. ground arith)
      (asl_init_loop-Lists max_proc 0 k [] []
        (subst (λ l. Lists (boot_live 0) l (boot_lists [] [])) (sym e) static-Lists) λ j le. refl)

pub has-table : (j : ℕ) → j < max_proc → has j table ≡ true
has-table j lt = ground (arith, has-in_front max_proc 0 j [])

pub pcb_init_lem :
    (k : Kernel)
    → Lists (boot_live 0) k.links (boot_lists [] [])
    → Returns
        (λ _ k'. Lists (boot_live 0) k'.links (boot_lists table []) × SameButLinks k k')
        (pcb_init k)
unfolding pcb_init
pcb_init_lem k r = (
  subst (Lists _ _) (lists-put_free [] table []) (
      pcb_init_loop-in_front max_proc 0 k.links (boot_lists [] []) r (ground arith)
        λ j le h at same. ground arith),
  refl,
)

pub asl_init_lem :
    (k : Kernel)
    → Lists (boot_live 0) k.links (boot_lists table [])
    → Returns
        (λ _ k'.
          Semaphores (boot_live max_proc) k' (boot_lists table table)
          × (k' ≡ record k { links = k'.links; s_keys = k'.s_keys }))
        (asl_init k)
unfolding asl_init
asl_init_lem k r = (
  boot-Semaphores _ table table-inside (asl_init_loop-Lists max_proc 0 k table [] r λ j le. refl),
  asl_init_loop-frame max_proc 0 k,
)

-- From a memory in which the four static list heads are empty and all other list pointers are `NULL`,
-- `pcb_init` and then `asl_init` leave every process control block on the free list and every
-- descriptor on the free list of descriptors, with the semaphores well-formed, and write nothing but
-- list pointers and semaphore keys.
pub asl_init-Semaphores :
    (k : Kernel)
    → k.links ≡ static_links
    → Returns
        (λ _ k'.
          Semaphores (boot_live max_proc) k' (boot_lists table table)
          × (k' ≡ record k { links = k'.links; s_keys = k'.s_keys }))
        ((pcb_init >> asl_init) k)
asl_init-Semaphores k e =
    Returns-bind _ _ (pcb_init k) (λ _. asl_init)
      (pcb_init_lem k (subst (λ l. Lists (boot_live 0) l (boot_lists [] [])) (sym e) static-Lists))
      λ _ k' done. Returns-map _ _ (asl_init k') (asl_init_lem k' done.0) λ _ k'' end. (
        end.0,
        end.1 ∙ ap {A = Kernel} (λ j. record j { links = k''.links; s_keys = k''.s_keys }) done.1,
      )
