-- ===== src/Examples.antt =====
-- A small memory on which the theorems are applied: two processes blocked on a key, two ready, one of
-- them the child of the other, one free, and a free descriptor.
pub mod Rings
pub mod Processes
pub mod Blocked
pub mod Scheduling
pub mod Handlers
pub mod Drivers
pub mod Whole
pub mod System
pub mod Trees
pub mod Entries
pub mod Reach
pub mod Subtree
use bi_kaya.Base.{
  ℕ, ◌+◌, ◌*◌, ◌%◌, ◌<◌, ◌≤◌, ◌≡◌, refl, inl, inr, Bool, true, false, ◌||◌, ◌&&◌, not, Option, none,
  some, List, [], ◌∷◌, arith, ◌==◌, if◌then◌else◌, has, Bool-cases, is_nil,
}
use bi_kaya.ListX.{Links, put, list_add}
use bi_kaya.Types.{
  Pcb, max_proc, member, slot, p_next, p_child, s_next, s_proc_q, pcb_free_head, ready_queue,
  semd_free, asl,
}
use bi_kaya.Types.Lists.{Lists, IsOff, list_add-Lists}
use bi_kaya.Machine.{Kernel}
use bi_kaya.Pcb.{zero_state, zero_pcb}
use bi_kaya.Asl.Semaphores.{Semaphores}
use bi_kaya.Scheduler.Queues.{Queues}

abbrev pub heads : ℕ → Bool
heads h = (h % 8 == 1) || (h % 8 == 4) || (h % 8 == 5)

-- Entries and the heads to whose lists they are added, the last first.
abbrev pub Entries : Type 0
Entries = List (ℕ × ℕ)

abbrev pub links_of : Entries → Links
links_of [] = record { next = λ a. a; prev = λ a. a }
links_of ((h, i) ∷ es) = list_add (links_of es) (slot h i) h

abbrev pub lists_of : Entries → ℕ → List ℕ
lists_of [] = λ _. []
lists_of ((h, i) ∷ es) = put (lists_of es) h (i ∷ lists_of es h)

-- No list that is threaded through member `m` has `i`.
abbrev pub is_off : ℕ → ℕ → Entries → Bool
is_off m i [] = true
is_off m i ((h, j) ∷ es) = not ((i == j) && (member h == m)) && is_off m i es

abbrev pub fits : Entries → Bool
fits [] = true
fits ((h, i) ∷ es) = heads h && is_off (member h) i es && fits es

pub is_off-IsOff : (m i : ℕ) (es : Entries) → is_off m i es ≡ true → IsOff heads (lists_of es) m i
is_off-IsOff m i [] off = λ h at same. refl
is_off-IsOff m i ((g, j) ∷ es) off = λ h at same.
    ground
      (arith, is_off-IsOff m i es (ground arith) h at same, is_off-IsOff m i es (ground arith) g)

pub links_of-Lists : (es : Entries) → fits es ≡ true → Lists heads (links_of es) (lists_of es)
links_of-Lists [] ok = record {
  rings = record {
    ring = λ h at. (refl, refl);
    distinct = λ h at. tt;
    entries = λ h n at i. ground arith;
    apart = λ g h n a b i j. ground arith;
  };
  heads = λ h at. at;
}
links_of-Lists ((h, i) ∷ es) ok =
    list_add-Lists (links_of-Lists es (ground arith)) h i (ground arith)
      (is_off-IsOff (member h) i es (ground arith))

abbrev pub sample : Entries
sample =
    (asl, 3)
    ∷ (semd_free, 6)
    ∷ (s_proc_q 3, 2)
    ∷ (s_proc_q 3, 1)
    ∷ (ready_queue, 5)
    ∷ (ready_queue, 4)
    ∷ (pcb_free_head, 7)
    ∷ (p_child 5, 4)
    ∷ []

abbrev pub sample_lists : ℕ → List ℕ
sample_lists = lists_of sample

-- The semaphore of the first disk.
abbrev pub sample_key : ℕ
sample_key = 0x2000_8000

-- Process `i` has priority `i`; 1 and 2 wait for that key, and 4 is the child of 5.
abbrev pub sample_pcb : ℕ → Pcb
sample_pcb i = record zero_pcb {
  priority = i;
  original_priority = i;
  p_parent = if i == 4 then some 5 else none;
  p_semkey = if (i == 1) || (i == 2) then sample_key else 0;
}

abbrev pub memory : Kernel
memory = record {
  links = links_of sample;
  pcbs = sample_pcb;
  s_keys = λ j. if j == 3 then sample_key else 0;
  current_proc = some 8;
  switch_tick = 0;
  idle_proc_state = zero_state;
  words = λ _. 0;
  states = λ _. zero_state;
  tod = λ n. 1000 + n;
}

pub memory-Lists : Lists heads memory.links sample_lists
memory-Lists = links_of-Lists sample refl

pub memory-Semaphores : Semaphores heads memory sample_lists
memory-Semaphores = record {
  descriptors = record {
    lists = memory-Lists;
    inside = λ h i at on. ground arith;
    asl_live = refl;
    free_live = refl;
    queues = λ j on. ground arith;
    idle = λ j on. ground arith;
    keyed = λ i j a b e. ground arith;
    blocked = λ j i a b. ground arith;
  };
  busy = λ j on. ground arith;
}

pub memory-Queues : Queues heads memory sample_lists
memory-Queues = record {
  semaphores = memory-Semaphores;
  ready_live = refl;
  ordered = ((omega arith, tt), (tt, tt));
}

-- The current process, 8, is in no queue.
pub current-IsOff : IsOff heads sample_lists 0 8
current-IsOff = is_off-IsOff 0 8 sample refl
