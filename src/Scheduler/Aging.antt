-- ===== src/Scheduler/Aging.antt =====
-- `aging` of src/scheduler.c.
use bi_kaya.Base.{
  ℕ, zero, suc, ◌+◌, ◌-◌, ◌%◌, ◌<◌, ◌≤◌, ◌≡◌, refl, ap, ◌∙◌, fun_ext, inl, inr, Bool, true, false,
  List, [], ◌∷◌, map, arith, ◌==◌, if◌then◌else◌, Bool-cases, ==_refl, length, has, Distinct, All,
  All-has, All-of_has,
}
use bi_kaya.ListX.{put}
use bi_kaya.ListX.Chain.{Chain}
use bi_kaya.ListX.Rings.{off_head}
use bi_kaya.Types.{Pcb, word_size, rank, container_of, slot, ready_queue}
use bi_kaya.Types.Lists.{entries, distinct}
use bi_kaya.Types.Slots.{length-map}
use bi_kaya.Machine.{Kernel, ok, for_each_from, for_each_entry, set_pcb, fuel}
use bi_kaya.Pcb.Order.{ByPriority}
use bi_kaya.Asl.Semaphores.{short}
use bi_kaya.Scheduler.{aging}
use bi_kaya.Scheduler.Queues.{Queues, Semaphores-frame}

-- `f` at each node's structure, in order.
abbrev over : (Pcb → Pcb) → List ℕ → (ℕ → Pcb) → ℕ → Pcb
over f [] pcbs = pcbs
over f (x ∷ xs) pcbs = over f xs (put pcbs (container_of x) (f (pcbs (container_of x))))

for_each_from-over :
    (n : ℕ) (f : Pcb → Pcb) (k : Kernel) (a h : ℕ) (xs : List ℕ)
    → Chain k.links a xs h
    → has h xs ≡ false
    → length xs < n
    → for_each_from n (λ it. set_pcb it f) h (k.links.next a) k
      ≡ ok tt (record k { pcbs = over f xs k.pcbs })
unfolding for_each_from
for_each_from-over zero f k a h xs c out enough = absurd (omega arith)
for_each_from-over (suc n) f k a h [] c out enough = rw (c.0, ==_refl h) refl
for_each_from-over (suc n) f k a h (x ∷ xs) c out enough =
    let differ : (x == h) ≡ false = ground arith in
    rw (c.0, differ)
      (for_each_from-over n f
        (record k { pcbs = put k.pcbs (container_of x) (f (k.pcbs (container_of x))) }) x h xs c.2
        (ground arith) (omega arith))

over-slots :
    (f : Pcb → Pcb) (h : ℕ) (xs : List ℕ) (pcbs : ℕ → Pcb) (i : ℕ)
    → Distinct xs
    → over f (map (slot h) xs) pcbs i ≡ (if has i xs then f (pcbs i) else pcbs i)
over-slots f h [] pcbs i d = refl
over-slots f h (x ∷ xs) pcbs i d =
    let back : container_of (slot h x) ≡ x = ground arith in
    over-slots f h xs _ i d.1
    ∙ rw back (elim (Bool-cases (i == x)) [
      | inl here ↦ let same : i ≡ x = ground arith in rw (here, same, d.0) refl
      | inr other ↦ rw other refl
    ])

abbrev pub aged : Pcb → Pcb
aged b = record b { priority = (b.priority + 1) % word_size }

-- `aging` with well-formed queues returns, has raised the priority of each process of the ready queue
-- by one, as an `int` that wraps around, and has written nothing else.
pub aging-aged :
    {live : ℕ → Bool} (k : Kernel) {qs : ℕ → List ℕ}
    → Queues live k qs
    → aging k
      ≡ ok tt
          (record k { pcbs = λ i. if has i (qs ready_queue) then aged (k.pcbs i) else k.pcbs i })
unfolding aging for_each_entry
aging-aged k {qs} q =
    for_each_from-over fuel aged k ready_queue ready_queue (entries qs ready_queue)
      (q.semaphores.lists.rings.ring ready_queue q.ready_live)
      (off_head q.semaphores.lists.rings ready_queue q.ready_live)
      (omega (
        arith,
        length-map ready_queue (qs ready_queue),
        short q.semaphores.descriptors ready_queue q.ready_live,
      ))
    ∙ ap (λ (m : ℕ → Pcb). ok tt (record k { pcbs = m }))
        (fun_ext λ i.
          over-slots aged ready_queue (qs ready_queue) k.pcbs i
            (distinct q.semaphores.lists ready_queue q.ready_live))

pub rank-raised : (w : ℕ) → rank w < word_size - 1 → rank ((w + 1) % word_size) ≡ rank w + 1
rank-raised w small = omega arith

pub ByPriority-raised :
    (f g : ℕ → ℕ) (xs : List ℕ)
    → All (λ i. rank (g i) < word_size - 1) xs
    → ((i : ℕ) → has i xs ≡ true → f i ≡ (g i + 1) % word_size)
    → ByPriority g xs
    → ByPriority f xs
ByPriority-raised f g [] small same s = tt
ByPriority-raised f g (x ∷ xs) small same s = (
  All-of_has (λ y. rank (f y) ≤ rank (f x)) xs lower,
  ByPriority-raised f g xs small.1 (λ i on. same i (ground arith)) s.1,
)
  where
    lower : (y : ℕ) → has y xs ≡ true → rank (f y) ≤ rank (f x)
    lower y on =
        rw
          (
            same y (ground arith),
            same x (ground arith),
            rank-raised (g y) (All-has _ y xs small.1 on),
            rank-raised (g x) small.0,
          )
          (omega (arith, All-has (λ z. rank (g z) ≤ rank (g x)) y xs s.0 on))

-- So the queue stays ordered while no priority wraps around.
pub aged-Queues :
    {live : ℕ → Bool} (k : Kernel) {qs : ℕ → List ℕ}
    → Queues live k qs
    → All (λ i. rank (k.pcbs i).priority < word_size - 1) (qs ready_queue)
    → Queues live
        (record k { pcbs = λ i. if has i (qs ready_queue) then aged (k.pcbs i) else k.pcbs i })
        qs
aged-Queues k {qs} q small = record {
  semaphores = Semaphores-frame _ q.semaphores refl refl (λ i. ground arith);
  ready_live = q.ready_live;
  ordered = ByPriority-raised _ _ (qs ready_queue) small (λ i on. rw on refl) q.ordered;
}
