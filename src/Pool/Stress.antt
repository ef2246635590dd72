-- ===== src/Pool/Stress.antt =====
-- proc_stress (src/services/halaos_runtime.c): rounds of proc_alloc and proc_reap.
use halaos_stm32f103_hardwar.Prelude.{
  ℕ, zero, suc, ◌+◌, ◌<◌, ◌≡◌, ◌%◌, refl, sym, ap, ◌∙◌, true, false, ◌==◌, inc32, u32_mod, some,
  arith, Bool-cases, inl, inr, eqb_refl, eqb→eq,
}
use halaos_stm32f103_hardwar.Pool.{
  ProcSlot, Pool, StressResult, pool_len, find_free, claim, claim_found, proc_alloc, proc_reap,
  recycle, stress_loop, proc_stress,
}

-- What a slot that is not in use holds.
abbrev pub IsClean : Pool → Type 0
IsClean s = (i : ℕ) → (s.slots i).used ≡ false → ((s.slots i).timers ≡ 0) × ((s.slots i).queues ≡ 0)

find_free_same :
    (left i : ℕ) (f g : ℕ → ProcSlot)
    → ((j : ℕ) → (f j).used ≡ (g j).used)
    → find_free left i f ≡ find_free left i g
unfolding find_free
find_free_same zero i f g same = refl
find_free_same (suc left) i f g same = rw (same i, find_free_same left (i + 1) f g same) refl

find_free-free :
    (left i n : ℕ) (f : ℕ → ProcSlot)
    → find_free left i f ≡ some n
    → ((f n).used ≡ false) × (n < i + left)
unfolding find_free
find_free-free zero i n f h = absurd cc
find_free-free (suc left) i n f h = ground (arith, find_free-free left (i + 1) n f)

-- A round on slot `i`.
abbrev round : ℕ → Pool → Pool
round i s = recycle (some i) (claim i s)

record Recycled (i : ℕ) (s r : Pool) : Type 0 where
  spawns : r.spawns ≡ inc32 s.spawns
  reaps : r.reaps ≡ inc32 s.reaps
  leaks : r.leaks ≡ s.leaks
  free : (r.slots i).used ≡ false
  clean : ((r.slots i).timers ≡ 0) × ((r.slots i).queues ≡ 0)
  others : (j : ℕ) → (j == i) ≡ false → r.slots j ≡ s.slots j

round-Recycled :
    (i : ℕ) (s : Pool)
    → i < pool_len
    → (s.slots i).used ≡ false
    → IsClean s
    → Recycled i s (round i s)
unfolding recycle claim proc_reap
round-Recycled i s lt free clean =
    let c = clean i free in
    let here = eqb_refl i in
    record {
      spawns = ground arith;
      reaps = ground arith;
      leaks = ground arith;
      free = ground arith;
      clean = ground arith;
      others = λ j other. ground arith;
    }

used_same :
    (i : ℕ) (s r : Pool)
    → (s.slots i).used ≡ false
    → Recycled i s r
    → (j : ℕ) → (r.slots j).used ≡ (s.slots j).used
used_same i s r free h j = elim (Bool-cases (j == i)) [
  | inl here ↦ rw (eqb→eq j i here) (h.free ∙ sym free)
  | inr other ↦ ap (λ (t : ProcSlot). t.used) (h.others j other)
]

IsClean-same : (i : ℕ) (s r : Pool) → IsClean s → Recycled i s r → IsClean r
IsClean-same i s r clean h j free = elim (Bool-cases (j == i)) [
  | inl here ↦ rw (eqb→eq j i here) h.clean
  | inr other ↦
      let e = h.others j other in
      let c = clean j (ap (λ (t : ProcSlot). t.used) (sym e) ∙ free) in
      (ap (λ (t : ProcSlot). t.timers) e ∙ c.0, ap (λ (t : ProcSlot). t.queues) e ∙ c.1)
]

count_on : (x n : ℕ) → (inc32 x + n) % u32_mod ≡ (x + suc n) % u32_mod
count_on x n = omega arith

-- What `n` rounds on slot `i` change.
pub record Rounds (n i : ℕ) (s r : Pool) : Type 0 where
  pub spawns : r.spawns ≡ (s.spawns + n) % u32_mod
  pub reaps : r.reaps ≡ (s.reaps + n) % u32_mod
  pub leaks : r.leaks ≡ s.leaks
  pub used : (j : ℕ) → (r.slots j).used ≡ (s.slots j).used
  pub others : (j : ℕ) → (j == i) ≡ false → r.slots j ≡ s.slots j

Rounds-suc :
    (n i : ℕ) (s m r : Pool)
    → (s.slots i).used ≡ false
    → Recycled i s m
    → Rounds n i m r
    → Rounds (suc n) i s r
Rounds-suc n i s m r free h next = record {
  spawns = next.spawns ∙ (ap (λ x. (x + n) % u32_mod) h.spawns ∙ count_on s.spawns n);
  reaps = next.reaps ∙ (ap (λ x. (x + n) % u32_mod) h.reaps ∙ count_on s.reaps n);
  leaks = next.leaks ∙ h.leaks;
  used = λ j. next.used j ∙ used_same i s m free h j;
  others = λ j other. next.others j other ∙ h.others j other;
}

stress_loop-Rounds :
    (n i : ℕ) (s : Pool)
    → s.spawns < u32_mod
    → s.reaps < u32_mod
    → IsClean s
    → find_free pool_len 0 s.slots ≡ some i
    → let r = stress_loop n s in (r.1 ≡ true) × Rounds n i s r.0
unfolding stress_loop proc_alloc claim_found
stress_loop-Rounds zero i s sp re clean found = (
  refl,
  record {
    spawns = omega arith;
    reaps = omega arith;
    leaks = refl;
    used = λ j. refl;
    others = λ j other. refl;
  },
)
stress_loop-Rounds (suc n) i s sp re clean found =
    let (free, lt) = find_free-free pool_len 0 i s.slots found in
    let m : Pool = round i s in
    let h : Recycled i s m = round-Recycled i s lt free clean in
    let again = find_free_same pool_len 0 m.slots s.slots (used_same i s m free h) ∙ found in
    let rest =
      stress_loop-Rounds n i m (rw h.spawns (omega arith)) (rw h.reaps (omega arith))
        (IsClean-same i s m clean h) again in
    rw found (rest.0, Rounds-suc n i s m (stress_loop n m).0 free h rest.1)

-- Where both counters are u32 values, the slots that are not in use have no timers and no queues,
-- and slot `i` is the first that is not in use: proc_stress of `n` rounds passes; it spawns and
-- reaps `n` times, modulo 2^32, and leaks nothing; each slot is in use afterwards if it was
-- before; and no slot but `i` changed.
pub proc_stress-Rounds :
    (n i : ℕ) (s : Pool)
    → s.spawns < u32_mod
    → s.reaps < u32_mod
    → IsClean s
    → find_free pool_len 0 s.slots ≡ some i
    → let r = proc_stress n s in (r.1 ≡ StressResult.passed) × Rounds n i s r.0
unfolding proc_stress
proc_stress-Rounds n i s sp re clean found =
    let h = stress_loop-Rounds n i s sp re clean found in
    let same : ((stress_loop n s).0.leaks == s.leaks) ≡ true = rw h.1.leaks (eqb_refl s.leaks) in
    (rw (h.0, same) refl, h.1)
