-- ===== src/Sleep/Frame.antt =====
-- What sleep_insert and sleep_remove leave alone, and what the queue of sleepers depends on.
use halaos_stm32f103_hardwar.Prelude.{
  ℕ, zero, suc, ◌+◌, ◌≡◌, refl, ◌∙◌, Bool, arith, sub32, u32_mod, true, false, ◌==◌, ◌||◌, ltb,
  if◌then◌else◌,
}
use halaos_stm32f103_hardwar.Chain.{invalid_idx, max_tasks}
use halaos_stm32f103_hardwar.Kernel.{Sched}
use halaos_stm32f103_hardwar.Sleep.{
  sleep_remove, sleep_remove_loop, unlink_sleeper, sleep_insert, sleep_insert_loop, place_sleeper,
}
use halaos_stm32f103_hardwar.Sleep.Slots.{Entries, Slots-frame, Sleepers, sleep_next, sleep_delta}

-- `r` differs from `k` in the links and deltas of the sleep queue and in its head.
pub record SameButSleep (k r : Sched) : Type 0 where
  pub tasks :
      (x : ℕ)
      → r.tasks x ≡ record (k.tasks x) {
        sleep_next = (r.tasks x).sleep_next;
        sleep_delta = (r.tasks x).sleep_delta;
      }
  pub rt_head : r.rt_head ≡ k.rt_head
  pub rt_tail : r.rt_tail ≡ k.rt_tail
  pub rt_bitmap : r.rt_bitmap ≡ k.rt_bitmap

SameButSleep-trans : (k r s : Sched) → SameButSleep k r → SameButSleep r s → SameButSleep k s
SameButSleep-trans k r s a b = record {
  tasks = λ x. ground (arith, a.tasks x, b.tasks x);
  rt_head = b.rt_head ∙ a.rt_head;
  rt_tail = b.rt_tail ∙ a.rt_tail;
  rt_bitmap = b.rt_bitmap ∙ a.rt_bitmap;
}

SameButSleep-refl : (k : Sched) → SameButSleep k k
SameButSleep-refl k = record { tasks = λ x. refl; rt_head = refl; rt_tail = refl; rt_bitmap = refl }

choose-SameButSleep :
    (b : Bool) (k r s : Sched)
    → SameButSleep k r
    → SameButSleep k s
    → SameButSleep k (if b then r else s)
choose-SameButSleep true k r s a b = a
choose-SameButSleep false k r s a b = b

unlink-SameButSleep : (prev cur : ℕ) (k : Sched) → SameButSleep k (unlink_sleeper prev cur k)
unfolding unlink_sleeper
unlink-SameButSleep prev cur k = record {
  tasks = λ x. ground arith;
  rt_head = ground arith;
  rt_tail = ground arith;
  rt_bitmap = ground arith;
}

place-SameButSleep :
    (idx prev cur remain : ℕ) (k : Sched) → SameButSleep k (place_sleeper idx prev cur remain k)
unfolding place_sleeper
place-SameButSleep idx prev cur remain k = record {
  tasks = λ x. ground arith;
  rt_head = ground arith;
  rt_tail = ground arith;
  rt_bitmap = ground arith;
}

sleep_remove_loop-SameButSleep :
    (fuel idx prev cur : ℕ) (k : Sched) → SameButSleep k (sleep_remove_loop fuel idx prev cur k)
unfolding sleep_remove_loop
sleep_remove_loop-SameButSleep zero idx prev cur k = SameButSleep-refl k
sleep_remove_loop-SameButSleep (suc f) idx prev cur k =
    choose-SameButSleep (cur == invalid_idx) k k
      (if cur == idx
        then unlink_sleeper prev cur k
        else sleep_remove_loop f idx cur (sleep_next k cur) k)
      (SameButSleep-refl k)
      (choose-SameButSleep (cur == idx) k (unlink_sleeper prev cur k)
        (sleep_remove_loop f idx cur (sleep_next k cur) k) (unlink-SameButSleep prev cur k)
        (sleep_remove_loop-SameButSleep f idx cur (sleep_next k cur) k))

sleep_insert_loop-SameButSleep :
    (fuel idx prev cur remain : ℕ) (k : Sched)
    → SameButSleep k (sleep_insert_loop fuel idx prev cur remain k)
unfolding sleep_insert_loop
sleep_insert_loop-SameButSleep zero idx prev cur remain k = SameButSleep-refl k
sleep_insert_loop-SameButSleep (suc f) idx prev cur remain k =
    let delta : ℕ = sleep_delta k cur in
    choose-SameButSleep ((cur == invalid_idx) || ltb remain delta) k
      (place_sleeper idx prev cur remain k)
      (sleep_insert_loop f idx cur (sleep_next k cur) (sub32 remain delta) k)
      (place-SameButSleep idx prev cur remain k)
      (sleep_insert_loop-SameButSleep f idx cur (sleep_next k cur) (sub32 remain delta) k)

pub sleep_insert-SameButSleep :
    (idx ticks : ℕ) (k : Sched) → SameButSleep k (sleep_insert idx ticks k)
unfolding sleep_insert sleep_remove
sleep_insert-SameButSleep idx ticks k =
    let wait : ℕ = if ticks == 0 then 1 else ticks in
    let k' : Sched = sleep_remove idx k in
    SameButSleep-trans k k' (sleep_insert idx ticks k)
      (sleep_remove_loop-SameButSleep (max_tasks + 1) idx invalid_idx k.sleep_head k)
      (sleep_insert_loop-SameButSleep (max_tasks + 1) idx invalid_idx k'.sleep_head wait k')

-- The sleepers depend on the links, the deltas and the head alone.
pub Sleepers-frame :
    (k r : Sched) (now : ℕ) (es : Entries)
    → ((x : ℕ) → (sleep_next r x ≡ sleep_next k x) × (sleep_delta r x ≡ sleep_delta k x))
    → r.sleep_head ≡ k.sleep_head
    → Sleepers k now es
    → Sleepers r now es
Sleepers-frame k r now es same head v = record {
  slots = rw head (
      Slots-frame (sleep_next k) (sleep_next r) (sleep_delta k) (sleep_delta r) (now + u32_mod) now
        k.sleep_head es v.slots λ x m. same x);
  distinct = v.distinct;
}
