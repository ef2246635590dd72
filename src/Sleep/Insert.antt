-- ===== src/Sleep/Insert.antt =====
-- sleep_insert puts a task among the sleepers at its due time.
use halaos_stm32f103_hardwar.Prelude.{
  ℕ, ◌+◌, ◌-◌, ◌<◌, ◌≡◌, refl, ◌∙◌, inl, inr, true, false, [], ◌∷◌, arith, ◌==◌, ltb, has, Distinct,
  Bool-cases, if◌then◌else◌, sub32, u32_mod, max,
}
use halaos_stm32f103_hardwar.Chain.{invalid_idx, max_tasks, has-invalid}
use halaos_stm32f103_hardwar.Kernel.{Sched}
use halaos_stm32f103_hardwar.Sleep.{sleep_insert, sleep_remove, sleep_insert_loop, place_sleeper}
use halaos_stm32f103_hardwar.Sleep.Slots.{
  Entries, names, drop_task, insert_due, Later, insert_due_first, Distinct-insert_due,
  has-drop_task_self, Slots, length-Slots, Slots-Below, Sleepers, sleep_next, sleep_delta,
}
use halaos_stm32f103_hardwar.Sleep.Remove.{sleep_remove-drop_task}
use halaos_stm32f103_hardwar.Sleep.Place.{head-place, Put, place-Slots, sleep_insert_loop-Put}

module _ (k : Sched) (idx now wait : ℕ) (bound : idx < max_tasks) (small : wait < u32_mod) where
  place-first :
      (cur : ℕ) (es : Entries)
      → has idx (names es) ≡ false
      → Distinct (names es)
      → Slots (sleep_next k) (sleep_delta k) (now + u32_mod) now cur es
      → Later (now + wait) es
      → Sleepers (place_sleeper idx invalid_idx cur wait k) now (insert_due idx (now + wait) es)
  place-first cur es out d s later =
      let r : Sched = place_sleeper idx invalid_idx cur wait k in
      let head : r.sleep_head ≡ idx = head-place k idx invalid_idx cur wait in
      let off : has invalid_idx (names es) ≡ false =
        has-invalid (names es)
          (Slots-Below (sleep_next k) (sleep_delta k) (now + u32_mod) now cur es s) in
      record {
        slots =
            rw (head, insert_due_first idx (now + wait) es later)
              (place-Slots k idx (now + u32_mod) bound invalid_idx now (now + wait) cur wait es
                (omega arith) (omega arith) refl (ground arith) off out d s later);
        distinct = Distinct-insert_due idx (now + wait) es d out;
      }

  first-kept :
      (x t : ℕ) (es : Entries)
      → k.sleep_head ≡ x
      → has idx (x ∷ names es) ≡ false
      → Distinct (x ∷ names es)
      → Slots (sleep_next k) (sleep_delta k) (now + u32_mod) now x ((x, t) ∷ es)
      → ltb (now + wait) t ≡ false
      → (r : Sched) → Put k idx (now + wait) (now + u32_mod) t x es r
      → Sleepers r now (insert_due idx (now + wait) ((x, t) ∷ es))
  unfolding insert_due
  first-kept x t es e out d s past r put = record {
    slots = rw past (put.head ∙ e, s.1, rw put.delta s.2, s.3, put.slots);
    distinct = Distinct-insert_due idx (now + wait) ((x, t) ∷ es) d out;
  }

  start :
      (cur : ℕ) (es : Entries)
      → k.sleep_head ≡ cur
      → has idx (names es) ≡ false
      → Distinct (names es)
      → Slots (sleep_next k) (sleep_delta k) (now + u32_mod) now cur es
      → Sleepers
          (sleep_insert_loop (max_tasks + 1) idx invalid_idx cur wait k)
          now
          (insert_due idx (now + wait) es)
  unfolding sleep_insert_loop
  start cur [] e out d s =
      let done : (cur == invalid_idx) ≡ true = ground arith in
      rw done (place-first cur [] out d s tt)
  start cur ((x, t) ∷ es) e out d s =
      let other : (x == invalid_idx) ≡ false = ground arith in
      let s' : Slots (sleep_next k) (sleep_delta k) (now + u32_mod) now x ((x, t) ∷ es) =
        (refl, s.1, s.2, s.3, s.4) in
      let short =
        length-Slots (sleep_next k) (sleep_delta k) (now + u32_mod) now cur ((x, t) ∷ es) s d in
      elim (Bool-cases (ltb wait (sleep_delta k x))) [
        | inl soon ↦ rw (s.0, other, soon) (place-first x ((x, t) ∷ es) out d s' (ground arith))
        | inr past ↦
            let step : sub32 wait (sleep_delta k x) ≡ now + wait - t = ground arith in
            rw (s.0, other, past)
              (first-kept x t es (e ∙ s.0) out d s' (ground arith)
                (sleep_insert_loop max_tasks idx x (sleep_next k x) (sub32 wait (sleep_delta k x))
                  k)
                (rw step (
                  sleep_insert_loop-Put k idx (now + u32_mod) bound max_tasks x t (now + wait)
                    (sleep_next k x) (now + wait - t) es (omega arith) (omega arith) (omega arith)
                    (ground arith) s.1 (ground arith) d.0 (ground arith) d.1 refl s.4)))
      ]

-- Where the sleep queue holds `es` at time `now`, sleep_insert of a valid task for a u32 of
-- `ticks` takes the task off the queue, if it sleeps already, and puts it back, due after `ticks`
-- (at least one): behind the sleepers that are due no later and before the others, whose due
-- times all stay.
pub sleep_insert-insert_due :
    (idx ticks now : ℕ) (k : Sched) (es : Entries)
    → Sleepers k now es
    → idx < max_tasks
    → ticks < u32_mod
    → Sleepers
        (sleep_insert idx ticks k)
        now
        (insert_due idx (now + max 1 ticks) (drop_task idx es))
unfolding sleep_insert
sleep_insert-insert_due idx ticks now k es v bound small =
    let k' : Sched = sleep_remove idx k in
    let v' : Sleepers k' now (drop_task idx es) = sleep_remove-drop_task idx now k es v in
    let wait : (if ticks == 0 then 1 else ticks) ≡ max 1 ticks = ground arith in
    rw wait (
      start k' idx now (max 1 ticks) bound (omega arith) k'.sleep_head (drop_task idx es) refl
        (has-drop_task_self idx es) v'.distinct v'.slots)
