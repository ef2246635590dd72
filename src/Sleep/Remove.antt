-- ===== src/Sleep/Remove.antt =====
-- sleep_remove takes a task off the delta queue and keeps every other task's due time.
use halaos_stm32f103_hardwar.Prelude.{
  ℕ, ◌+◌, ◌≡◌, refl, ◌∙◌, inl, inr, true, false, [], ◌∷◌, arith, ◌==◌, has, Distinct, Bool-cases,
  eqb→eq, u32_mod,
}
use halaos_stm32f103_hardwar.Chain.{invalid_idx, max_tasks, has-invalid}
use halaos_stm32f103_hardwar.Kernel.{Sched}
use halaos_stm32f103_hardwar.Sleep.{sleep_remove, sleep_remove_loop, unlink_sleeper}
use halaos_stm32f103_hardwar.Sleep.Slots.{
  Entries, names, drop_task, has-drop_task, Slots-Below, drop_task_absent, Distinct-drop_task,
  Slots, length-Slots, Sleepers, sleep_next, sleep_delta,
}
use halaos_stm32f103_hardwar.Sleep.Unlink.{Cut, head-unlink, unlink-Slots, sleep_remove_loop-Cut}

module _ (k : Sched) (idx now : ℕ) where
  unlink-first :
      (x t : ℕ) (es : Entries)
      → Slots (sleep_next k) (sleep_delta k) (now + u32_mod) now x ((x, t) ∷ es)
      → Distinct (x ∷ names es)
      → has invalid_idx (names es) ≡ false
      → Sleepers (unlink_sleeper invalid_idx x k) now es
  unlink-first x t es s d out =
      let r : Sched = unlink_sleeper invalid_idx x k in
      let head : r.sleep_head ≡ sleep_next k x = head-unlink k invalid_idx x in
      record {
        slots =
            rw head
              (unlink-Slots k idx (now + u32_mod) invalid_idx now x t es (omega arith) out d s);
        distinct = d.1;
      }

  first-kept :
      (x t : ℕ) (es : Entries)
      → k.sleep_head ≡ x
      → Slots (sleep_next k) (sleep_delta k) (now + u32_mod) now x ((x, t) ∷ es)
      → Distinct (x ∷ names es)
      → (r : Sched) → Cut k idx (now + u32_mod) t x es r
      → has x (names (drop_task idx es)) ≡ false
      → Sleepers r now ((x, t) ∷ drop_task idx es)
  first-kept x t es e s d r cut out = record {
    slots = (cut.head ∙ e, s.1, rw cut.delta s.2, s.3, cut.slots);
    distinct = (out, Distinct-drop_task idx es d.1);
  }

  start :
      (cur : ℕ) (es : Entries)
      → k.sleep_head ≡ cur
      → Slots (sleep_next k) (sleep_delta k) (now + u32_mod) now cur es
      → Distinct (names es)
      → Sleepers (sleep_remove_loop (max_tasks + 1) idx invalid_idx cur k) now (drop_task idx es)
  unfolding sleep_remove_loop drop_task
  start cur [] e s d =
      let done : (cur == invalid_idx) ≡ true = ground arith in
      rw done (record { slots = e ∙ s; distinct = tt })
  start cur ((x, t) ∷ es) e s d =
      let other : (x == invalid_idx) ≡ false = ground arith in
      let s' : Slots (sleep_next k) (sleep_delta k) (now + u32_mod) now x ((x, t) ∷ es) =
        (refl, s.1, s.2, s.3, s.4) in
      elim (Bool-cases (x == idx)) [
        | inl hit ↦
            rw (s.0, other, hit, drop_task_absent idx es (rw (← eqb→eq x idx hit) d.0))
              (unlink-first x t es s' d (
                has-invalid (names es) (
                  Slots-Below (sleep_next k) (sleep_delta k) (now + u32_mod) t (sleep_next k x) es
                    s.4)))
        | inr miss ↦
            rw (s.0, other, miss)
              (first-kept x t es (e ∙ s.0) s' d
                (sleep_remove_loop max_tasks idx x (sleep_next k x) k)
                (sleep_remove_loop-Cut k idx (now + u32_mod) max_tasks x t (sleep_next k x) es
                  (omega (
                    arith,
                    length-Slots (sleep_next k) (sleep_delta k) (now + u32_mod) now cur
                        ((x, t) ∷ es) s d,
                  ))
                  (omega arith) s.1 d.0 d.1 refl s.4)
                (has-drop_task idx x es d.0))
      ]

-- Where the sleep queue holds `es`, sleep_remove takes the task off it and keeps the due time of
-- every other sleeper, since its delta goes to its successor without wrap-around; a task that
-- does not sleep changes nothing.
pub sleep_remove-drop_task :
    (idx now : ℕ) (k : Sched) (es : Entries)
    → Sleepers k now es
    → Sleepers (sleep_remove idx k) now (drop_task idx es)
unfolding sleep_remove
sleep_remove-drop_task idx now k es v = start k idx now k.sleep_head es refl v.slots v.distinct
