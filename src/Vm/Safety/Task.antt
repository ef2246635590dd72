-- ===== src/Vm/Safety/Task.antt =====
-- The task of the bytecode machine (src/services/halaos_tasks.c) on code that bytecode_verify
-- (src/services/halaos_runtime.c) has accepted.
use halaos_stm32f103_hardwar.Prelude.{
  if-cases, Option-cases, ℕ, ◌≤◌, ◌≡◌, refl, ap, ◌∙◌, ◌++◌, subst, Bool, true, false, not, ◌||◌,
  Option, none, some, List, [], ◌∷◌, arith, ◌==◌, ltb, if◌then◌else◌, inl, inr, Bool-cases,
}
use halaos_stm32f103_hardwar.Bytecode.Verified.{IsVerified}
use halaos_stm32f103_hardwar.Vm.{Trap, Machine, Outcome, run, max_operands, max_frames}
use halaos_stm32f103_hardwar.Vm.Safety.{CausedBy, IsSafe, Safe}
use halaos_stm32f103_hardwar.Vm.Task.{VmTask, Rest, vm_round, reset, finish}
use halaos_stm32f103_hardwar.Bytecode.{bytecode_verify, analyse, max_code}
use halaos_stm32f103_hardwar.Bytecode.Verified.{analyse-IsVerified}
use halaos_stm32f103_hardwar.Vm.Task.{vm_trap, vm_complete, vm_rounds, batch}
use halaos_stm32f103_hardwar.Vm.Safety.Run.{run-Safe, reset-IsSafe}

module _ (code : ℕ → ℕ) (size : ℕ) (depth : ℕ → Option ℕ) (sequence : ℕ) where
  -- While the application is running, its machine is safe.
  abbrev IsTaskSafe : VmTask → Type 0
  IsTaskSafe t =
      t.app_running ≡ true → t.active_sequence ≡ sequence → IsSafe code size depth t.machine

  -- A trap ends the application, and its machine shows the cause.
  record IsFinished (t : VmTask) : Type 0 where
    safe : IsTaskSafe t
    caused :
        (r : Trap)
        → t.trap_reason ≡ some r
        → CausedBy code size r t.machine × (t.app_running ≡ false)

  quiet-IsFinished : (t : VmTask) → t.trap_reason ≡ none → IsTaskSafe t → IsFinished t
  quiet-IsFinished t quiet i = record { safe = i; caused = λ r e. absurd (ground arith) }

  finish-IsFinished :
      (t : VmTask) (o : Outcome)
      → t.trap_reason ≡ none
      → Safe code size depth o
      → IsFinished (finish t o).0
  unfolding finish vm_trap vm_complete
  finish-IsFinished t (Outcome.go m) quiet s =
      quiet-IsFinished (record t { machine = m }) quiet λ a b. s
  finish-IsFinished t (Outcome.sleep ms m) quiet s =
      quiet-IsFinished (record t { machine = m }) quiet λ a b. s
  finish-IsFinished t (Outcome.trap r m) quiet s =
      if-cases IsFinished t.app_running _ _
        (λ up. record {
          safe = λ a. absurd (ground arith);
          caused = λ q e.
              let same : r ≡ q = ground arith in (subst (λ x. CausedBy code size x m) same s, refl);
        })
        λ down. quiet-IsFinished (record t { machine = m }) quiet λ a. absurd (ground arith)
  finish-IsFinished t (Outcome.complete m) quiet s =
      if-cases IsFinished t.app_running _ _
        (λ up. record { safe = λ a. absurd (ground arith); caused = λ r e. absurd (ground arith) })
        λ down. quiet-IsFinished (record t { machine = m }) quiet λ a. absurd (ground arith)

  go_on_task :
      (v : IsVerified code size depth) (t : VmTask)
      → IsTaskSafe t
      → t.app_running ≡ true
      → IsSafe code size depth
          (if t.active_sequence == sequence then t.machine else reset t.machine)
  go_on_task v t i up = elim (Bool-cases (t.active_sequence == sequence)) [
    | inl same ↦ rw same (i up (ground arith))
    | inr other ↦ rw other (reset-IsSafe code size depth v t.machine)
  ]

  vm_round-IsFinished :
      (v : IsVerified code size depth) (gpio : Machine → Bool) (t : VmTask)
      → t.trap_reason ≡ none
      → IsTaskSafe t
      → IsFinished (vm_round code size gpio true sequence t).0
  unfolding vm_round
  vm_round-IsFinished v gpio t quiet i =
      let m = if t.active_sequence == sequence then t.machine else reset t.machine in
      if-cases (λ (x : VmTask × Rest). IsFinished x.0) (not t.app_running || not true) _ _
        (λ down.
          quiet-IsFinished (record t { machine = reset t.machine; active_sequence = 0 }) quiet
            λ a. absurd (ground arith))
        λ up.
          finish-IsFinished (record t { active_sequence = sequence }) (run code size gpio batch m)
            quiet (run-Safe code size depth v gpio batch m (go_on_task v t i (ground arith)))

  -- A task whose application has ended stays so.
  vm_rounds-ended :
      (gpios : List (Machine → Bool)) (t : VmTask)
      → t.app_running ≡ false
      → let t' = vm_rounds code size sequence gpios t in
        (t'.trap_reason ≡ t.trap_reason) × (t'.app_running ≡ false)
  unfolding vm_rounds vm_round
  vm_rounds-ended [] t down = (refl, down)
  vm_rounds-ended (gpio ∷ rest) t down =
      if-cases
        (λ (x : VmTask × Rest).
          ((vm_rounds code size sequence rest x.0).trap_reason ≡ t.trap_reason)
          × ((vm_rounds code size sequence rest x.0).app_running ≡ false))
        (not t.app_running || not true) _ _
        (λ stop.
          vm_rounds-ended rest (record t { machine = reset t.machine; active_sequence = 0 }) down)
        λ up. absurd (ground arith)

  -- What becomes of the task in `gpios` rounds: the first rounds of them in which it traps.
  record Outcomes (gpios : List (Machine → Bool)) (t : VmTask) : Type 0 where
    safe : IsTaskSafe (vm_rounds code size sequence gpios t)
    trapped :
        (r : Trap)
        → (vm_rounds code size sequence gpios t).trap_reason ≡ some r
        → (first : List (Machine → Bool)) × (later : List (Machine → Bool)) × (gpios
            ≡ first ++ later)
          × ((vm_rounds code size sequence first t).trap_reason ≡ some r)
          × CausedBy code size r (vm_rounds code size sequence first t).machine

  vm_rounds-Outcomes :
      (v : IsVerified code size depth) (gpios : List (Machine → Bool)) (t : VmTask)
      → t.trap_reason ≡ none
      → IsTaskSafe t
      → Outcomes gpios t
  unfolding vm_rounds
  vm_rounds-Outcomes v [] t quiet i = record { safe = i; trapped = λ r e. absurd (ground arith) }
  vm_rounds-Outcomes v (gpio ∷ rest) t quiet i =
      let t' : VmTask = (vm_round code size gpio true sequence t).0 in
      let f : IsFinished t' = vm_round-IsFinished v gpio t quiet i in
      elim (Option-cases t'.trap_reason) [
        | inl still ↦
            let o = vm_rounds-Outcomes v rest t' still f.safe in
            record {
              safe = o.safe;
              trapped = λ r e.
                  let (first, later, split, reason, cause) = o.trapped r e in
                  (gpio ∷ first, later, ap (λ l. gpio ∷ l) split, reason, cause);
            }
        | inr (q, reason) ↦
            let (cause, down) = f.caused q reason in
            let (same, ended) = vm_rounds-ended rest t' down in
            record {
              safe = λ up. absurd (ground arith);
              trapped = λ r e.
                  let which : q ≡ r = ground arith in
                  (
                    gpio ∷ [],
                    rest,
                    refl,
                    reason ∙ ap some which,
                    subst (λ x. CausedBy code size x t'.machine) which cause,
                  );
            }
      ]

accepted :
    (code : ℕ → ℕ) (size rejects : ℕ)
    → (bytecode_verify code size rejects).0 ≡ true
    → (depth : ℕ → Option ℕ) × IsVerified code size depth
unfolding bytecode_verify
accepted code size rejects e = elim (Bool-cases ((size == 0) || ltb max_code size)) [
  | inl bad ↦ absurd (ground arith)
  | inr fine ↦ elim (Option-cases (analyse code size)) [
    | inl stop ↦ absurd (ground arith)
    | inr (depth, go) ↦ (depth, analyse-IsVerified code size depth (ground arith) go)
  ]
]

-- Where bytecode_verify accepts the code, an application is new to the task (its sequence is not
-- the active one) and no trap has been printed: if a trap has been printed after any number of
-- rounds of task_vm on their own, whatever the GPIO call returns in them, then it was printed at
-- the end of some of the first of these rounds, and the machine that this round left shows the
-- cause (the program counter is behind the code; or the opcode before it is PUSH or LOAD with a
-- full operand stack, DIV with a divisor of 0, CALL with a full call stack, RET outside of any
-- call, a GPIO call, or one of 0x30 to 0x35); no other trap happens; and while the application is
-- running, its operand stack and call stack are within their arrays.
pub vm_rounds_safe :
    (code : ℕ → ℕ) (size rejects sequence : ℕ) (gpios : List (Machine → Bool)) (t : VmTask)
    → (bytecode_verify code size rejects).0 ≡ true
    → ¬ (t.active_sequence ≡ sequence)
    → t.trap_reason ≡ none
    → let t' = vm_rounds code size sequence gpios t in
      ((r : Trap)
        → t'.trap_reason ≡ some r
        → (first : List (Machine → Bool)) × (later : List (Machine → Bool)) × (gpios
            ≡ first ++ later)
          × ((vm_rounds code size sequence first t).trap_reason ≡ some r)
          × CausedBy code size r (vm_rounds code size sequence first t).machine)
      × (t'.app_running ≡ true
          → t'.active_sequence ≡ sequence
          → (t'.machine.sp ≤ max_operands) × (t'.machine.fp ≤ max_frames))
vm_rounds_safe code size rejects sequence gpios t e fresh quiet =
    let (depth, v) = accepted code size rejects e in
    let o =
      vm_rounds-Outcomes code size depth sequence v gpios t quiet
        (λ up same. absurd (fresh same)) in
    (o.trapped, λ up same. let s = o.safe up same in (s.sp_low, s.fp_low))
