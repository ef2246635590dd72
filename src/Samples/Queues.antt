-- ===== src/Samples/Queues.antt =====
-- The queues of the sample state.
use halaos_stm32f103_hardwar.Prelude.{
  ℕ, ◌≡◌, refl, true, List, [], ◌∷◌, ◌==◌, if◌then◌else◌, arith, has, Bool-cases, inl, inr, eqb→eq,
}
use halaos_stm32f103_hardwar.Ready.{level}
use halaos_stm32f103_hardwar.Ready.Invariant.{IsReadyQueues}
use halaos_stm32f103_hardwar.Sleep.Slots.{Entries, Sleepers}
use halaos_stm32f103_hardwar.Samples.{sample, sample_task}

abbrev pub sample_queues : ℕ → List ℕ
sample_queues p = if p == 6 then 4 ∷ 5 ∷ [] else []

abbrev pub sample_sleepers : Entries
sample_sleepers = (9, 103) ∷ (2, 103) ∷ (10, 107) ∷ []

at_level_6 : (x : ℕ) → has x (4 ∷ 5 ∷ []) ≡ true → level (sample_task x) ≡ 6
at_level_6 x m = elim (Bool-cases (x == 4)) [
  | inl four ↦ rw (eqb→eq x 4 four) refl
  | inr other ↦ elim (Bool-cases (x == 5)) [
    | inl five ↦ rw (eqb→eq x 5 five) refl
    | inr none ↦ absurd (ground arith)
  ]
]

pub sample-IsReadyQueues : IsReadyQueues sample sample_queues
sample-IsReadyQueues p lt = elim (Bool-cases (p == 6)) [
  | inl six ↦ rw (eqb→eq p 6 six) (record {
    chain = (refl, omega arith, (refl, omega arith, refl));
    last = refl;
    bit = refl;
    distinct = (refl, (refl, tt));
    at_level = at_level_6;
  })
  | inr other ↦ rw other (record {
    chain = ground arith;
    last = ground arith;
    bit = ground arith;
    distinct = tt;
    at_level = λ x m. absurd (ground arith);
  })
]

pub sample-Sleepers : Sleepers sample 100 sample_sleepers
sample-Sleepers = record {
  slots = (
    refl,
    omega arith,
    refl,
    omega arith,
    (refl, omega arith, refl, omega arith, (refl, omega arith, refl, omega arith, refl)),
  );
  distinct = (refl, (refl, (refl, tt)));
}
