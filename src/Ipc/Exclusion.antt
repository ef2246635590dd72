-- ===== src/Ipc/Exclusion.antt =====
-- Mutexes of src/kernel/halaos_objects.c: what other processes can do while one process owns a
-- mutex.
use halaos_stm32f103_hardwar.Prelude.{
  minus, ℕ, ◌<◌, ◌≡◌, ◌≢◌, refl, sym, ap, ◌∙◌, Bool, true, false, not, ◌&&◌, ◌||◌, Option-cases,
  some, arith, ◌==◌, if-cases, inl, inr, Bool-cases, eqb→eq, ne→eqb, Option,
}
use halaos_stm32f103_hardwar.Ipc.{
  WaitKind, IpcObject, Kobj, max_ipc, is_mutex, is_lock, no_wait, set_object, ipc_from_handle,
  ipc_wake_waiter, clear_waiter,
}
use halaos_stm32f103_hardwar.Ipc.Handle.{ipc_wake_waiter-objects}
use halaos_stm32f103_hardwar.Ipc.Operations.{wait_on}
use halaos_stm32f103_hardwar.Ipc.Timeout.{is_due, kobj_ipc_tick-clear_waiter}
use halaos_stm32f103_hardwar.Ipc.Locks.{
  kobj_mutex_lock, kobj_mutex_lock_blocking, kobj_mutex_unlock, hand_over, kobj_ipc_tick,
}

-- A call on a mutex by a process other than `pid`, or a tick of the clock; `r` is the state behind.
pub data Step (pid : ℕ) (k : Kobj) : Kobj → Type 0 where
  lock : (q handle timeout : ℕ) → q ≢ pid → Step pid k (kobj_mutex_lock q handle timeout k).1
  lock_blocking :
      (q handle timeout frame : ℕ)
      → q ≢ pid
      → Step pid k (kobj_mutex_lock_blocking q handle timeout frame k).1
  unlock : (q handle : ℕ) → q ≢ pid → Step pid k (kobj_mutex_unlock q handle k).1
  tick : (now : ℕ) → Step pid k (kobj_ipc_tick now k)

pub data Steps (pid : ℕ) (k : Kobj) : Kobj → Type 0 where
  start : Steps pid k k
  more : {m r : Kobj} → Steps pid k m → Step pid m r → Steps pid k r

abbrev pub owner : ℕ → Kobj → ℕ
owner i k = (k.objects i).lock_owner

set_other :
    (i j : ℕ) (o : IpcObject) (k : Kobj) → (i == j) ≡ false → owner i (set_object j o k) ≡ owner i k
set_other i j o k other = rw (other, owner) refl

set_same :
    (i j : ℕ) (o : IpcObject) (k : Kobj)
    → o.lock_owner ≡ owner j k
    → owner i (set_object j o k) ≡ owner i k
set_same i j o k same = elim (Bool-cases (i == j)) [
  | inl here ↦ rw (here, owner) (same ∙ ap (λ x. owner x k) (sym (eqb→eq i j here)))
  | inr other ↦ rw (other, owner) refl
]

wake-owner :
    (i j result value : ℕ) (write : Bool) (k : Kobj)
    → owner i (ipc_wake_waiter j result value write k) ≡ owner i k
wake-owner i j result value write k =
    ap (λ (f : ℕ → IpcObject). (f i).lock_owner) (ipc_wake_waiter-objects j result value write k)
    ∙ set_same i j (clear_waiter (k.objects j)) k refl

module _ (pid i : ℕ) (real : pid ≢ 0) where
  -- A mutex that is free or the caller's is not `i`.
  apart :
      (q j : ℕ) (k : Kobj)
      → owner i k ≡ pid
      → q ≢ pid
      → (owner j k == 0) || (owner j k == q) ≡ true
      → (i == j) ≡ false
  apart q j k mine differ free = elim (Bool-cases (i == j)) [
    | inl here ↦
        let same : owner j k ≡ pid = ap (λ x. owner x k) (sym (eqb→eq i j here)) ∙ mine in
        absurd
          (ground (arith, ne→eqb pid 0 real, ne→eqb pid q (λ e. differ (sym e)), rw same at free))
    | inr other ↦ other
  ]

  lock-owner :
      (q handle timeout : ℕ) (k : Kobj)
      → q ≢ pid
      → owner i k ≡ pid
      → owner i (kobj_mutex_lock q handle timeout k).1 ≡ pid
  unfolding kobj_mutex_lock
  lock-owner q handle timeout k differ mine =
      let P = λ (x : ℕ × Kobj). owner i x.1 ≡ pid in
      elim (Option-cases (ipc_from_handle handle k)) [
        | inl bad ↦ rw (bad, kobj_mutex_lock) mine
        | inr (j, good) ↦
            rw (good, kobj_mutex_lock)
              (if-cases P (not (is_mutex (k.objects j).type)) _ _ (λ t. mine)
                λ typed.
                  if-cases P (not (owner j k == 0) && not (owner j k == q)) _ _
                    (λ t. if-cases P (timeout == 0) _ _ (λ u. mine) λ u. mine)
                    λ free.
                      set_other i j (record (k.objects j) { lock_owner = q }) k
                        (apart q j k mine differ (ground arith))
                      ∙ mine)
      ]

  wait_on-owner :
      (j : ℕ) (kind : WaitKind) (q timeout frame : ℕ) (output : Option ℕ) (k : Kobj)
      → owner i k ≡ pid
      → owner i (wait_on j kind q timeout frame output k).1 ≡ pid
  unfolding wait_on
  wait_on-owner j kind q timeout frame output k mine =
      if-cases (λ (x : ℕ × Kobj). owner i x.1 ≡ pid) (no_wait (k.objects j).wait_kind) _ _
        (λ t. set_same i j _ k refl ∙ mine) λ t. mine

  lock_blocking-owner :
      (q handle timeout frame : ℕ) (k : Kobj)
      → q ≢ pid
      → owner i k ≡ pid
      → owner i (kobj_mutex_lock_blocking q handle timeout frame k).1 ≡ pid
  unfolding kobj_mutex_lock_blocking
  lock_blocking-owner q handle timeout frame k differ mine =
      let tried = lock-owner q handle 0 k differ mine in
      let k' : Kobj = (kobj_mutex_lock q handle 0 k).1 in
      if-cases (λ (x : ℕ × Kobj). owner i x.1 ≡ pid)
        (not ((kobj_mutex_lock q handle 0 k).0 == minus 16) || (timeout == 0)) _ _ (λ t. tried)
        λ t. elim (Option-cases (ipc_from_handle handle k')) [
          | inl bad ↦ rw (bad, kobj_mutex_lock_blocking) tried
          | inr (j, good) ↦
              rw (good, kobj_mutex_lock_blocking)
                (wait_on-owner j WaitKind.lock q timeout frame (k'.objects j).wait_byte k' tried)
        ]

  hand_over-owner : (j : ℕ) (k : Kobj) → (i == j) ≡ false → owner i (hand_over j k) ≡ owner i k
  unfolding hand_over
  hand_over-owner j k other =
      if-cases (λ (x : Kobj). owner i x ≡ owner i k) (is_lock (k.objects j).wait_kind) _ _
        (λ t.
          wake-owner i j 0 0 false
            (set_object j (record (k.objects j) { lock_owner = (k.objects j).wait_pid }) k)
          ∙ set_other i j _ k other)
        λ t. set_other i j _ k other

  unlock-owner :
      (q handle : ℕ) (k : Kobj)
      → q ≢ pid
      → owner i k ≡ pid
      → owner i (kobj_mutex_unlock q handle k).1 ≡ pid
  unfolding kobj_mutex_unlock
  unlock-owner q handle k differ mine =
      let P = λ (x : ℕ × Kobj). owner i x.1 ≡ pid in
      elim (Option-cases (ipc_from_handle handle k)) [
        | inl bad ↦ rw (bad, kobj_mutex_unlock) mine
        | inr (j, good) ↦
            rw (good, kobj_mutex_unlock)
              (if-cases P (not (is_mutex (k.objects j).type)) _ _ (λ t. mine)
                λ typed.
                  if-cases P (not (owner j k == q)) _ _ (λ t. mine)
                    λ his. hand_over-owner j k (apart q j k mine differ (ground arith)) ∙ mine)
      ]

  tick-owner :
      (now : ℕ) (k : Kobj) → i < max_ipc → owner i k ≡ pid → owner i (kobj_ipc_tick now k) ≡ pid
  tick-owner now k lt mine =
      ap (λ (o : IpcObject). o.lock_owner) (kobj_ipc_tick-clear_waiter now i k lt)
      ∙ (if-cases (λ (o : IpcObject). o.lock_owner ≡ owner i k) (is_due now (k.objects i)) _ _
            (λ t. refl) (λ t. refl)
          ∙ mine)

  Steps-owner : (k r : Kobj) → i < max_ipc → owner i k ≡ pid → Steps pid k r → owner i r ≡ pid
  Steps-owner k r lt mine Steps.start = mine
  Steps-owner k r lt mine (Steps.more {m} s one) =
      let before = Steps-owner k m lt mine s in Step-owner m r lt before one
    where
      Step-owner : (k r : Kobj) → i < max_ipc → owner i k ≡ pid → Step pid k r → owner i r ≡ pid
      Step-owner k r lt mine (Step.lock q handle timeout differ) =
          lock-owner q handle timeout k differ mine
      Step-owner k r lt mine (Step.lock_blocking q handle timeout frame differ) =
          lock_blocking-owner q handle timeout frame k differ mine
      Step-owner k r lt mine (Step.unlock q handle differ) = unlock-owner q handle k differ mine
      Step-owner k r lt mine (Step.tick now) = tick-owner now k lt mine

  -- The calls of other processes on the mutex fail.
  lock-refused :
      (q handle timeout : ℕ) (k : Kobj)
      → q ≢ pid
      → owner i k ≡ pid
      → ipc_from_handle handle k ≡ some i
      → ((kobj_mutex_lock q handle timeout k).0 ≢ 0) × ((kobj_mutex_unlock q handle k).0 ≢ 0)
  unfolding kobj_mutex_lock kobj_mutex_unlock
  lock-refused q handle timeout k differ mine good =
      let P = λ (x : ℕ × Kobj). x.0 ≢ 0 in
      let other = ne→eqb pid q (λ e. differ (sym e)) in
      let some_owner = ne→eqb pid 0 real in
      (
        rw (good, kobj_mutex_lock)
            (if-cases P (not (is_mutex (k.objects i).type)) _ _ (λ t e. absurd (ground arith))
              λ typed.
                if-cases P (not (owner i k == 0) && not (owner i k == q)) _ _
                  (λ t.
                    if-cases P (timeout == 0) _ _ (λ u e. absurd (ground arith))
                      λ u e. absurd (ground arith))
                  λ free. absurd (ground arith)),
        rw (good, kobj_mutex_unlock)
            (if-cases P (not (is_mutex (k.objects i).type)) _ _ (λ t e. absurd (ground arith))
              λ typed.
                if-cases P (not (owner i k == q)) _ _ (λ t e. absurd (ground arith))
                  λ his. absurd (ground arith)),
      )

-- Where a process (a pid that is not 0) owns the mutex object `i`: after any sequence of
-- kobj_mutex_lock, kobj_mutex_lock_blocking and kobj_mutex_unlock by other processes, on any
-- handles, and of ticks of the clock (kobj_ipc_tick), it still owns it; and whenever another
-- process then calls kobj_mutex_lock or kobj_mutex_unlock on a handle of the object, the result
-- is an error.
pub Steps-exclusion :
    (pid i : ℕ) (k r : Kobj)
    → pid ≢ 0
    → i < max_ipc
    → owner i k ≡ pid
    → Steps pid k r
    → (owner i r ≡ pid)
      × ((q handle timeout : ℕ)
          → q ≢ pid
          → ipc_from_handle handle r ≡ some i
          → ((kobj_mutex_lock q handle timeout r).0 ≢ 0) × ((kobj_mutex_unlock q handle r).0 ≢ 0))
Steps-exclusion pid i k r real lt mine s =
    let still = Steps-owner pid i real k r lt mine s in
    (
      still,
      λ q handle timeout differ good. lock-refused pid i real q handle timeout r differ still good,
    )
