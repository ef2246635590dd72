-- ===== src/Ipc/Handle.antt =====
-- Handles of IPC objects: a handle finds its object as long as it is open, and nothing afterwards.
use halaos_stm32f103_hardwar.Prelude.{
  minus, ℕ, ◌+◌, ◌*◌, ◌/◌, ◌%◌, ◌<◌, ◌≡◌, refl, subst, ap, ◌∙◌, Bool, true, false, not, ◌||◌,
  Option, none, some, arith, ◌==◌, leb, if◌then◌else◌, u8_mod, u16_mod, inl, inr, Bool-cases,
  update, eqb_refl,
}
use halaos_stm32f103_hardwar.Ipc.{
  IpcType, IpcObject, Kobj, max_ipc, ipc_handle, ipc_from_handle, ipc_wake_waiter, wake_task,
  clear_waiter, no_wait, process_by_pid,
}
use halaos_stm32f103_hardwar.Ipc.Operations.{
  take_object, free_object, lower_ipc_count, kobj_ipc_close,
}

-- The handle of a used object finds that object.
pub ipc_from_handle-ipc_handle :
    (i : ℕ) (k : Kobj)
    → i < max_ipc
    → (k.objects i).used ≡ true
    → ipc_from_handle (ipc_handle i k) k ≡ some i
unfolding ipc_from_handle ipc_handle
ipc_from_handle-ipc_handle i k lt used =
    let index : ((k.objects i).generation * u8_mod + i) % u8_mod ≡ i = omega arith in
    let generation : ((k.objects i).generation * u8_mod + i) / u8_mod ≡ (k.objects i).generation =
      omega arith in
    let valid : leb max_ipc i ≡ false = ground arith in
    rw (index, generation, used, valid) (ground arith)

-- What a handle that finds the object `i` says of the object.
abbrev pub Found : ℕ → ℕ → Kobj → Type 0
Found handle i k =
    (handle % u8_mod ≡ i)
    × (i < max_ipc)
    × ((k.objects i).used ≡ true)
    × ((k.objects i).generation ≡ handle / u8_mod)

pub ipc_from_handle-Found :
    (handle i : ℕ) (k : Kobj) → ipc_from_handle handle k ≡ some i → Found handle i k
unfolding ipc_from_handle
ipc_from_handle-Found handle i k e = at_index (handle % u8_mod) refl e
  where
    at_index :
        (j : ℕ)
        → handle % u8_mod ≡ j
        → (if leb max_ipc j
              || (not (k.objects j).used || not ((k.objects j).generation == handle / u8_mod))
            then none
            else some j)
          ≡ some i
        → Found handle i k
    at_index j index e =
        elim (Bool-cases (
          leb max_ipc j
          || (not (k.objects j).used || not ((k.objects j).generation == handle / u8_mod)))) [
            | inl refuse ↦ absurd (ground arith)
            | inr accept ↦
                let same : j ≡ i = ground arith in
                subst (λ n. Found handle n k) same (index, ground arith, ground arith, ground arith)
          ]

-- A handle is refused by an object that is free, or of another generation.
refused :
    (handle i : ℕ) (k : Kobj)
    → handle % u8_mod ≡ i
    → (not (k.objects i).used || not ((k.objects i).generation == handle / u8_mod)) ≡ true
    → ipc_from_handle handle k ≡ none
unfolding ipc_from_handle
refused handle i k index e = rw index (ground arith)

wake_task-objects : (task : ℕ) (k : Kobj) → (wake_task task k).objects ≡ k.objects
unfolding wake_task
wake_task-objects task k = ground arith

pub ipc_wake_waiter-objects :
    (i result value : ℕ) (write : Bool) (k : Kobj)
    → (ipc_wake_waiter i result value write k).objects
      ≡ update k.objects i (clear_waiter (k.objects i))
unfolding ipc_wake_waiter
ipc_wake_waiter-objects i result value write k = wake_task-objects (k.objects i).wait_task _

lower_ipc_count-objects : (p : Option ℕ) (k : Kobj) → (lower_ipc_count p k).objects ≡ k.objects
unfolding lower_ipc_count
lower_ipc_count-objects none k = refl
lower_ipc_count-objects (some p) k = ground arith

woken-generation :
    (i : ℕ) (k : Kobj)
    → ((if no_wait (k.objects i).wait_kind
          then k
          else ipc_wake_waiter i (minus 125) 0 false k).objects
        i).generation
      ≡ (k.objects i).generation
woken-generation i k = elim (Bool-cases (no_wait (k.objects i).wait_kind)) [
  | inl alone ↦ rw alone refl
  | inr waits ↦ rw (waits, ipc_wake_waiter-objects i (minus 125) 0 false k) (ground arith)
]

-- A new object has another generation than the one before it.
taken :
    (i pid : ℕ) (type : IpcType) (initial p : ℕ) (k : Kobj) (g : ℕ)
    → (k.objects i).generation ≡ g
    → g < u16_mod
    → (let o = (take_object i pid type initial p k).objects i in
        not o.used || not (o.generation == g))
      ≡ true
unfolding take_object
taken i pid type initial p k g e small = rw (eqb_refl i) (ground arith)

free_object-at :
    (i pid : ℕ) (k : Kobj)
    → (((free_object i pid k).objects i).used ≡ false)
      × (((free_object i pid k).objects i).generation ≡ (k.objects i).generation)
unfolding free_object
free_object-at i pid k =
    let k₁ : Kobj =
      if no_wait (k.objects i).wait_kind then k else ipc_wake_waiter i (minus 125) 0 false k in
    let lower = lower_ipc_count-objects (process_by_pid pid k₁) k₁ in
    rw (eqb_refl i)
      (refl, ap (λ (f : ℕ → IpcObject). (f i).generation) lower ∙ woken-generation i k)

close-owned :
    (pid handle i : ℕ) (k : Kobj)
    → ipc_from_handle handle k ≡ some i
    → ((k.objects i).owner == pid) ≡ true
    → kobj_ipc_close pid handle k ≡ (0, free_object i pid k)
unfolding kobj_ipc_close
close-owned pid handle i k e mine = rw (e, kobj_ipc_close) (rw (mine, kobj_ipc_close) refl)

-- For a handle that finds an object, whose generation is a u16 and whose owner calls:
-- kobj_ipc_close returns 0, the handle is refused from then on, and it is still refused when the
-- object has been taken for a new one.
pub kobj_ipc_close-refused :
    (pid handle i pid' : ℕ) (type : IpcType) (initial p : ℕ) (k : Kobj)
    → ipc_from_handle handle k ≡ some i
    → (k.objects i).owner ≡ pid
    → (k.objects i).generation < u16_mod
    → let (result, r) = kobj_ipc_close pid handle k in
      (result ≡ 0)
      × (ipc_from_handle handle r ≡ none)
      × (ipc_from_handle handle (take_object i pid' type initial p r) ≡ none)
kobj_ipc_close-refused pid handle i pid' type initial p k e own small =
    let f = ipc_from_handle-Found handle i k e in
    let mine : ((k.objects i).owner == pid) ≡ true = ground (arith, eqb_refl pid) in
    let closed = free_object-at i pid k in
    rw (close-owned pid handle i k e mine) (
      refl,
      refused handle i (free_object i pid k) f.0 (ground arith),
      refused handle i (take_object i pid' type initial p (free_object i pid k)) f.0 (
          taken i pid' type initial p (free_object i pid k) (handle / u8_mod) (ground arith)
            (omega (arith, closed.1, f.3))),
    )
