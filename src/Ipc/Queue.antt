-- ===== src/Ipc/Queue.antt =====
-- An IPC object of type QUEUE or PIPE is a queue of at most 128 bytes, and hands a byte straight to
-- a task that waits for one.
use halaos_stm32f103_hardwar.Prelude.{
  minus, ℕ, ◌+◌, ◌%◌, ◌≤◌, ◌<◌, ◌≡◌, refl, ap, ◌∙◌, true, false, some, List, [], ◌∷◌, ◌++◌, arith,
  ◌==◌, ltb, leb, if◌then◌else◌, inl, inr, Bool-cases, eqb_refl, length, length-append, drop,
  get_or, inc32,
}
use halaos_stm32f103_hardwar.Chain.{max_tasks}
use halaos_stm32f103_hardwar.Kernel.{TaskState}
use halaos_stm32f103_hardwar.Ring.{wrap, Cells, Cells-append_one}
use halaos_stm32f103_hardwar.Ipc.{
  IpcType, IpcObject, Kobj, ipc_data, is_event, is_queue, is_receive, ipc_from_handle,
  ipc_wake_waiter,
}
use halaos_stm32f103_hardwar.Ipc.Timeout.{ipc_wake_waiter-returns, ipc_wake_waiter-memory}
use halaos_stm32f103_hardwar.Ipc.Handle.{ipc_wake_waiter-objects}
use halaos_stm32f103_hardwar.Ipc.Operations.{
  kobj_ipc_send, send_to, kobj_ipc_receive, receive_from, push_byte, pop_byte,
}

-- The object holds the bytes `q`, the oldest first.
pub record Holds (o : IpcObject) (q : List ℕ) : Type 0 where
  pub count : o.count ≡ length q
  pub room : length q ≤ ipc_data
  pub head_low : o.head < ipc_data
  pub tail_at : o.tail ≡ wrap ipc_data (o.head + length q)
  pub cells : Cells ipc_data o.bytes o.head q

push_byte-Holds :
    (v : ℕ) (o : IpcObject) (q : List ℕ)
    → Holds o q
    → length q < ipc_data
    → Holds (push_byte v o) (q ++ v ∷ [])
push_byte-Holds v o q h small =
    let e = h.tail_at in
    let low = h.head_low in
    let n = h.count in
    let size = length-append q (v ∷ []) in
    record {
      count = rw (size, n) (omega arith);
      room = rw size (omega arith);
      head_low = low;
      tail_at = rw (size, e) (ground arith);
      cells = Cells-append_one ipc_data o.bytes o.head o.tail v q low small e h.cells;
    }

pop_byte-Holds : (v : ℕ) (o : IpcObject) (q : List ℕ) → Holds o (v ∷ q) → Holds (pop_byte o) q
pop_byte-Holds v o q h =
    let low = h.head_low in
    let full = h.room in
    let step : (o.head + 1) % ipc_data ≡ wrap ipc_data (o.head + 1) = ground arith in
    record {
      count = rw h.count (omega arith);
      room = omega arith;
      head_low = omega arith;
      tail_at = rw (step, h.tail_at) (ground arith);
      cells = rw step h.cells.1;
    }

not_event : (t : IpcType) → is_queue t ≡ true → is_event t ≡ false
unfolding is_queue is_event
not_event IpcType.queue e = refl
not_event IpcType.pipe e = refl
not_event IpcType.sem e = cc
not_event IpcType.mutex e = cc
not_event IpcType.event e = cc

module _ (i value : ℕ) (k : Kobj) (typed : is_queue (k.objects i).type ≡ true) where
  send-room :
      is_receive (k.objects i).wait_kind ≡ false
      → leb ipc_data (k.objects i).count ≡ false
      → (send_to i value k).0 ≡ 1
        × ((send_to i value k).1.objects i ≡ push_byte value (k.objects i))
  unfolding send_to
  send-room alone room =
      rw (not_event (k.objects i).type typed, typed, alone, room, send_to)
        (refl, ground (arith, eqb_refl i))

  send-full :
      is_receive (k.objects i).wait_kind ≡ false
      → leb ipc_data (k.objects i).count ≡ true
      → send_to i value k ≡ (minus 11, k)
  unfolding send_to
  send-full alone full = rw (not_event (k.objects i).type typed, typed, alone, full, send_to) refl

  send-waiter :
      is_receive (k.objects i).wait_kind ≡ true
      → let w = ipc_wake_waiter i 1 value true k in
        send_to i value k ≡ (1, record w { ipc_operations = inc32 w.ipc_operations })
  unfolding send_to
  send-waiter waits = rw (not_event (k.objects i).type typed, typed, waits, send_to) refl

send-found :
    (handle value i : ℕ) (k : Kobj)
    → ipc_from_handle handle k ≡ some i
    → kobj_ipc_send handle value k ≡ send_to i value k
unfolding kobj_ipc_send
send-found handle value i k e = rw (e, kobj_ipc_send) refl

-- On a handle of a queue or pipe object that holds the bytes `q` and has no task waiting to
-- receive, kobj_ipc_send returns 1 and appends the byte if `q` has fewer than 128 bytes, and
-- returns -11 and keeps `q` otherwise.
pub kobj_ipc_send-queue :
    (handle value i : ℕ) (k : Kobj) (q : List ℕ)
    → ipc_from_handle handle k ≡ some i
    → is_queue (k.objects i).type ≡ true
    → is_receive (k.objects i).wait_kind ≡ false
    → Holds (k.objects i) q
    → let (result, r) = kobj_ipc_send handle value k in
      let room = ltb (length q) ipc_data in
      (result ≡ (if room then 1 else minus 11))
      × Holds (r.objects i) (if room then q ++ value ∷ [] else q)
kobj_ipc_send-queue handle value i k q e typed alone h =
    rw (send-found handle value i k e) (elim (Bool-cases (ltb (length q) ipc_data)) [
      | inl room ↦
          let n = h.count in
          let s = send-room i value k typed alone (ground arith) in
          rw room (s.0, rw s.1 (push_byte-Holds value (k.objects i) q h (ground arith)))
      | inr full ↦
          let n = h.count in rw (full, send-full i value k typed alone (ground arith)) (refl, h)
    ])

-- On a handle of a queue or pipe object on which a valid task waits to receive, with a frame and
-- an output, kobj_ipc_send returns 1, writes the byte to that output and 1 to that frame, makes
-- the task READY and stores nothing in the queue.
pub kobj_ipc_send-waiter :
    (handle value i frame address : ℕ) (k : Kobj)
    → ipc_from_handle handle k ≡ some i
    → is_queue (k.objects i).type ≡ true
    → is_receive (k.objects i).wait_kind ≡ true
    → (k.objects i).wait_task < max_tasks
    → (k.objects i).wait_frame ≡ some frame
    → (k.objects i).wait_byte ≡ some address
    → let (result, r) = kobj_ipc_send handle value k in
      (result ≡ 1)
      × (r.memory address ≡ value)
      × (r.frames frame ≡ 1)
      × ((r.sched.tasks (k.objects i).wait_task).state ≡ TaskState.ready)
      × ((r.objects i).count ≡ (k.objects i).count)
kobj_ipc_send-waiter handle value i frame address k e typed waits valid f a =
    let w = ipc_wake_waiter-returns i 1 value frame true k valid f in
    rw (send-found handle value i k e, send-waiter i value k typed waits)
      (
        refl,
        ipc_wake_waiter-memory i 1 value address k a,
        w.1,
        w.0,
        ap (λ (f : ℕ → IpcObject). (f i).count) (ipc_wake_waiter-objects i 1 value true k)
            ∙ ground (arith, eqb_refl i),
      )

receive-found :
    (handle output timeout i : ℕ) (k : Kobj)
    → ipc_from_handle handle k ≡ some i
    → kobj_ipc_receive handle (some output) timeout k ≡ receive_from i output timeout k
unfolding kobj_ipc_receive
receive-found handle output timeout i k e = rw (e, kobj_ipc_receive) refl

module _ (i output timeout : ℕ) (k : Kobj) (typed : is_queue (k.objects i).type ≡ true) where
  receive-byte :
      ((k.objects i).count == 0) ≡ false
      → let (result, r) = receive_from i output timeout k in
        (result ≡ 1)
        × (r.memory output ≡ (k.objects i).bytes (k.objects i).head)
        × (r.objects i ≡ pop_byte (k.objects i))
  unfolding receive_from
  receive-byte some_left =
      rw (not_event (k.objects i).type typed, typed, some_left, receive_from)
        (refl, ground (arith, eqb_refl output), ground (arith, eqb_refl i))

  receive-empty :
      ((k.objects i).count == 0) ≡ true
      → let (result, r) = receive_from i output timeout k in
        (result ≡ (if timeout == 0 then minus 11 else minus 110))
        × (r.memory ≡ k.memory)
        × (r.objects ≡ k.objects)
  unfolding receive_from
  receive-empty empty =
      rw (not_event (k.objects i).type typed, typed, empty, receive_from)
        (ground arith, ground arith, ground arith)

-- What a receive on the bytes `q` does.
Received : ℕ → ℕ → ℕ → Kobj → List ℕ → ℕ × Kobj → Type 0
Received i output timeout k [] s =
    (s.0 ≡ (if timeout == 0 then minus 11 else minus 110))
    × (s.1.memory output ≡ k.memory output)
    × Holds (s.1.objects i) []
Received i output timeout k (v ∷ q) s =
    (s.0 ≡ 1) × (s.1.memory output ≡ v) × Holds (s.1.objects i) q

receive-Received :
    (i output timeout : ℕ) (k : Kobj) (q : List ℕ)
    → is_queue (k.objects i).type ≡ true
    → Holds (k.objects i) q
    → Received i output timeout k q (receive_from i output timeout k)
unfolding Received
receive-Received i output timeout k [] typed h =
    let r = receive-empty i output timeout k typed (ground (arith, h.count)) in
    (r.0, ap (λ (m : ℕ → ℕ). m output) r.1, rw r.2 h)
receive-Received i output timeout k (v ∷ q) typed h =
    let r = receive-byte i output timeout k typed (ground (arith, h.count)) in
    (r.0, r.1 ∙ h.cells.0, rw r.2 (pop_byte-Holds v (k.objects i) q h))

-- On a handle of a queue or pipe object that holds the bytes `q`, kobj_ipc_receive with an output
-- that is not NULL writes the oldest byte to it, takes it off and returns 1; if there is none, it
-- writes nothing and returns -11 without a timeout and -110 with one.
pub kobj_ipc_receive-queue :
    (handle output timeout i : ℕ) (k : Kobj) (q : List ℕ)
    → ipc_from_handle handle k ≡ some i
    → is_queue (k.objects i).type ≡ true
    → Holds (k.objects i) q
    → let (result, r) = kobj_ipc_receive handle (some output) timeout k in
      (result ≡ (if length q == 0 then (if timeout == 0 then minus 11 else minus 110) else 1))
      × (r.memory output ≡ get_or q 0 (k.memory output))
      × Holds (r.objects i) (drop 1 q)
unfolding Received
kobj_ipc_receive-queue handle output timeout i k [] e typed h =
    rw (receive-found handle output timeout i k e) (receive-Received i output timeout k [] typed h)
kobj_ipc_receive-queue handle output timeout i k (v ∷ q) e typed h =
    let r = receive-Received i output timeout k (v ∷ q) typed h in
    rw (receive-found handle output timeout i k e) (r.0 ∙ ground arith, r.1, r.2)
