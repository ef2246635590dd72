-- ===== src/Pool.antt =====
-- The pool of process slots: proc_alloc, proc_reap and proc_stress of
-- src/services/halaos_runtime.c.
pub mod Stress
mod Tests
use halaos_stm32f103_hardwar.Prelude.{
  ℕ, zero, suc, ◌+◌, ◌%◌, Bool, true, false, not, ◌&&◌, ◌||◌, ◌==◌, leb, if◌then◌else◌, update,
  inc32, Option, none, some,
}

abbrev pub pool_len : ℕ
pool_len = 4

pub record ProcSlot : Type 0 where
  pub used : Bool
  pub handles : ℕ
  pub timers : ℕ
  pub queues : ℕ
  pub generation : ℕ
  pub owner : ℕ

pub record Pool : Type 0 where
  pub slots : ℕ → ProcSlot
  pub spawns : ℕ
  pub reaps : ℕ
  pub leaks : ℕ

-- The slot that the loop of proc_alloc stops at.
unfoldable pub find_free : ℕ → ℕ → (ℕ → ProcSlot) → Option ℕ
find_free zero i slots = none
find_free (suc left) i slots =
    let rest = find_free left (i + 1) slots in if (slots i).used then rest else some i

abbrev pub set_slot : ℕ → ProcSlot → Pool → Pool
set_slot i slot s = record s { slots = update s.slots i slot }

-- The body of the loop at a free slot.
unfoldable pub claim : ℕ → Pool → Pool
claim i s =
    let slot = s.slots i in
    let s₁ =
      set_slot i
        (record slot {
          used = true;
          generation = (slot.generation + 1) % 65536;
          owner = (i + 100) % 65536;
        })
        s in
    record s₁ { spawns = inc32 s₁.spawns }

unfoldable pub claim_found : Option ℕ → Pool → Pool
claim_found none s = s
claim_found (some i) s = claim i s

-- `none` stands for -1.
unfoldable pub proc_alloc : Pool → Pool × Option ℕ
proc_alloc s = let found = find_free pool_len 0 s.slots in (claim_found found s, found)

abbrev pub zero_slot : ProcSlot
zero_slot = record { used = false; handles = 0; timers = 0; queues = 0; generation = 0; owner = 0 }

abbrev pub holds_resources : ProcSlot → Bool
holds_resources slot = (not (slot.handles == 0) || not (slot.timers == 0)) || not (slot.queues == 0)

unfoldable pub proc_reap : ℕ → Pool → Pool
proc_reap i s =
    if leb pool_len i || not (s.slots i).used
    then s
    else let s₁ = if holds_resources (s.slots i) then record s { leaks = inc32 s.leaks } else s in
      let s₂ = set_slot i zero_slot s₁ in record s₂ { reaps = inc32 s₂.reaps }

abbrev pub set_handles : ℕ → ℕ → Pool → Pool
set_handles i h s = set_slot i (record (s.slots i) { handles = h }) s

-- A round of proc_stress behind its early return.
unfoldable pub recycle : Option ℕ → Pool → Pool
recycle none s = s
recycle (some i) s = proc_reap i (set_handles i 0 (set_handles i 1 s))

abbrev pub is_none : Option ℕ → Bool
is_none none = true
is_none (some i) = false

-- The second part is false after the early return.
unfoldable pub stress_loop : ℕ → Pool → Pool × Bool
stress_loop zero s = (s, true)
stress_loop (suc n) s =
    let a = proc_alloc s in
    let rest = stress_loop n (recycle a.1 a.0) in if is_none a.1 then (a.0, false) else rest

-- The results 0, -1 and -2.
pub data StressResult : Type 0 where
  passed exhausted leaked : StressResult

unfoldable pub proc_stress : ℕ → Pool → Pool × StressResult
proc_stress n s =
    let r = stress_loop n s in
    let result =
      if r.1
      then if r.0.leaks == s.leaks then StressResult.passed else StressResult.leaked
      else StressResult.exhausted in
    (r.0, result)
