-- ===== src/Sleep/Slots.antt =====
-- What the delta queue of src/kernel/halaos_kernel.c stands for: each sleeping task with the time
-- at which it is due, in order.
use halaos_stm32f103_hardwar.Prelude.{
  ℕ, suc, ◌+◌, ◌≤◌, ◌<◌, ◌≡◌, ◌⊎◌, inl, inr, refl, true, false, List, [], ◌∷◌, arith, ◌==◌, ltb,
  if◌then◌else◌, has, Distinct, Below, length, length-le_of_Distinct, eqb_refl, u32_mod,
}
use halaos_stm32f103_hardwar.Chain.{invalid_idx, max_tasks}
use halaos_stm32f103_hardwar.Kernel.{Sched}

abbrev pub Entries : Type 0
Entries = List (ℕ × ℕ)

abbrev pub names : Entries → List ℕ
names [] = []
names ((x, t) ∷ es) = x ∷ names es

-- Every entry but those of `a`.
unfoldable pub drop_task : ℕ → Entries → Entries
drop_task a [] = []
drop_task a ((x, t) ∷ es) = if x == a then drop_task a es else (x, t) ∷ drop_task a es

-- `a`, due at `t`, behind every entry that is due no later.
unfoldable pub insert_due : ℕ → ℕ → Entries → Entries
insert_due a t [] = (a, t) ∷ []
insert_due a t ((x, u) ∷ es) = if ltb t u then (a, t) ∷ (x, u) ∷ es else (x, u) ∷ insert_due a t es

-- From `h` on the links and deltas hold the entries, the first delta counting from `base`; every
-- due time is below `top`.
abbrev pub Slots : (ℕ → ℕ) → (ℕ → ℕ) → ℕ → ℕ → ℕ → Entries → Type 0
Slots next delta top base h [] = h ≡ invalid_idx
Slots next delta top base h ((x, t) ∷ es) =
    (h ≡ x)
    × (x < max_tasks)
    × (base + delta x ≡ t)
    × (t < top)
    × Slots next delta top t (next x) es

abbrev pub sleep_next : Sched → ℕ → ℕ
sleep_next k x = (k.tasks x).sleep_next

abbrev pub sleep_delta : Sched → ℕ → ℕ
sleep_delta k x = (k.tasks x).sleep_delta

-- At time `now` the sleep queue of `k` holds `es`.
pub record Sleepers (k : Sched) (now : ℕ) (es : Entries) : Type 0 where
  pub slots : Slots (sleep_next k) (sleep_delta k) (now + u32_mod) now k.sleep_head es
  pub distinct : Distinct (names es)

pub Slots-frame :
    (f f' d d' : ℕ → ℕ) (top base h : ℕ) (es : Entries)
    → Slots f d top base h es
    → ((x : ℕ) → has x (names es) ≡ true → (f' x ≡ f x) × (d' x ≡ d x))
    → Slots f' d' top base h es
Slots-frame f f' d d' top base h [] s same = s
Slots-frame f f' d d' top base h ((x, t) ∷ es) (e, lt, due, low, s) same =
    let here = same x (ground (arith, eqb_refl x)) in
    (
      e,
      lt,
      rw here.1 due,
      low,
      rw here.0 (Slots-frame f f' d d' top t (f x) es s λ y m. same y (ground arith)),
    )

pub Slots-Below :
    (f d : ℕ → ℕ) (top base h : ℕ) (es : Entries)
    → Slots f d top base h es
    → Below max_tasks (names es)
Slots-Below f d top base h [] s = tt
Slots-Below f d top base h ((x, t) ∷ es) (e, lt, due, low, s) =
    (lt, Slots-Below f d top t (f x) es s)

pub length-Slots :
    (f d : ℕ → ℕ) (top base h : ℕ) (es : Entries)
    → Slots f d top base h es
    → Distinct (names es)
    → length (names es) < suc max_tasks
length-Slots f d top base h es s n =
    omega (arith, length-le_of_Distinct max_tasks (names es) (Slots-Below f d top base h es s) n)

pub has-drop_task :
    (a b : ℕ) (es : Entries) → has b (names es) ≡ false → has b (names (drop_task a es)) ≡ false
unfolding drop_task
has-drop_task a b [] h = refl
has-drop_task a b ((x, t) ∷ es) h = ground (arith, has-drop_task a b es)

pub has-drop_task_self : (a : ℕ) (es : Entries) → has a (names (drop_task a es)) ≡ false
unfolding drop_task
has-drop_task_self a [] = refl
has-drop_task_self a ((x, t) ∷ es) = ground (arith, has-drop_task_self a es)

pub drop_task_absent : (a : ℕ) (es : Entries) → has a (names es) ≡ false → drop_task a es ≡ es
unfolding drop_task
drop_task_absent a [] h = refl
drop_task_absent a ((x, t) ∷ es) h = ground (arith, drop_task_absent a es)

pub Distinct-drop_task :
    (a : ℕ) (es : Entries) → Distinct (names es) → Distinct (names (drop_task a es))
unfolding drop_task
Distinct-drop_task a [] d = tt
Distinct-drop_task a ((x, t) ∷ es) (out, d) =
    ground (arith, has-drop_task a x es out, Distinct-drop_task a es d)

pub has-insert_due :
    (a t b : ℕ) (es : Entries)
    → has b (names (insert_due a t es)) ≡ (if b == a then true else has b (names es))
unfolding insert_due
has-insert_due a t b [] = ground arith
has-insert_due a t b ((x, u) ∷ es) = ground (arith, has-insert_due a t b es)

pub Distinct-insert_due :
    (a t : ℕ) (es : Entries)
    → Distinct (names es)
    → has a (names es) ≡ false
    → Distinct (names (insert_due a t es))
unfolding insert_due
Distinct-insert_due a t [] d out = (refl, tt)
Distinct-insert_due a t ((x, u) ∷ es) (fresh, d) out =
    ground (arith, has-insert_due a t x es, Distinct-insert_due a t es d)

-- The first entry is due after `time`.
abbrev pub Later : ℕ → Entries → Type 0
Later time [] = Unit
Later time ((x, t) ∷ es) = time < t

pub insert_due_first : (a t : ℕ) (es : Entries) → Later t es → insert_due a t es ≡ (a, t) ∷ es
unfolding insert_due
insert_due_first a t [] h = refl
insert_due_first a t ((x, u) ∷ es) h = ground arith

-- A task that does not sleep is not the head, unless there is none.
pub head_apart :
    (f d : ℕ → ℕ) (top base h z : ℕ) (es : Entries)
    → Slots f d top base h es
    → has z (names es) ≡ false
    → ((h == invalid_idx) ≡ true) ⊎ ((z == h) ≡ false)
head_apart f d top base h z [] s out = inl (ground arith)
head_apart f d top base h z ((y, u) ∷ es) s out = inr (ground arith)

pub head_ne :
    (f d : ℕ → ℕ) (top base h z : ℕ) (es : Entries)
    → Slots f d top base h es
    → z < max_tasks
    → has z (names es) ≡ false
    → (h == z) ≡ false
head_ne f d top base h z [] s lt out = ground arith
head_ne f d top base h z ((y, u) ∷ es) s lt out = ground arith

pub Slots-later :
    (f d : ℕ → ℕ) (top top' base h : ℕ) (es : Entries)
    → top ≤ top'
    → Slots f d top base h es
    → Slots f d top' base h es
Slots-later f d top top' base h [] le s = s
Slots-later f d top top' base h ((x, t) ∷ es) le s =
    (s.0, s.1, s.2, omega arith, Slots-later f d top top' t (f x) es le s.4)
