-- ===== src/Chain.antt =====
-- Task queues threaded through a `next` index of each TCB (include/halaos/internal/halaos_internal.h),
-- ended by INVALID_IDX: what such a chain holds, and how it changes with its links.
use halaos_stm32f103_hardwar.Prelude.{
  ℕ, suc, ◌<◌, ◌≡◌, refl, true, false, List, [], ◌∷◌, ◌++◌, arith, ◌==◌, has, Distinct, Below,
  last_or, eqb_refl, length, length-le_of_Distinct,
}

abbrev pub invalid_idx : ℕ
invalid_idx = 0xFF

abbrev pub max_tasks : ℕ
max_tasks = 13

-- From `h` the links lead through the tasks `q`, in order, to INVALID_IDX.
abbrev pub Chain : (ℕ → ℕ) → ℕ → List ℕ → Type 0
Chain next h [] = h ≡ invalid_idx
Chain next h (x ∷ q) = (h ≡ x) × (x < max_tasks) × Chain next (next x) q

pub has_last : (x : ℕ) (q : List ℕ) → has (last_or x q) (x ∷ q) ≡ true
has_last x [] = ground (arith, eqb_refl x)
has_last x (y ∷ q) = ground (arith, has_last y q)

pub Chain-frame :
    (f g : ℕ → ℕ) (h : ℕ) (q : List ℕ)
    → Chain f h q
    → ((x : ℕ) → has x q ≡ true → g x ≡ f x)
    → Chain g h q
Chain-frame f g h [] c same = c
Chain-frame f g h (x ∷ q) (e, lt, c) same =
    let step : g x ≡ f x = same x (ground (arith, eqb_refl x)) in
    (e, lt, rw step (Chain-frame f g (f x) q c λ y m. same y (ground arith)))

pub Chain-Below : (f : ℕ → ℕ) (h : ℕ) (q : List ℕ) → Chain f h q → Below max_tasks q
Chain-Below f h [] c = tt
Chain-Below f h (x ∷ q) (e, lt, c) = (lt, Chain-Below f (f x) q c)

pub has-invalid : (q : List ℕ) → Below max_tasks q → has invalid_idx q ≡ false
has-invalid [] b = refl
has-invalid (x ∷ q) (lt, b) = ground (arith, has-invalid q b)

pub length-Chain :
    (f : ℕ → ℕ) (h : ℕ) (q : List ℕ) → Chain f h q → Distinct q → length q < suc max_tasks
length-Chain f h q c d = omega (arith, length-le_of_Distinct max_tasks q (Chain-Below f h q c) d)

pub head-ne-invalid :
    (f : ℕ → ℕ) (h x : ℕ) (q : List ℕ) → Chain f h (x ∷ q) → (h == invalid_idx) ≡ false
head-ne-invalid f h x q c = ground arith

-- The head of a chain tells whether it is empty.
pub Chain-empty : (f : ℕ → ℕ) (h : ℕ) (q : List ℕ) → Chain f h q → h ≡ invalid_idx → q ≡ []
Chain-empty f h [] c e = refl
Chain-empty f h (x ∷ q) c e = absurd (omega arith)

pub last-ne-invalid :
    (f : ℕ → ℕ) (h x : ℕ) (q : List ℕ) → Chain f h (x ∷ q) → last_or x q < max_tasks
last-ne-invalid f h x [] (e, lt, c) = lt
last-ne-invalid f h x (y ∷ q) (e, lt, c) = last-ne-invalid f (f x) y q c

-- Linking `idx` behind the last task puts it at the end of the queue.
pub Chain-append_one :
    (f g : ℕ → ℕ) (h x idx : ℕ) (q : List ℕ)
    → Chain f h (x ∷ q)
    → Distinct (x ∷ q)
    → idx < max_tasks
    → g (last_or x q) ≡ idx
    → g idx ≡ invalid_idx
    → ((y : ℕ) → has y (x ∷ q) ≡ true → (y == last_or x q) ≡ false → g y ≡ f y)
    → Chain g h (x ∷ (q ++ (idx ∷ [])))
Chain-append_one f g h x idx [] (e, lt, c) d bound link end same = (e, lt, (link, bound, end))
Chain-append_one f g h x idx (y ∷ q) (e, lt, c) (out, d) bound link end same =
    let step : g x ≡ f x = same x (ground (arith, eqb_refl x)) (ground (arith, has_last y q)) in
    (
      e,
      lt,
      rw step
          (Chain-append_one f g (f x) y idx q c d bound link end λ z m n. same z (ground arith) n),
    )
