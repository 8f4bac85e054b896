-- ===== src/Defrag/Marks.antt =====
-- Counting the marks of `frag_map`.
use kronosnet.Base.{
  ℕ, zero, suc, ◌+◌, ◌≤◌, ◌<◌, ◌≡◌, refl, true, false, arith, ◌==◌, if◌then◌else◌, truthy, update,
  Bool-cases, inl, inr,
}

-- how many of the fragments 1 .. n are marked
abbrev pub marks : ℕ → (ℕ → ℕ) → ℕ
marks zero map = 0
marks (suc n) map = marks n map + (if truthy (map (suc n)) then 1 else 0)

pub marks-le : (n : ℕ) (map : ℕ → ℕ) → marks n map ≤ n
marks-le zero map = omega arith
marks-le (suc n) map = ground (arith, marks-le n map)

pub marks-zero : (n : ℕ) → marks n (λ _. 0) ≡ 0
marks-zero zero = refl
marks-zero (suc n) = ground (arith, marks-zero n)

marks-update_above : (n k : ℕ) (map : ℕ → ℕ) → n < k → marks n (update map k 1) ≡ marks n map
marks-update_above zero k map h = refl
marks-update_above (suc n) k map h = ground (arith, marks-update_above n k map)

-- Marking a new fragment adds one.
pub marks-update :
    (n k : ℕ) (map : ℕ → ℕ)
    → 0 < k
    → k ≤ n
    → truthy (map k) ≡ false
    → marks n (update map k 1) ≡ marks n map + 1
marks-update zero k map a b h = absurd (omega arith)
marks-update (suc n) k map a b h = elim (Bool-cases (k == suc n)) [
  | inl e ↦ ground (arith, marks-update_above n k map)
  | inr e ↦ ground (arith, marks-update n k map)
]

-- All are marked if the count says so, and only then.
pub marks_full : (n k : ℕ) (map : ℕ → ℕ) → marks n map ≡ n → 0 < k → k ≤ n → truthy (map k) ≡ true
marks_full zero k map e a b = absurd (omega arith)
marks_full (suc n) k map e a b = elim (Bool-cases (k == suc n)) [
  | inl q ↦ ground (arith, marks-le n map)
  | inr q ↦ ground (arith, marks-le n map, marks_full n k map)
]

pub marks_unmarked :
    (n k : ℕ) (map : ℕ → ℕ) → 0 < k → k ≤ n → truthy (map k) ≡ false → marks n map < n
marks_unmarked zero k map a b e = absurd (omega arith)
marks_unmarked (suc n) k map a b e = elim (Bool-cases (k == suc n)) [
  | inl q ↦ ground (arith, marks-le n map)
  | inr q ↦ ground (arith, marks_unmarked n k map)
]

pub marks_all :
    (n : ℕ) (map : ℕ → ℕ) → ((k : ℕ) → 0 < k → k ≤ n → truthy (map k) ≡ true) → marks n map ≡ n
marks_all zero map h = refl
marks_all (suc n) map h =
    ground
      (arith, marks_all n map (λ k a b. h k a (omega arith)), h (suc n) (omega arith) (omega arith))
