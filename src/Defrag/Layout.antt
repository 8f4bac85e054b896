-- ===== src/Defrag/Layout.antt =====
-- Where the bytes of each fragment lie in a packet cut every `mtu` bytes.
use native.Mathlib.Nat.{div-eq_of_lt-le, div-mul-le_self, lt-div-mul-add, div-lt_iff_lt-mul}
use kronosnet.Base.{ℕ, ◌+◌, ◌*◌, ◌/◌, ◌≤◌, ◌<◌, ◌≡◌, arith}

pub div_slot : (m q x : ℕ) → q * m ≤ x → x < q * m + m → x / m ≡ q
div_slot m q x a b = div-eq_of_lt-le m a (omega arith)

pub slot_div : (m x : ℕ) → 0 < m → (x / m * m ≤ x) × (x < x / m * m + m)
slot_div m x h = (div-mul-le_self x m, lt-div-mul-add h)

pub div_below : (m n x : ℕ) → 0 < m → x < n * m → x / m < n
div_below m n x h k = (div-lt_iff_lt-mul h).1 k

pub slot_mono : (m a b : ℕ) → a < b → a * m + m ≤ b * m
slot_mono m a b h = grind arith
