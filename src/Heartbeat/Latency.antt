-- ===== src/Heartbeat/Latency.antt =====
-- The average of the latency of a link (libknet/threads_heartbeat.c:process_pong), computed in
-- unsigned 32-bit arithmetic.
use native.Mathlib.Nat.{div-le_of_le-mul, mul-le-mul_right, mul-suc, mul_comm, mul-le-mul}
use kronosnet.Base.{ℕ, zero, suc, ◌+◌, ◌-◌, ◌*◌, ◌/◌, ◌^◌, ◌≤◌, ◌<◌, ◌≡◌, arith, u32, u64}
use kronosnet.State.{Link}
use kronosnet.Heartbeat.{next_ave, next_samples, note_latency}

-- ((previous mean * (count - 1)) + new value) / count, as the comment in the code has it
abbrev pub mean : ℕ → ℕ → ℕ → ℕ
mean ave samples latency = (ave * (samples - 1) + latency) / samples

sum_le :
    (ave k latency bound : ℕ)
    → ave ≤ bound
    → latency ≤ bound
    → (ave * k ≤ bound * k) × (bound * suc k ≡ bound * k + bound)
sum_le ave k latency bound a l = (mul-le-mul_right k a, mul-suc bound k)

next_ave-exact :
    (ave k latency bound : ℕ)
    → k < 2 ^ 32
    → bound * suc k < 2 ^ 32
    → ave ≤ bound
    → latency ≤ bound
    → (next_ave ave (suc k) latency ≡ (ave * k + latency) / suc k)
      × ((ave * k + latency) / suc k ≤ bound)
unfolding next_ave
next_ave-exact ave k latency bound few small a l =
    let (less, split) = sum_le ave k latency bound a l in
    let pred : u32 (suc k + 2 ^ 32 - 1) ≡ k = omega arith in
    let whole : u64 (u32 (ave * k) + latency) ≡ ave * k + latency =
      omega (arith, less, split, small, l) in
    let le : (ave * k + latency) / suc k ≤ bound =
      div-le_of_le-mul (suc k) (omega (arith, less, split, mul_comm bound (suc k))) in
    (rw (pred, whole) (omega (arith, le, small, split)), le)

-- The settings and the past of a link, as the average needs them: the number of samples is below 32 bits,
-- and so is its product with the pong timeout.
pub record IsMeasured (link : Link) : Type 0 where
  pub precision : 1 ≤ link.latency_max_samples
  pub precision_fits : link.latency_max_samples + 1 < 2 ^ 32
  pub product_fits : link.pong_timeout * link.latency_max_samples < 2 ^ 32
  pub samples : link.status.stats.latency_samples ≤ link.latency_max_samples

next_samples-IsBetween :
    (link : Link)
    → IsMeasured link
    → (1 ≤ next_samples link) × (next_samples link ≤ link.latency_max_samples)
unfolding next_samples
next_samples-IsBetween link ok = ground (arith, ok.precision, ok.precision_fits, ok.samples)

-- A bound on the average and on a latency is one on the next average, if the product fits.
next_ave-mean :
    (ave samples latency bound : ℕ)
    → (1 ≤ samples) × (samples < 2 ^ 32)
    → bound * samples < 2 ^ 32
    → ave ≤ bound
    → latency ≤ bound
    → (next_ave ave samples latency ≡ mean ave samples latency) × (mean ave samples latency ≤ bound)
next_ave-mean ave zero latency bound (pos, few) small a l = ground (arith, pos)
next_ave-mean ave (suc k) latency bound (pos, few) small a l =
    let pred : suc k - 1 ≡ k = omega arith in
    rw (pred) (next_ave-exact ave k latency bound (omega (arith, few)) small a l)

-- A pong whose latency is at most `bound`, itself at most the timeout, makes the average the rounded
-- mean with the capped number of samples, which is not zero, and leaves it at most `bound`, if the
-- product of the pong timeout and the highest number of samples is below 2 ^ 32, as that number
-- and one more are, and the average was at most `bound`.
pub note_latency-IsMean :
    (link : Link) (latency bound : ℕ)
    → IsMeasured link
    → bound ≤ link.pong_timeout
    → link.status.stats.latency_ave ≤ bound
    → latency ≤ bound
    → let stats = (note_latency link latency).status.stats in
      (stats.latency_ave ≡ mean link.status.stats.latency_ave stats.latency_samples latency)
      × (stats.latency_ave ≤ bound)
      × (1 ≤ stats.latency_samples)
      × (stats.latency_samples ≤ link.latency_max_samples)
unfolding note_latency
note_latency-IsMean link latency bound ok fits a l =
    let (pos, few) = next_samples-IsBetween link ok in
    let small : bound * next_samples link < 2 ^ 32 =
      omega (arith, mul-le-mul fits few, ok.product_fits) in
    let (exact, le) =
      next_ave-mean link.status.stats.latency_ave (next_samples link) latency bound
        (pos, omega (arith, few, ok.precision_fits)) small a l in
    (exact, omega (arith, exact, le), pos, few)
