-- ===== src/Heartbeat/Period.antt =====
-- How often the heartbeat thread adjusts the timeouts
-- (libknet/threads_heartbeat.c:_handle_heartbt_thread).
use native.Mathlib.Nat.{
  add-div_right, div-eq_of_lt, mod-eq_of_lt, add-mod_right, mod_self, le-div_iff_mul-le,
}
use kronosnet.Base.{
  ℕ, zero, suc, ◌+◌, ◌*◌, ◌/◌, ◌%◌, ◌≤◌, ◌<◌, ◌≡◌, inl, inr, refl, sym, subst, ◌∙◌, Bool, true,
  false, ◌&&◌, Option, none, some, arith, ltb, ◌==◌, if◌then◌else◌, Bool-cases,
}
use kronosnet.Heartbeat.Rounds.{count_round}

-- `k` rounds from a counter on: how many adjustments they make, and the counter they leave
abbrev pub count_rounds : ℕ → ℕ → ℕ → Option (ℕ × ℕ)
count_rounds res zero i = some (0, i)
count_rounds res (suc k) i = elim (count_round res i) [
  | none ↦ none
  | some (adjust, i') ↦ elim (count_rounds res k i') [
    | none ↦ none
    | some (n, last) ↦ some ((if adjust then n + 1 else n), last)
  ]
]

count_round-before :
    (res i : ℕ) → 1 ≤ i → i < 1000000 / res → count_round res i ≡ some (false, i + 1)
unfolding count_round
count_round-before res i pos lt =
    let rest : i % (1000000 / res) ≡ i = mod-eq_of_lt lt in ground (arith, rest, pos, lt)

count_round-at : (res : ℕ) → 1 ≤ 1000000 / res → count_round res (1000000 / res) ≡ some (true, 1)
unfolding count_round
count_round-at res pos =
    let rest : (1000000 / res) % (1000000 / res) ≡ 0 = mod_self (1000000 / res) in
    ground (arith, rest, pos)

count_rounds-step :
    (res k i : ℕ) (adjust : Bool) (i' : ℕ)
    → count_round res i ≡ some (adjust, i')
    → count_rounds res (suc k) i ≡ elim (count_rounds res k i') [
      | none ↦ none
      | some (n, last) ↦ some ((if adjust then n + 1 else n), last)
    ]
count_rounds-step res k i adjust i' e = rw (e, count_rounds) refl

-- adding a round to `a` of them after an adjustment, and to `b` of them with the counter the same
add_period :
    (period a b : ℕ)
    → 1 ≤ period
    → b ≡ a + period
    → (b / period ≡ a / period + 1) × (b % period ≡ a % period)
add_period period a b pos e =
    subst (λ b. (b / period ≡ a / period + 1) × (b % period ≡ a % period)) (sym e)
      (add-div_right a pos, add-mod_right a period)

count_rounds-from :
    (res k j : ℕ)
    → j < 1000000 / res
    → count_rounds res k (j + 1) ≡ some ((k + j) / (1000000 / res), (k + j) % (1000000 / res) + 1)
count_rounds-from res zero j lt =
    let same : 0 + j ≡ j = omega arith in
    let quotient : j / (1000000 / res) ≡ 0 = div-eq_of_lt lt in
    let rest : j % (1000000 / res) ≡ j = mod-eq_of_lt lt in rw (same, quotient, rest) refl
count_rounds-from res (suc k) j lt = elim (Bool-cases (j + 1 == 1000000 / res)) [
  | inl last ↦
      let end : j + 1 ≡ 1000000 / res = ground (arith, last) in
      let at : count_round res (j + 1) ≡ some (true, 1) =
        subst (λ i. count_round res i ≡ some (true, 1)) (sym end)
          (count_round-at res (omega (arith, lt))) in
      let rest = count_rounds-from res k 0 (omega (arith, lt)) in
      let (quotient, remainder) =
        add_period (1000000 / res) (k + 0) (suc k + j) (omega (arith, lt)) (omega (arith, end)) in
      count_rounds-step res k (j + 1) true 1 at ∙ ground (arith, rest, quotient, remainder)
  | inr more ↦
      let before = count_round-before res (j + 1) (omega arith) (ground (arith, lt, more)) in
      let rest = count_rounds-from res k (j + 1) (ground (arith, lt, more)) in
      let sum : suc k + j ≡ k + (j + 1) = omega arith in
      count_rounds-step res k (j + 1) false (j + 1 + 1) before ∙ rw (sum) (ground (arith, rest))
]

has_period : (res : ℕ) → 1 ≤ res → ltb 1000000 res ≡ false → 0 < 1000000 / res
has_period res pos short =
    let one : 1 * res ≤ 1000000 = ground (arith, short) in
    let le : 1 ≤ 1000000 / res = (le-div_iff_mul-le pos).1 one in omega (arith, le)

-- With a timer resolution of at most a second, `k` rounds of the thread from its start adjust the
-- timeouts once in `1000000 / threads_timer_res` rounds; with a longer one the first round divides by
-- zero.
pub count_rounds-start :
    (res k : ℕ)
    → 1 ≤ res
    → count_rounds res k 1 ≡ (
        if ltb 1000000 res && ltb 0 k
        then none
        else (if ltb 1000000 res
            then some (0, 1)
            else some (k / (1000000 / res), k % (1000000 / res) + 1)))
unfolding count_round
count_rounds-start res zero pos = elim (Bool-cases (ltb 1000000 res)) [
  | inl long ↦ rw (long) refl
  | inr short ↦ rw (short) (count_rounds-from res 0 0 (has_period res pos short))
]
count_rounds-start res (suc k) pos = elim (Bool-cases (ltb 1000000 res)) [
  | inl long ↦
      let gone : 1000000 / res ≡ 0 = div-eq_of_lt (ground (arith, long)) in
      ground (arith, gone, long)
  | inr short ↦
      let same : suc k + 0 ≡ suc k = omega arith in
      ground (arith, short, count_rounds-from res (suc k) 0 (has_period res pos short), same)
]
