-- ===== src/Pmtud/Halving.antt =====
-- How the interval of the search for the MTU shrinks (libknet/threads_pmtud.c).
use kronosnet.Base.{
  ℕ, zero, suc, ◌+◌, ◌*◌, ◌/◌, ◌≤◌, ◌<◌, ◌≡◌, ◌⊎◌, inl, inr, false, ◌||◌, arith, ◌==◌,
}
use kronosnet.Pmtud.{pmtud_size}

-- 2 ^ r
abbrev pub width : ℕ → ℕ
width zero = 1
width (suc r) = 2 * width r

-- `fuel` probes are left, the next of `n` bytes. The interval is halved; the kernel may still tell the
-- MTU of its interface, which costs two probes more; or it has just told it.
abbrev pub Phase : ℕ → ℕ → ℕ → ℕ → ℕ → ℕ → Type 0
Phase iface fuel r n good bad =
    (n ≡ (good + bad) / 2) × (bad ≤ good + width r) × (bad ≤ iface + 1) × (r + 1 ≤ fuel)
    ⊎ (n ≡ (good + bad) / 2) × (bad ≤ good + width r) × (r + 3 ≤ fuel)
    ⊎ (n ≡ iface) × (bad ≡ iface + 1) × (iface ≤ good + width r) × (r + 2 ≤ fuel)

module _ (iface : ℕ) where
  pub Phase-fuel : (fuel r n good bad : ℕ) → Phase iface fuel r n good bad → 1 ≤ fuel
  Phase-fuel fuel r n good bad h = ground arith

  pub Phase-bounds :
      (fuel r n good bad : ℕ) → Phase iface fuel r n good bad → good < bad → (good ≤ n) × (n < bad)
  Phase-bounds fuel r n good bad h lt = ground arith

  pub Phase-good :
      (fuel r n good bad : ℕ)
      → Phase iface (suc fuel) r n good bad
      → good < bad
      → (n == pmtud_size || bad == n + 1 || bad == good) ≡ false
      → (r' : ℕ) × Phase iface fuel r' ((n + bad) / 2) n bad
  Phase-good fuel zero n good bad h lt more = ground arith
  Phase-good fuel (suc r) n good bad (inl h) lt more = (r, inl (ground arith))
  Phase-good fuel (suc r) n good bad (inr (inl h)) lt more = (r, inr (inl (ground arith)))
  Phase-good fuel (suc r) n good bad (inr (inr h)) lt more = ground arith

  pub Phase-bad :
      (fuel r n good bad mtu : ℕ)
      → Phase iface (suc fuel) r n good bad
      → good < bad
      → (good ≤ mtu) × (mtu < n)
      → (r' : ℕ) × Phase iface fuel r' ((good + n) / 2) good n
  Phase-bad fuel zero n good bad mtu (inl h) lt between = ground arith
  Phase-bad fuel zero n good bad mtu (inr (inl h)) lt between = ground arith
  Phase-bad fuel r n good bad mtu (inr (inr h)) lt between = (r, inl (ground arith))
  Phase-bad fuel (suc r) n good bad mtu (inl h) lt between = (r, inl (ground arith))
  Phase-bad fuel (suc r) n good bad mtu (inr (inl h)) lt between = (r, inr (inl (ground arith)))

  pub Phase-refused :
      (fuel r n good bad : ℕ)
      → Phase iface (suc fuel) r n good bad
      → good < bad
      → (good ≤ iface) × (iface < n)
      → (r' : ℕ) × Phase iface fuel r' iface good (iface + 1)
  Phase-refused fuel zero n good bad h lt between = ground arith
  Phase-refused fuel (suc r) n good bad (inl h) lt between = ground arith
  Phase-refused fuel (suc r) n good bad (inr (inl h)) lt between = (r, inr (inr (ground arith)))
  Phase-refused fuel (suc r) n good bad (inr (inr h)) lt between = ground arith
