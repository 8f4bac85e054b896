-- ===== src/DstCache/Best.antt =====
-- The choice of the one active link under the passive policy
-- (libknet/host.c:_host_dstcache_update_sync).
use kronosnet.Base.{
  ℕ, zero, suc, ◌+◌, ◌≡◌, ◌≤◌, ◌<◌, inl, inr, refl, subst, sym, true, false, Option, some, arith,
  Bool-cases, ◌==◌,
}
use kronosnet.State.{Link}
use kronosnet.DstCache.{usable, better}
use kronosnet.DstCache.Scan.{usable_from, reachable_by}

-- index `j` is among the `n` from `i` on, and link `j` can carry data
abbrev pub Candidate : ℕ → ℕ → (ℕ → Link) → ℕ → Type 0
Candidate n i link j = (i ≤ j) × (j < i + n) × (usable (link j) ≡ true)

-- The candidate with the highest priority, the first one of those.
pub record IsBest (n i : ℕ) (link : ℕ → Link) (k : ℕ) : Type 0 where
  pub candidate : Candidate n i link k
  pub highest : (j : ℕ) → Candidate n i link j → (link j).priority ≤ (link k).priority
  pub first : (j : ℕ) → Candidate n i link j → j < k → (link j).priority < (link k).priority

-- The loop keeps the choice because no candidate beats it, or chooses the best one, which does.
abbrev pub Kept : ℕ → ℕ → Option ℕ → (ℕ → Link) → Type 0
Kept n i best link = (j : ℕ) → Candidate n i link j → better (link j).priority best ≡ false

abbrev pub Chosen : ℕ → ℕ → Option ℕ → (ℕ → Link) → ℕ → Type 0
Chosen n i best link k = IsBest n i link k × (better (link k).priority best ≡ true)

-- splitting off the first index of a range, in a family over the candidates
pub first_or_later {ℓ} :
    {P : ℕ → Type ℓ} (n i : ℕ) (link : ℕ → Link)
    → (usable (link i) ≡ true → P i)
    → ((j : ℕ) → Candidate n (i + 1) link j → P j)
    → (j : ℕ) → Candidate (suc n) i link j
    → P j
first_or_later {P} n i link here later j (ge, lt, u) = elim (Bool-cases (j == i)) [
  | inl e ↦
      let at : j ≡ i = ground arith in
      subst P (sym at) (here (subst (λ k. usable (link k) ≡ true) at u))
  | inr e ↦ later j (ground arith, omega arith, u)
]

module _ (n i : ℕ) (best : Option ℕ) (link : ℕ → Link) where
  pub Kept-skip : usable (link i) ≡ false → Kept n (i + 1) best link → Kept (suc n) i best link
  Kept-skip u h = first_or_later n i link (λ u'. cc) h

  pub Kept-worse :
      better (link i).priority best ≡ false → Kept n (i + 1) best link → Kept (suc n) i best link
  Kept-worse w h = first_or_later n i link (λ u'. w) h

  pub Chosen-here :
      usable (link i) ≡ true
      → better (link i).priority best ≡ true
      → Kept n (i + 1) (some (link i).priority) link
      → Chosen (suc n) i best link i
  Chosen-here u b h = (
    record {
      candidate = (omega arith, omega arith, u);
      highest =
          first_or_later {P = λ j. (link j).priority ≤ (link i).priority} n i link
            (λ u'. omega arith) (λ j c. ground (arith, h j c));
      first = λ j (ge, _, _) lt. omega arith;
    },
    b,
  )

  -- the best of the later candidates, where the first one does not beat it
  pub Chosen-later :
      (k : ℕ)
      → (usable (link i) ≡ true → (link i).priority < (link k).priority)
      → better (link k).priority best ≡ true
      → IsBest n (i + 1) link k
      → Chosen (suc n) i best link k
  Chosen-later k beaten b r =
      let (ge, lt, u) = r.candidate in
      (
        record {
          candidate = (omega arith, omega arith, u);
          highest =
              first_or_later {P = λ j. (link j).priority ≤ (link k).priority} n i link
                (λ u'. omega (arith, beaten u')) r.highest;
          first =
              first_or_later {P = λ j. j < k → (link j).priority < (link k).priority} n i link
                (λ u' lt'. beaten u') r.first;
        },
        b,
      )

pub usable_from-none :
    (n i : ℕ) (link : ℕ → Link)
    → ((j : ℕ) → ¬ Candidate n i link j)
    → reachable_by (usable_from n i link) ≡ 0
usable_from-none zero i link h = refl
usable_from-none (suc n) i link h = elim (Bool-cases (usable (link i))) [
  | inl u ↦ elim (h i (omega arith, omega arith, u)) [ ]
  | inr u ↦
      rw u (usable_from-none n (i + 1) link (λ j (ge, lt, u'). h j (omega arith, omega arith, u')))
]

usable_from-some :
    (n i k : ℕ) (link : ℕ → Link) → Candidate n i link k → reachable_by (usable_from n i link) ≡ 1
usable_from-some zero i k link (ge, lt, u) = omega arith
usable_from-some (suc n) i k link c = elim (Bool-cases (usable (link i))) [
  | inl u ↦ rw u refl
  | inr u ↦ rw u (
      first_or_later {P = λ j. reachable_by (usable_from n (i + 1) link) ≡ 1} n i link (λ u'. cc)
        (λ j c'. usable_from-some n (i + 1) j link c') k c)
]
