-- ===== src/Shrink/Kept.antt =====
-- Halving the array of a host keeps the buffers that are in use (libknet/threads_rx.c:
-- _shrink_defrag_buffers), by the policy that looks at each sample.
use kronosnet.Base.{
  ℕ, zero, suc, ◌+◌, ◌-◌, ◌*◌, ◌/◌, ◌^◌, ◌≤◌, ◌<◌, ◌≡◌, inl, inr, refl, sym, ◌∙◌, subst, Bool, true,
  false, ◌||◌, not, some, arith, ltb, ◌==◌, if◌then◌else◌, truthy, update, u8, u16, Bool-cases,
}
use native.Mathlib.Nat.{div-lt_iff_lt-mul}
use kronosnet.State.{DefragBuf, Host, Handle}
use kronosnet.SeqNum.{clear_defrag_bufs_stats}
use kronosnet.Shrink.{
  policy_average, count_in_use, usage, note_usage, any_above, may_shrink, compact, halve,
  shrink_host,
}

-- how many of the `n` buffers from `i` on are in use
abbrev in_use_from : ℕ → ℕ → (ℕ → DefragBuf) → ℕ
in_use_from zero i bufs = 0
in_use_from (suc n) i bufs = (if truthy (bufs i).in_use then 1 else 0) + in_use_from n (i + 1) bufs

in_use_from-le : (n i : ℕ) (bufs : ℕ → DefragBuf) → in_use_from n i bufs ≤ n
in_use_from-le zero i bufs = omega arith
in_use_from-le (suc n) i bufs = ground (arith, in_use_from-le n (i + 1) bufs)

count_in_use-eq :
    (n i c : ℕ) (bufs : ℕ → DefragBuf)
    → c + n < 2 ^ 16
    → count_in_use n i c bufs ≡ c + in_use_from n i bufs
unfolding count_in_use
count_in_use-eq zero i c bufs lt = omega arith
count_in_use-eq (suc n) i c bufs lt = elim (Bool-cases (truthy (bufs i).in_use)) [
  | inl u ↦ rw (u) (ground (arith, count_in_use-eq n (i + 1) (u16 (c + 1)) bufs))
  | inr u ↦ rw (u) (ground (arith, count_in_use-eq n (i + 1) c bufs))
]

any_above-at :
    (n i k threshold : ℕ) (samples : ℕ → ℕ)
    → any_above n i threshold samples ≡ false
    → (i ≤ k) × (k < i + n)
    → samples k ≤ threshold
unfolding any_above
any_above-at zero i k threshold samples e (low, high) = absurd (omega (arith, low, high))
any_above-at (suc n) i k threshold samples e (low, high) = elim (Bool-cases (k == i)) [
  | inl here ↦ ground (arith, here, e)
  | inr there ↦
      any_above-at n (i + 1) k threshold samples (ground (arith, e))
        (ground (arith, there, low), omega (arith, high))
]

-- `bufs` is `old` from `i` on; what is below `x` is final
compact-below : (n i x j : ℕ) (bufs : ℕ → DefragBuf) → j < x → compact n i x bufs j ≡ bufs j
unfolding compact
compact-below zero i x j bufs lt = refl
compact-below (suc n) i x j bufs lt = elim (Bool-cases (truthy (bufs i).in_use)) [
  | inl u ↦ rw (u) (
      compact-below n (i + 1) (x + 1) j (update bufs x (bufs i)) (omega (arith, lt))
      ∙ ground (arith, lt))
  | inr u ↦ rw (u) (compact-below n (i + 1) x j bufs lt)
]

-- the place of buffer `k` after the loop
abbrev place : ℕ → ℕ → ℕ → (ℕ → DefragBuf) → ℕ
place i x k bufs = x + in_use_from (k - i) i bufs

in_use_from-update :
    (n i x : ℕ) (bufs : ℕ → DefragBuf) (b : DefragBuf)
    → x < i
    → in_use_from n i (update bufs x b) ≡ in_use_from n i bufs
in_use_from-update zero i x bufs b lt = refl
in_use_from-update (suc n) i x bufs b lt =
    let rest = in_use_from-update n (i + 1) x bufs b (omega (arith, lt)) in ground (arith, rest, lt)

in_use_from-step :
    (i k : ℕ) (bufs : ℕ → DefragBuf)
    → i < k
    → in_use_from (k - i) i bufs
      ≡ (if truthy (bufs i).in_use then 1 else 0) + in_use_from (k - (i + 1)) (i + 1) bufs
in_use_from-step i k bufs lt = let e : k - i ≡ suc (k - (i + 1)) = omega (arith, lt) in rw (e) refl

place-here : (i x : ℕ) (bufs : ℕ → DefragBuf) → place i x i bufs ≡ x
place-here i x bufs = let e : i - i ≡ 0 = omega arith in rw (e) (omega arith)

place-used :
    (i x k : ℕ) (bufs : ℕ → DefragBuf)
    → i < k
    → x ≤ i
    → truthy (bufs i).in_use ≡ true
    → place (i + 1) (x + 1) k (update bufs x (bufs i)) ≡ place i x k bufs
place-used i x k bufs lt le used =
    let moved = in_use_from-update (k - (i + 1)) (i + 1) x bufs (bufs i) (omega (arith, le)) in
    let step = in_use_from-step i k bufs lt in rw (moved, step, used) (omega arith)

place-free :
    (i x k : ℕ) (bufs : ℕ → DefragBuf)
    → i < k
    → truthy (bufs i).in_use ≡ false
    → place (i + 1) x k bufs ≡ place i x k bufs
place-free i x k bufs lt free = rw (in_use_from-step i k bufs lt, free) (omega arith)

compact-keeps :
    (n i x k : ℕ) (bufs : ℕ → DefragBuf)
    → x ≤ i
    → (i ≤ k) × (k < i + n)
    → truthy (bufs k).in_use ≡ true
    → compact n i x bufs (place i x k bufs) ≡ bufs k
unfolding compact
compact-keeps zero i x k bufs le (low, high) used = absurd (omega (arith, low, high))
compact-keeps (suc n) i x k bufs le (low, high) used = elim (Bool-cases (k == i)) [
  | inl here ↦
      let e : k ≡ i = ground (arith, here) in
      let used' : truthy (bufs i).in_use ≡ true =
        subst (λ t. truthy (bufs t).in_use ≡ true) e used in
      rw (e, place-here i x bufs, used')
        (compact-below n (i + 1) (x + 1) x (update bufs x (bufs i)) (omega arith) ∙ ground arith)
  | inr there ↦
      let lt : i < k = ground (arith, there, low) in
      elim (Bool-cases (truthy (bufs i).in_use)) [
        | inl u ↦
            let same : update bufs x (bufs i) k ≡ bufs k = ground (arith, lt, le) in
            rw (u, ← place-used i x k bufs lt le u)
              (compact-keeps n (i + 1) (x + 1) k (update bufs x (bufs i)) (omega (arith, le))
                  (omega (arith, lt), omega (arith, high))
                  (subst (λ b. truthy b.in_use ≡ true) (sym same) used)
                ∙ same)
        | inr u ↦
            rw (u, ← place-free i x k bufs lt u)
              (compact-keeps n (i + 1) x k bufs (omega (arith, le))
                (omega (arith, lt), omega (arith, high)) used)
      ]
]

in_use_from-lt :
    (k n i : ℕ) (bufs : ℕ → DefragBuf)
    → k < n
    → truthy (bufs (i + k)).in_use ≡ true
    → in_use_from k i bufs < in_use_from n i bufs
in_use_from-lt zero zero i bufs lt used = elim lt [ ]
in_use_from-lt zero (suc n) i bufs lt used =
    let e : i + 0 ≡ i = omega arith in
    let used' : truthy (bufs i).in_use ≡ true = subst (λ t. truthy (bufs t).in_use ≡ true) e used in
    rw (used') (omega arith)
in_use_from-lt (suc k) zero i bufs lt used = elim lt [ ]
in_use_from-lt (suc k) (suc n) i bufs lt used =
    let e : i + suc k ≡ i + 1 + k = omega arith in
    let rest =
      in_use_from-lt k n (i + 1) bufs (omega (arith, lt))
        (subst (λ t. truthy (bufs t).in_use ≡ true) e used) in
    omega (arith, rest)

percent-half : (a n : ℕ) → 1 ≤ n → a ≤ n → u8 (a * 100 / n) ≤ 49 → a ≤ n / 2
percent-half a n pos le small =
    let top : a * 100 / n < 101 = (div-lt_iff_lt-mul pos).1 (omega (arith, pos, le)) in
    let low : a * 100 / n < 50 = omega (arith, top, small) in
    let all : a * 100 < 50 * n = (div-lt_iff_lt-mul pos).0 low in omega (arith, all)

usage-half :
    (host : Host)
    → 1 ≤ host.allocated_defrag_bufs
    → host.allocated_defrag_bufs < 2 ^ 16
    → usage host ≤ 49
    → in_use_from host.allocated_defrag_bufs 0 host.defrag_bufs ≤ host.allocated_defrag_bufs / 2
unfolding usage
usage-half host pos small le =
    let n = host.allocated_defrag_bufs in
    let counted = count_in_use-eq n 0 0 host.defrag_bufs (omega (arith, small)) in
    percent-half (in_use_from n 0 host.defrag_bufs) n pos (in_use_from-le n 0 host.defrag_bufs)
      (subst (λ a. u8 (a * 100 / n) ≤ 49) (counted ∙ omega arith) le)

-- The sample of this run is one of those that are tested.
may_shrink-usage :
    (knet_h : Handle) (host : Host)
    → (knet_h.defrag_bufs_reclaim_policy == policy_average) ≡ false
    → host.in_use_defrag_buffers_index < knet_h.defrag_bufs_usage_samples
    → may_shrink knet_h (note_usage knet_h host) ≡ true
    → usage host ≤ knet_h.defrag_bufs_shrink_threshold
unfolding may_shrink note_usage
may_shrink-usage knet_h host absolute lt e =
    let at =
      any_above-at knet_h.defrag_bufs_usage_samples 0 host.in_use_defrag_buffers_index
        knet_h.defrag_bufs_shrink_threshold
        (update host.in_use_defrag_buffers host.in_use_defrag_buffers_index (usage host))
        (ground (arith, e, absolute)) (omega arith, omega (arith, lt)) in
    ground (arith, at)

-- a buffer that is in the array of a host
abbrev pub Holds : DefragBuf → Host → Type 0
Holds b host = (j : ℕ) × (j < host.allocated_defrag_bufs) × (host.defrag_bufs j ≡ b)

some_inj : {A : Type 0} {x y : A} → some x ≡ some y → x ≡ y
some_inj e = cc e

halve-Holds :
    (granted : Bool) (host : Host) (i : ℕ)
    → in_use_from host.allocated_defrag_bufs 0 host.defrag_bufs ≤ host.allocated_defrag_bufs / 2
    → i < host.allocated_defrag_bufs
    → truthy (host.defrag_bufs i).in_use ≡ true
    → Holds (host.defrag_bufs i) (halve granted host)
unfolding halve clear_defrag_bufs_stats
halve-Holds granted host i half lt used =
    let n = host.allocated_defrag_bufs in
    let e : 0 + i ≡ i = omega arith in
    let front =
      in_use_from-lt i n 0 host.defrag_bufs lt
        (subst (λ t. truthy (host.defrag_bufs t).in_use ≡ true) (sym e) used) in
    let kept =
      compact-keeps n 0 0 i host.defrag_bufs (omega arith) (omega arith, omega (arith, lt)) used in
    let whole : i - 0 ≡ i = omega arith in
    let first : place 0 0 i host.defrag_bufs < n / 2 = rw (whole) (omega (arith, front, half)) in
    elim (Bool-cases granted) [
      | inl yes_granted ↦ rw (yes_granted) (place 0 0 i host.defrag_bufs, first, kept)
      | inr refused ↦ rw (refused) (place 0 0 i host.defrag_bufs, omega (arith, first), kept)
    ]

-- By the policy that looks at each sample, with a threshold below 50 percent, every buffer that is in use
-- is still in the array after a run, whether the array was halved or not.
pub shrink_host-Holds :
    (knet_h : Handle) (granted : Bool) (host host' : Host) (i : ℕ)
    → (knet_h.defrag_bufs_reclaim_policy == policy_average) ≡ false
    → knet_h.defrag_bufs_shrink_threshold ≤ 49
    → host.in_use_defrag_buffers_index < knet_h.defrag_bufs_usage_samples
    → host.allocated_defrag_bufs < 2 ^ 16
    → shrink_host knet_h granted host ≡ some host'
    → i < host.allocated_defrag_bufs
    → truthy (host.defrag_bufs i).in_use ≡ true
    → Holds (host.defrag_bufs i) host'
unfolding shrink_host note_usage
shrink_host-Holds knet_h granted host host' i absolute threshold index small e lt used =
    let noted = note_usage knet_h host in
    let some_buf : (host.allocated_defrag_bufs == 0) ≡ false = ground (arith, lt) in
    elim (Bool-cases (ltb noted.in_use_defrag_buffers_samples knet_h.defrag_bufs_usage_samples)) [
      | inl few ↦
          let e' = rw (some_buf, few) at e in
          subst (Holds (host.defrag_bufs i)) (some_inj e') (i, lt, refl)
      | inr enough ↦
          elim (Bool-cases (
            not (may_shrink knet_h noted)
            || noted.allocated_defrag_bufs == knet_h.defrag_bufs_min)) [
              | inl stays ↦
                  let e' = rw (some_buf, enough, stays) at e in
                  subst (Holds (host.defrag_bufs i)) (some_inj e') (i, lt, refl)
              | inr halves ↦
                  let e' = rw (some_buf, enough, halves) at e in
                  let low = may_shrink-usage knet_h host absolute index (ground (arith, halves)) in
                  let half =
                    usage-half host (omega (arith, lt)) small (omega (arith, low, threshold)) in
                  subst (Holds (host.defrag_bufs i)) (some_inj e')
                    (halve-Holds granted noted i half lt used)
            ]
    ]
