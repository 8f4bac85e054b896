-- ===== src/DstCache/Picks.antt =====
-- The loop of libknet/host.c:_host_dstcache_update_sync under the passive policy: which link it
-- leaves as the active one.
use kronosnet.Base.{
  ℕ, zero, suc, ◌+◌, ◌≡◌, ◌<◌, ◌⊎◌, inl, inr, refl, subst, ◌∙◌, sym, true, false, Option, none,
  some, List, [], ◌∷◌, arith, Bool-cases, ◌==◌, update,
}
use kronosnet.State.{Host}
use kronosnet.DstCache.{scan, usable, better, policy_passive}
use kronosnet.DstCache.Scan.{usable_from, reachable_by}
use kronosnet.DstCache.Best.{
  IsBest, Kept, Chosen, Kept-skip, Kept-worse, Chosen-here, Chosen-later, usable_from-none,
}

-- what the loop does to the first entry under the passive policy
abbrev Picks : ℕ → ℕ → Option ℕ → Host → Host → Type 0
Picks n i best host host' =
    (Kept n i best host.link × (host'.active_links 0 ≡ host.active_links 0))
    ⊎ ((k : ℕ) × Chosen n i best host.link k × (host'.active_links 0 ≡ k))

module _ (n i : ℕ) (best : Option ℕ) (host : Host) where
  abbrev counted : Host
  counted = record host { active_link_entries = 1 }

  abbrev taken : Host
  taken = record counted { active_links = update host.active_links 0 i }

  Picks-taken :
      usable (host.link i) ≡ true
      → better (host.link i).priority best ≡ true
      → (host' : Host) → Picks n (i + 1) (some (host.link i).priority) taken host'
      → Picks (suc n) i best host host'
  Picks-taken u b host' (inl (kept, at)) = inr (i, Chosen-here n i best host.link u b kept, at)
  Picks-taken u b host' (inr (k, (chosen, above), at)) =
      inr (k, Chosen-later n i best host.link k (λ u'. ground arith) (trans best b) chosen, at)
    where
      trans :
          (o : Option ℕ)
          → better (host.link i).priority o ≡ true
          → better (host.link k).priority o ≡ true
      trans none h = refl
      trans (some m) h = ground arith

  Picks-left :
      usable (host.link i) ≡ false
      → (host' : Host) → Picks n (i + 1) best host host'
      → Picks (suc n) i best host host'
  Picks-left u host' (inl (kept, at)) = inl (Kept-skip n i best host.link u kept, at)
  Picks-left u host' (inr (k, (chosen, above), at)) =
      inr (k, Chosen-later n i best host.link k (λ u'. cc) above chosen, at)

  Picks-worse :
      better (host.link i).priority best ≡ false
      → (host' : Host) → Picks n (i + 1) best counted host'
      → Picks (suc n) i best host host'
  Picks-worse w host' (inl (kept, at)) = inl (Kept-worse n i best host.link w kept, at)
  Picks-worse w host' (inr (k, (chosen, above), at)) =
      inr (k, Chosen-later n i best host.link k (λ u'. outdone best w above) above chosen, at)
    where
      outdone :
          (o : Option ℕ)
          → better (host.link i).priority o ≡ false
          → better (host.link k).priority o ≡ true
          → (host.link i).priority < (host.link k).priority
      outdone none a b = cc
      outdone (some m) a b = ground arith

pub scan-Picks :
    (n i : ℕ) (best : Option ℕ) (host : Host)
    → (host.link_handler_policy == policy_passive) ≡ true
    → Picks n i best host (scan n i best host)
unfolding scan
scan-Picks zero i best host h = inl ((λ j (ge, lt, u). ground arith), refl)
scan-Picks (suc n) i best host h = elim (Bool-cases (usable (host.link i))) [
  | inl u ↦ elim (Bool-cases (better (host.link i).priority best)) [
    | inl b ↦
        let best' = some (host.link i).priority in
        rw (u, h, b)
          (Picks-taken n i best host u b (scan n (i + 1) best' (taken n i best host))
            (scan-Picks n (i + 1) best' (taken n i best host) h))
    | inr w ↦
        rw (u, h, w)
          (Picks-worse n i best host w (scan n (i + 1) best (counted n i best host))
            (scan-Picks n (i + 1) best (counted n i best host) h))
  ]
  | inr u ↦
      rw u
        (Picks-left n i best host u (scan n (i + 1) best host) (scan-Picks n (i + 1) best host h))
]

one_entry :
    (n i : ℕ) (best : Option ℕ) (host : Host)
    → (host.link_handler_policy == policy_passive) ≡ true
    → host.active_link_entries ≡ 1
    → (scan n i best host).active_link_entries ≡ 1
unfolding scan
one_entry zero i best host h e = e
one_entry (suc n) i best host h e = elim (Bool-cases (usable (host.link i))) [
  | inl u ↦ elim (Bool-cases (better (host.link i).priority best)) [
    | inl b ↦
        rw (u, h, b)
          (one_entry n (i + 1) (some (host.link i).priority) (taken n i best host) h refl)
    | inr w ↦ rw (u, h, w) (one_entry n (i + 1) best (counted n i best host) h refl)
  ]
  | inr u ↦ rw u (one_entry n (i + 1) best host h e)
]

-- one entry as soon as a link can carry data
pub scan_count :
    (n i : ℕ) (best : Option ℕ) (host : Host)
    → (host.link_handler_policy == policy_passive) ≡ true
    → (scan n i best host).active_link_entries
      ≡ elim (usable_from n i host.link) [ [] ↦ host.active_link_entries | x ∷ xs ↦ 1 ]
unfolding scan
scan_count zero i best host h = refl
scan_count (suc n) i best host h = elim (Bool-cases (usable (host.link i))) [
  | inl u ↦ elim (Bool-cases (better (host.link i).priority best)) [
    | inl b ↦
        rw (u, h, b)
          (one_entry n (i + 1) (some (host.link i).priority) (taken n i best host) h refl)
    | inr w ↦ rw (u, h, w) (one_entry n (i + 1) best (counted n i best host) h refl)
  ]
  | inr u ↦ rw u (scan_count n (i + 1) best host h)
]

-- The entries and the first of them after the loop, from an empty array.
pub scan-IsBest :
    (n : ℕ) (host : Host)
    → (host.link_handler_policy == policy_passive) ≡ true
    → host.active_link_entries ≡ 0
    → let host' = scan n 0 none host in
      (host'.active_link_entries ≡ reachable_by (usable_from n 0 host.link))
      × ((host'.active_link_entries ≡ 0) ⊎ IsBest n 0 host.link (host'.active_links 0))
scan-IsBest n host h e = (
  counts,
  elim (scan-Picks n 0 none host h) [
    | inl (kept, at) ↦ inl (counts ∙ usable_from-none n 0 host.link (λ j c. true≢false (kept j c)))
    | inr (k, (best, above), at) ↦ inr (subst (IsBest n 0 host.link) (sym at) best)
  ],
)
  where
    true≢false : ¬ (true ≡ false)
    true≢false q = cc

    by_list :
        (xs : List ℕ) → elim xs [ [] ↦ host.active_link_entries | x ∷ ys ↦ 1 ] ≡ reachable_by xs
    by_list [] = e
    by_list (x ∷ ys) = refl

    counts : (scan n 0 none host).active_link_entries ≡ reachable_by (usable_from n 0 host.link)
    counts = scan_count n 0 none host h ∙ by_list (usable_from n 0 host.link)
