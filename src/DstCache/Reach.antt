-- ===== src/DstCache/Reach.antt =====
-- What libknet/host.c:_host_dstcache_update_sync promises of the active links and of reachability.
use kronosnet.Base.{
  ◌≢◌, ==_iff, ℕ, zero, suc, ◌+◌, ◌≡◌, ◌&&◌, ◌⊎◌, inl, inr, refl, subst, ap, ◌∙◌, true, false,
  Option, none, some, List, [], ◌∷◌, arith, Bool-cases, ◌==◌, if◌then◌else◌, truthy, length,
}
use kronosnet.State.{Host}
use kronosnet.DstCache.{
  usable, scan, clean_unreachable, note_reachable, dstcache_update_sync, better, max_link,
  policy_passive,
}
use kronosnet.DstCache.Scan.{usable_from, reachable_by, Lists, scan-Appends}
use kronosnet.SeqNum.{clear_cbuffers, clear_defrag_bufs_stats}
use kronosnet.DstCache.Best.{IsBest}
use kronosnet.DstCache.Picks.{scan-IsBest}
use kronosnet.State.{Handle, HostStatus}

-- the links of a host that can carry data
unfoldable pub usable_links : Host → List ℕ
usable_links host = usable_from max_link 0 host.link

-- What the active links should be: all usable ones in order, or under the passive policy the best.
abbrev pub BestOnly : Host → Host → Type 0
BestOnly host host' =
    (host'.active_link_entries ≡ reachable_by (usable_links host))
    × ((host'.active_link_entries ≡ 0) ⊎ IsBest max_link 0 host.link (host'.active_links 0))

abbrev pub AllInOrder : Host → Host → Type 0
AllInOrder host host' =
    (host'.active_link_entries ≡ length (usable_links host))
    × Lists host'.active_links 0 (usable_links host)

abbrev pub Active : Host → Host → Type 0
Active host host' =
    ((host.link_handler_policy ≡ policy_passive) × BestOnly host host')
    ⊎ ((host.link_handler_policy ≢ policy_passive) × AllInOrder host host')

module _ (host : Host) (h : host.active_link_entries ≡ 0) where
  all_in_order :
      (host.link_handler_policy == policy_passive) ≡ false
      → AllInOrder host (scan max_link 0 none host)
  unfolding usable_links
  all_in_order p =
      let r = scan-Appends max_link 0 none host p in
      (
        omega (arith, r.count),
        subst (λ k. Lists (scan max_link 0 none host).active_links k (usable_links host)) h r.added,
      )

  best_only :
      (host.link_handler_policy == policy_passive) ≡ true
      → BestOnly host (scan max_link 0 none host)
  unfolding usable_links
  best_only p = scan-IsBest max_link host p h

  scan-Active : Active host (scan max_link 0 none host)
  scan-Active = elim (Bool-cases (host.link_handler_policy == policy_passive)) [
    | inl p ↦ inl ((==_iff _ _).0 p, best_only p)
    | inr p ↦ inr ((λ e. ground arith), all_in_order p)
  ]

nonzero-reachable_by :
    (xs : List ℕ) (n : ℕ)
    → (n ≡ reachable_by xs) ⊎ (n ≡ length xs)
    → (if truthy n then 1 else 0) ≡ reachable_by xs
nonzero-reachable_by [] n h = ground arith
nonzero-reachable_by (x ∷ xs) n h = ground arith

Active-reachable_by :
    (host host' : Host)
    → Active host host'
    → (if truthy host'.active_link_entries then 1 else 0) ≡ reachable_by (usable_links host)
Active-reachable_by host host' (inl (p, (count, best))) =
    nonzero-reachable_by (usable_links host) host'.active_link_entries (inl count)
Active-reachable_by host host' (inr (p, (count, all))) =
    nonzero-reachable_by (usable_links host) host'.active_link_entries (inr count)

-- what follows the loop
record Finished (host host' : Host) (called : Option HostStatus) : Type 0 where
  links : host'.active_links ≡ host.active_links
  entries : host'.active_link_entries ≡ host.active_link_entries
  reachable : host'.status.reachable ≡ (if truthy host.active_link_entries then 1 else 0)
  notified :
      called ≡ (if host.status.reachable == host'.status.reachable then none else some host'.status)

note_reachable-Finished :
    (host : Host) → let (host', called) = note_reachable host in Finished host host' called
unfolding note_reachable
note_reachable-Finished host =
    elim (Bool-cases
      (host.status.reachable == (if truthy host.active_link_entries then 1 else 0))) [
        | inl e ↦ rw e (record {
          links = refl;
          entries = refl;
          reachable = ground arith;
          notified = ground arith;
        })
        | inr e ↦
            rw e (record { links = refl; entries = refl; reachable = refl; notified = rw e refl })
      ]

clean_unreachable-Finished :
    (host : Host)
    → let (host', called) = note_reachable (clean_unreachable host) in Finished host host' called
unfolding clean_unreachable clear_cbuffers clear_defrag_bufs_stats
clean_unreachable-Finished host = elim (Bool-cases (truthy host.active_link_entries)) [
  | inl e ↦ rw e (note_reachable-Finished host)
  | inr e ↦
      let r = note_reachable-Finished (clear_cbuffers host 0) in
      rw e (record {
        links = r.links;
        entries = r.entries;
        reachable = r.reachable;
        notified = r.notified;
      })
]

scan-status : (n i : ℕ) (best : Option ℕ) (host : Host) → (scan n i best host).status ≡ host.status
unfolding scan
scan-status zero i best host = refl
scan-status (suc n) i best host = elim (Bool-cases (usable (host.link i))) [
  | inl u ↦ elim (Bool-cases (host.link_handler_policy == policy_passive)) [
    | inl p ↦ elim (Bool-cases (better (host.link i).priority best)) [
      | inl b ↦ rw (u, p, b) (scan-status n (i + 1) (some (host.link i).priority) _)
      | inr w ↦ rw (u, p, w) (scan-status n (i + 1) best _)
    ]
    | inr p ↦ rw (u, p) (scan-status n (i + 1) best _)
  ]
  | inr u ↦ rw u (scan-status n (i + 1) best host)
]

module _ (host : Host) where
  abbrev scanned : Host
  scanned = scan max_link 0 none (record host { active_link_entries = 0 })

  not_local :
      (knet_h : Handle)
      → (knet_h.host_id == host.host_id && truthy knet_h.has_loop_link) ≡ false
      → dstcache_update_sync knet_h host ≡ note_reachable (clean_unreachable scanned)
  unfolding dstcache_update_sync
  not_local knet_h h = rw h refl

  scanned-Active : Active host scanned
  unfolding usable_links
  scanned-Active = scan-Active (record host { active_link_entries = 0 }) refl

  abbrev pub Updated : Host × Option HostStatus → Type 0
  Updated (host', called) =
      Active host host'
      × (host'.status.reachable ≡ reachable_by (usable_links host))
      × (called
          ≡ (if host.status.reachable == host'.status.reachable then none else some host'.status))

-- For a host other than our own with a loop link: afterwards the active links are all links that
-- are enabled, connected and have a valid MTU, in ascending order, or under the passive policy the
-- one of them with the highest priority, the lowest-numbered of those; the host is reachable exactly
-- if there is such a link; and the status callback is due exactly if that changes.
pub dstcache_update_sync-Active :
    (knet_h : Handle) (host : Host)
    → (knet_h.host_id == host.host_id && truthy knet_h.has_loop_link) ≡ false
    → Updated host (dstcache_update_sync knet_h host)
dstcache_update_sync-Active knet_h host h = rw (not_local host knet_h h) (
    let s = scanned host in
    let r = clean_unreachable-Finished s in
    let a = scanned-Active host in
    (
      rw (r.entries, r.links) a,
      r.reachable ∙ Active-reachable_by host s a,
      r.notified
          ∙ ap
              (λ status.
                let host' = (note_reachable (clean_unreachable s)).0 in
                if status.reachable == host'.status.reachable then none else some host'.status)
              (scan-status max_link 0 none (record host { active_link_entries = 0 })),
    ))
