-- ===== src/Heartbeat/Visits.antt =====
-- What the walks of the heartbeat thread do to the links of all hosts, and how often the timeouts are
-- adjusted (libknet/threads_heartbeat.c:_send_pings, _adjust_pong_timeouts, _handle_heartbt_thread).
use kronosnet.Base.{
  ℕ, zero, suc, ◌+◌, ◌≡◌, inl, inr, refl, ap, ◌∙◌, fun_ext, Bool, true, false, ◌&&◌, ◌||◌, Option,
  none, some, List, [], ◌∷◌, arith, ltb, leb, ◌==◌, if◌then◌else◌, update, Option-cases, member,
  IsDistinct,
}
use kronosnet.State.{Link, Host, Handle}
use kronosnet.Heartbeat.Rounds.{
  max_link, Visit, visit_links, visit_hosts, Round, ping_visit, send_pings,
}

-- the links from `first` on, `n` of them, as a walk leaves them
abbrev pub visited_from : ℕ → ℕ → Visit → (ℕ → Link) → ℕ → Link
visited_from n first visit link i =
    if leb first i && ltb i (first + n) then (visit i (link i)).0 else link i

visit_links-from :
    (n first : ℕ) (visit : Visit) (host : Host)
    → (visit_links n first visit host).0
      ≡ record host { link = visited_from n first visit host.link }
unfolding visit_links
visit_links-from zero first visit host =
    ap (λ (f : ℕ → Link). record host { link = f }) (fun_ext λ i. ground arith)
visit_links-from (suc n) first visit host =
    let host' = record host { link = update host.link first (visit first (host.link first)).0 } in
    visit_links-from n (first + 1) visit host'
    ∙ ap (λ (f : ℕ → Link). record host { link = f }) (fun_ext λ i. ground arith)

abbrev pub visited : Visit → Host → Host
visited visit host = record host { link = visited_from max_link 0 visit host.link }

abbrev pub visited_host : Visit → Option Host → Option Host
visited_host visit none = none
visited_host visit (some host) = some (visited visit host)

visited-none :
    (visit : Visit) (id x : ℕ) (later : Bool) (host_index : ℕ → Option Host)
    → host_index x ≡ none
    → (if later then visited_host visit (host_index id) else host_index id)
      ≡ (if id == x || later then visited_host visit (host_index id) else host_index id)
visited-none visit id x later host_index e = ground (arith, e)

visited-some :
    (visit : ℕ → Visit) (host : Host) (id x : ℕ) (ids : List ℕ) (host_index : ℕ → Option Host)
    → host_index x ≡ some host
    → member x ids ≡ false
    → (if member id ids
        then visited_host (visit id) (update host_index x (some (visited (visit x) host)) id)
        else update host_index x (some (visited (visit x) host)) id)
      ≡ (if id == x || member id ids
          then visited_host (visit id) (host_index id)
          else host_index id)
visited-some visit host id x ids host_index e new = ground (arith, e, new)

-- the walk behind its first host
module _ (x : ℕ) (ids : List ℕ) (visit : ℕ → Visit) (host_index : ℕ → Option Host) where
  visit_hosts-none :
      host_index x ≡ none
      → (visit_hosts (x ∷ ids) visit host_index).0 ≡ (visit_hosts ids visit host_index).0
  unfolding visit_hosts
  visit_hosts-none e = rw (e, visit_hosts) refl

  visit_hosts-some :
      (host : Host)
      → host_index x ≡ some host
      → (visit_hosts (x ∷ ids) visit host_index).0
        ≡ (visit_hosts ids visit (update host_index x (some (visited (visit x) host)))).0
  unfolding visit_hosts
  visit_hosts-some host e =
      rw (e, visit_hosts)
        (ap (λ (h : Host). (visit_hosts ids visit (update host_index x (some h))).0)
          (visit_links-from max_link 0 (visit x) host))

-- Every host of the list is visited, on all its links, and no other.
visit_hosts-at :
    (ids : List ℕ) (visit : ℕ → Visit) (host_index : ℕ → Option Host) (id : ℕ)
    → IsDistinct ids
    → (visit_hosts ids visit host_index).0 id
      ≡ (if member id ids then visited_host (visit id) (host_index id) else host_index id)
visit_hosts-at [] visit host_index id tt = unfold visit_hosts in refl
visit_hosts-at (x ∷ ids) visit host_index id (new, distinct) = elim (Option-cases (host_index x)) [
  | inl e ↦
      let rest = visit_hosts-at ids visit host_index id distinct in
      ap (λ f. f id) (visit_hosts-none x ids visit host_index e)
      ∙ rest
      ∙ visited-none (visit id) id x (member id ids) host_index e
  | inr (host, e) ↦
      let rest =
        visit_hosts-at ids visit (update host_index x (some (visited (visit x) host))) id
          distinct in
      ap (λ f. f id) (visit_hosts-some x ids visit host_index host e)
      ∙ rest
      ∙ visited-some visit host id x ids host_index e new
]

-- A round in which the mutex is taken pings exactly the links that take part in the heartbeat, on all
-- hosts of the list, of which none is there twice: these hosts are found with the first eight links
-- as send_ping leaves them, or as they were if they do not take part, and no other host is touched.
pub send_pings-at :
    (knet_h : Handle) (timed : ℕ) (rounds : ℕ → ℕ → Round) (id : ℕ)
    → IsDistinct knet_h.host_list
    → (send_pings knet_h timed rounds true).0.host_index id ≡ (
        if member id knet_h.host_list
        then visited_host (ping_visit knet_h timed rounds id) (knet_h.host_index id)
        else knet_h.host_index id)
unfolding send_pings
send_pings-at knet_h timed rounds id distinct =
    visit_hosts-at knet_h.host_list (ping_visit knet_h timed rounds) knet_h.host_index id distinct
