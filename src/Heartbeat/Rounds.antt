-- ===== src/Heartbeat/Rounds.antt =====
-- The heartbeat thread of libknet/threads_heartbeat.c: its walks over all links of all hosts, and
-- when it adjusts the timeouts.
use kronosnet.Base.{
  ℕ, zero, suc, ◌+◌, ◌/◌, ◌%◌, Bool, true, false, Option, none, some, List, [], ◌∷◌, ◌++◌, map,
  ◌==◌, if◌then◌else◌, update,
}
use kronosnet.State.{Timespec, Link, Host, Handle}
use kronosnet.Links.{Effect}
use kronosnet.Heartbeat.{Env, PingEnv, send_ping, beats, adjust_pong_timeout}

-- KNET_MAX_LINK
abbrev pub max_link : ℕ
max_link = 8

-- an effect on a link of a host
abbrev pub Note : Type 0
Note = ℕ × ℕ × Effect

-- what happens to the link at an index
abbrev pub Visit : Type 0
Visit = ℕ → Link → Link × List Effect

-- for (link_idx = 0; link_idx < KNET_MAX_LINK; link_idx++), with `n` links left
unfoldable pub visit_links : ℕ → ℕ → Visit → Host → Host × List Note
visit_links zero link_idx visit host = (host, [])
visit_links (suc n) link_idx visit host =
    let (link, effects) = visit link_idx (host.link link_idx) in
    let (host', notes) =
      visit_links n (link_idx + 1) visit (record host { link = update host.link link_idx link }) in
    (host', map (λ e. (host.host_id, link_idx, e)) effects ++ notes)

-- the loop over the hosts of the list
unfoldable pub visit_hosts :
    List ℕ → (ℕ → Visit) → (ℕ → Option Host) → (ℕ → Option Host) × List Note
visit_hosts [] visit host_index = (host_index, [])
visit_hosts (id ∷ ids) visit host_index = elim (host_index id) [
  | none ↦ visit_hosts ids visit host_index
  | some host ↦
      let (host', notes) = visit_links max_link 0 (visit id) host in
      let (host_index', rest) = visit_hosts ids visit (update host_index id (some host')) in
      (host_index', notes ++ rest)
]

-- the surroundings of a call of send_ping
pub record Round : Type 0 where
  pub env : Env
  pub ping_env : PingEnv
  pub clock : Option Timespec

abbrev pub ping_visit : Handle → ℕ → (ℕ → ℕ → Round) → ℕ → Visit
ping_visit knet_h timed rounds id link_idx link =
    let r = rounds id link_idx in
    if beats link then send_ping knet_h r.env r.ping_env r.clock link timed else (link, [])

-- `locked` is whether the mutex is taken.
unfoldable pub send_pings : Handle → ℕ → (ℕ → ℕ → Round) → Bool → Handle × List Note
send_pings knet_h timed rounds locked =
    let (host_index, notes) =
      visit_hosts knet_h.host_list (ping_visit knet_h timed rounds) knet_h.host_index in
    if locked then (record knet_h { host_index = host_index }, notes) else (knet_h, [])

unfoldable pub adjust_pong_timeouts : Handle → Bool → Handle
adjust_pong_timeouts knet_h locked =
    let (host_index, notes) =
      visit_hosts knet_h.host_list (λ id link_idx link. (adjust_pong_timeout link, []))
        knet_h.host_index in
    if locked then record knet_h { host_index = host_index } else knet_h

-- The test of a round of _handle_heartbt_thread: whether the timeouts are adjusted, and the new
-- counter. A division by zero ends the process: `none`.
unfoldable pub count_round : ℕ → ℕ → Option (Bool × ℕ)
count_round threads_timer_res i =
    let period = 1000000 / threads_timer_res in
    if period == 0 then none else (if i % period == 0 then some (true, 1) else some (false, i + 1))

-- One round: the rounds of the links, and the locks of the handle, the backoff and the pings. A round
-- without the first one is passed over.
unfoldable pub heartbt_round :
    Handle → ℕ → (ℕ → ℕ → Round) → Bool → Bool → Bool → Option (Handle × ℕ × List Note)
heartbt_round knet_h i rounds locked backoff_locked hb_locked =
    if locked
    then elim (count_round knet_h.threads_timer_res i) [
      | none ↦ none
      | some (adjust, i') ↦
          let adjusted = if adjust then adjust_pong_timeouts knet_h backoff_locked else knet_h in
          let (pinged, notes) = send_pings adjusted 1 rounds hb_locked in some (pinged, i', notes)
    ]
    else some (knet_h, i, [])
