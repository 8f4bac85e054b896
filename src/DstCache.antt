-- ===== src/DstCache.antt =====
-- libknet/host.c:_host_dstcache_update_sync: which links of a host data is sent on, and whether the
-- host is reachable.
pub mod Scan
pub mod Best
pub mod Picks
pub mod Reach
mod Tests
use kronosnet.Base.{
  ℕ, zero, suc, ◌+◌, Bool, ◌&&◌, ◌||◌, Option, none, some, ltb, ◌==◌, if◌then◌else◌, truthy, update,
}
use kronosnet.State.{Link, Host, HostStatus, Handle}
use kronosnet.SeqNum.{clear_cbuffers}

-- KNET_MAX_LINK
abbrev pub max_link : ℕ
max_link = 8

-- KNET_LINK_POLICY_PASSIVE, KNET_LINK_POLICY_ACTIVE and KNET_LINK_POLICY_RR
abbrev pub policy_passive : ℕ
policy_passive = 0

abbrev pub policy_active : ℕ
policy_active = 1

abbrev pub policy_rr : ℕ
policy_rr = 2

-- none of the three tests that skip a link holds
unfoldable pub usable : Link → Bool
usable link = link.status.enabled == 1 && link.status.connected == 1 && link.has_valid_mtu == 1

-- `priority > best_priority`, where `none` stands for the initial -1
abbrev pub better : ℕ → Option ℕ → Bool
better priority none = 1 == 1
better priority (some best) = ltb best priority

-- The loop over the links, with `n` rounds left at `link_idx`.
unfoldable pub scan : ℕ → ℕ → Option ℕ → Host → Host
scan zero link_idx best_priority host = host
scan (suc n) link_idx best_priority host =
    let link = host.link link_idx in
    if usable link
    then (if host.link_handler_policy == policy_passive
        then (if better link.priority best_priority
            then scan n (link_idx + 1) (some link.priority) (record host {
              active_links = update host.active_links 0 link_idx;
              active_link_entries = 1;
            })
            else scan n (link_idx + 1) best_priority (record host { active_link_entries = 1 }))
        else scan n (link_idx + 1) best_priority (record host {
          active_links = update host.active_links host.active_link_entries link_idx;
          active_link_entries = host.active_link_entries + 1;
        }))
    else scan n (link_idx + 1) best_priority host

-- the circular buffers are cleaned when no link is active
unfoldable pub clean_unreachable : Host → Host
clean_unreachable host = if truthy host.active_link_entries then host else clear_cbuffers host 0

-- The host, and the status that the notification callback is called with, if it is.
unfoldable pub note_reachable : Host → Host × Option HostStatus
note_reachable host =
    let reachable = if truthy host.active_link_entries then 1 else 0 in
    if host.status.reachable == reachable
    then (host, none)
    else let status = record host.status { reachable = reachable } in
      (record host { status = status }, some status)

unfoldable pub dstcache_update_sync : Handle → Host → Host × Option HostStatus
dstcache_update_sync knet_h host =
    if knet_h.host_id == host.host_id && truthy knet_h.has_loop_link
    then (record host { active_link_entries = 1 }, none)
    else note_reachable
        (clean_unreachable (scan max_link 0 none (record host { active_link_entries = 0 })))
