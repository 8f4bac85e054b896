-- ===== src/LinkConfig/Clear.antt =====
-- libknet/links.c: knet_link_clear_config and knet_link_set_enable. A result is an errno, 0 on success;
-- what the lock, the access lists and the transport answer is an argument.
use kronosnet.Base.{
  ℕ, Bool, true, ◌&&◌, ◌||◌, not, none, some, List, [], leb, ltb, ◌==◌, if◌then◌else◌, truthy,
}
use kronosnet.State.{Host, Handle}
use kronosnet.Hosts.{einval, ebusy}
use kronosnet.Links.{Effect, link_updown}
use kronosnet.Timers.{put_link}
use kronosnet.LinkConfig.{transport_udp, wiped_link}

-- ENOENT of the access lists and EBUSY of the transport are 0.
pub record ClearEnv : Type 0 where
  pub locked : ℕ
  pub acl_err : ℕ
  pub transport_err : ℕ

-- a loop link that goes makes a host without active links unreachable
unfoldable pub forget_loop : ℕ → ℕ → Host → Handle → Host × Handle
forget_loop host_id link_id host knet_h =
    if truthy knet_h.has_loop_link && host_id == knet_h.host_id && link_id == knet_h.loop_link
    then (
      if host.active_link_entries == 0
          then record host { status = record (host.status) { reachable = 0 } }
          else host,
      record knet_h { has_loop_link = 0 },
    )
    else (host, knet_h)

-- The transport clears transport_connected, also when it fails.
unfoldable pub clear_config : Handle → ℕ → ℕ → ClearEnv → ℕ × Handle
clear_config knet_h host_id link_id env =
    if leb 8 link_id
    then (einval, knet_h)
    else (if truthy env.locked then (env.locked, knet_h) else elim (knet_h.host_index host_id) [
      | none ↦ (einval, knet_h)
      | some host ↦
          let link = host.link link_id in
          let (host', knet_h') = forget_loop host_id link_id host knet_h in
          if not (link.configured == 1)
          then (einval, knet_h)
          else (if truthy link.status.enabled
              then (ebusy, knet_h)
              else (if link.transport == transport_udp && link.dynamic == 0 && truthy env.acl_err
                  then (env.acl_err, knet_h)
                  else (if truthy env.transport_err
                      then (
                        env.transport_err,
                        put_link knet_h host_id link_id host
                            (record link { transport_connected = 0 }),
                      )
                      else (0, put_link knet_h' host_id link_id host' (wiped_link link_id)))))
    ])

-- `locked` is what the lock returns. _link_updown does not take the mutex here, and cannot fail.
unfoldable pub set_enable : Handle → ℕ → ℕ → ℕ → ℕ → Bool → ℕ → ℕ × Handle × List Effect
set_enable knet_h host_id link_id enabled locked notified now =
    if leb 8 link_id || ltb 1 enabled
    then (einval, knet_h, [])
    else (if truthy locked then (locked, knet_h, []) else elim (knet_h.host_index host_id) [
      | none ↦ (einval, knet_h, [])
      | some host ↦
          let link = host.link link_id in
          let (link', effects, ok) =
            link_updown notified link enabled link.status.connected now true in
          if not (truthy link.configured)
          then (einval, knet_h, [])
          else (if link.status.enabled == enabled
              then (0, knet_h, [])
              else (0, put_link knet_h host_id link_id host link', effects))
    ])
