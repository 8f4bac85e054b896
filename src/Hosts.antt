-- ===== src/Hosts.antt =====
-- libknet/host.c: adding and removing hosts, and their policy. `locked` is what get_global_wrlock
-- returns, 0 or an errno; the result of a function is its errno, 0 on success, and the handle.
pub mod Zero
pub mod Listed
mod Tests
use kronosnet.Base.{
  ℕ, zero, suc, ◌+◌, ◌-◌, ◌^◌, Bool, true, false, ◌&&◌, ◌||◌, not, Option, none, some, List, [],
  ◌∷◌, ltb, ◌==◌, if◌then◌else◌, truthy, update,
}
use kronosnet.State.{LinkStats, Link, Host, Handle}
use kronosnet.Hosts.Zero.{zero_link, zero_host}

abbrev pub einval : ℕ
einval = 22

abbrev pub eexist : ℕ
eexist = 17

abbrev pub ebusy : ℕ
ebusy = 16

abbrev pub enomem : ℕ
enomem = 12

unfoldable pub host_list_update : Handle → Handle
host_list_update knet_h = record knet_h { host_ids = knet_h.host_list }

-- the links of a new host, whose latency_min is UINT32_MAX
unfoldable pub new_link : ℕ → Link
new_link link_idx =
    if ltb link_idx 8
    then record zero_link {
      link_id = link_idx;
      status = record (zero_link.status) {
        stats = record (zero_link.status.stats) { latency_min = 2 ^ 32 - 1 };
      };
    }
    else zero_link

-- a new host; its name is left out
unfoldable pub make_host : Handle → ℕ → Host
make_host knet_h host_id = record zero_host {
  host_id = host_id;
  allocated_defrag_bufs = knet_h.defrag_bufs_min;
  onwire_ver = if knet_h.host_id == host_id then knet_h.onwire_ver else 0;
  onwire_max_ver = if knet_h.host_id == host_id then knet_h.onwire_max_ver else 0;
  link = new_link;
}

-- `granted` is whether both calls of malloc return memory.
unfoldable pub host_add : Handle → ℕ → ℕ → Bool → ℕ × Handle
host_add knet_h host_id locked granted =
    if truthy locked then (locked, knet_h) else elim (knet_h.host_index host_id) [
      | some host ↦ (eexist, knet_h)
      | none ↦
          if granted
          then (
            0,
            host_list_update (record knet_h {
              host_index = update knet_h.host_index host_id (some (make_host knet_h host_id));
              host_list = host_id ∷ knet_h.host_list;
            }),
          )
          else (enomem, knet_h)
    ]

-- whether any of `n` links from `link_idx` on is configured
unfoldable pub is_configured : ℕ → ℕ → Host → Bool
is_configured zero link_idx host = false
is_configured (suc n) link_idx host =
    truthy (host.link link_idx).configured || is_configured n (link_idx + 1) host

-- the host taken out of the list: the first, or the next of one that is found in the loop
unfoldable pub unlink : ℕ → List ℕ → List ℕ
unlink host_id [] = []
unlink host_id (id ∷ ids) = if id == host_id then ids else id ∷ unlink host_id ids

unfoldable pub host_remove : Handle → ℕ → ℕ → ℕ × Handle
host_remove knet_h host_id locked =
    if truthy locked then (locked, knet_h) else elim (knet_h.host_index host_id) [
      | none ↦ (einval, knet_h)
      | some host ↦ if is_configured 8 0 host then (ebusy, knet_h) else (
        0,
        host_list_update (record knet_h {
          host_index = update knet_h.host_index host_id none;
          host_list = unlink host_id knet_h.host_list;
        }),
      )
    ]

-- knet_host_get_host_list behind its argument checks
unfoldable pub get_host_list : Handle → List ℕ
get_host_list knet_h = knet_h.host_ids

-- `update_err` is the errno of _host_dstcache_update_async, 0 on success.
unfoldable pub set_policy : Handle → ℕ → ℕ → ℕ → ℕ → ℕ × Handle
set_policy knet_h host_id policy locked update_err =
    if ltb 2 policy
    then (einval, knet_h)
    else (if truthy locked then (locked, knet_h) else elim (knet_h.host_index host_id) [
      | none ↦ (einval, knet_h)
      | some host ↦ if truthy update_err then (update_err, knet_h) else (
        0,
        record knet_h {
          host_index =
              update knet_h.host_index host_id
                (some (record host { link_handler_policy = policy }));
        },
      )
    ])
