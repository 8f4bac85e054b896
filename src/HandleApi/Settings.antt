-- ===== src/HandleApi/Settings.antt =====
-- libknet/handle_api.c: calls that change settings of the handle. `locked` is what the lock returns, a
-- result an errno, 0 on success.
use Prim.Native.Nat.{bit_and}
use kronosnet.Base.{
  ℕ, ◌-◌, Bool, true, ◌&&◌, ◌||◌, not, Option, none, some, List, [], ◌∷◌, ltb, ◌==◌, if◌then◌else◌,
  truthy, update,
}
use kronosnet.State.{Host, Handle}
use kronosnet.SeqNum.{clear_defrag_bufs_stats}
use kronosnet.Hosts.{einval}

unfoldable pub is_power_of_two : ℕ → Bool
is_power_of_two num = truthy num && bit_and num (num - 1) == 0

-- the loop over the hosts
unfoldable pub clear_hosts_stats : List ℕ → (ℕ → Option Host) → ℕ → Option Host
clear_hosts_stats [] index = index
clear_hosts_stats (id ∷ ids) index = clear_hosts_stats ids (elim (index id) [
  | none ↦ index
  | some host ↦ update index id (some (clear_defrag_bufs_stats host))
])

-- knet_handle_set_host_defrag_bufs
unfoldable pub set_host_defrag_bufs : Handle → ℕ → ℕ → ℕ → ℕ → ℕ → ℕ × Handle
set_host_defrag_bufs knet_h least most threshold policy locked =
    if not (truthy least) || not (is_power_of_two least) || ltb most least
    then (einval, knet_h)
    else (if not (truthy most) || not (is_power_of_two most) || ltb most least
        then (einval, knet_h)
        else (if not (truthy threshold) || ltb 50 threshold
            then (einval, knet_h)
            else (if ltb 1 policy
                then (einval, knet_h)
                else (if truthy locked then (locked, knet_h) else (
                  0,
                  record knet_h {
                    defrag_bufs_min = least;
                    defrag_bufs_max = most;
                    defrag_bufs_shrink_threshold = threshold;
                    defrag_bufs_reclaim_policy = policy;
                    host_index = clear_hosts_stats knet_h.host_list knet_h.host_index;
                  },
                )))))

-- knet_handle_enable_access_lists
unfoldable pub enable_access_lists : Handle → ℕ → ℕ → ℕ × Handle
enable_access_lists knet_h enabled locked =
    if ltb 1 enabled
    then (einval, knet_h)
    else (if truthy locked
        then (locked, knet_h)
        else (0, record knet_h { use_access_lists = enabled }))

-- knet_handle_enable_sock_notify; `given` is whether a function is passed
unfoldable pub enable_sock_notify : Handle → Bool → ℕ → ℕ × Handle
enable_sock_notify knet_h given locked =
    if not given
    then (einval, knet_h)
    else (if truthy locked then (locked, knet_h) else (0, record knet_h { sock_notify = true }))
