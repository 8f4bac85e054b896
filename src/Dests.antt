-- ===== src/Dests.antt =====
-- libknet/threads_tx.c:_get_data_dests: the destinations of a packet that the application sends.
pub mod Reachable
mod Tests
use kronosnet.Base.{
  ℕ, Bool, ◌&&◌, ◌||◌, not, length, Option, none, some, List, [], ◌∷◌, ltb, ◌==◌, if◌then◌else◌,
  truthy,
}
use kronosnet.State.{Host, Handle}

-- What `dst_host_filter_fn` returns, `none` for a negative number, and the destinations it stores.
pub record Filtered : Type 0 where
  pub bcast : Option ℕ
  pub dst_host_ids : List ℕ

-- `*bcast`, `*send_local` and `dst_host_ids`
pub record DataDests : Type 0 where
  pub bcast : ℕ
  pub send_local : ℕ
  pub dst_host_ids : List ℕ

-- 0 with the destinations, or -1 with an errno
pub data DestsResult : Type 0 where
  dests : DataDests → DestsResult
  error : ℕ → DestsResult

abbrev pub e2big : ℕ
e2big = 7

abbrev pub efault : ℕ
efault = 14

abbrev pub einval : ℕ
einval = 22

abbrev pub ehostdown : ℕ
ehostdown = 112

-- KNET_MAX_HOST
abbrev pub max_host : ℕ
max_host = 65536

-- our own host with a loop link
unfoldable pub is_local : Handle → Host → Bool
is_local knet_h dst_host = dst_host.host_id == knet_h.host_id && truthy knet_h.has_loop_link

-- a host that data goes to over the network
unfoldable pub can_reach : Handle → Host → Bool
can_reach knet_h dst_host = not (is_local knet_h dst_host) && truthy dst_host.status.reachable

-- the loop over the destinations from the filter
unfoldable pub unicast_loop : Handle → List ℕ → ℕ → List ℕ × ℕ
unicast_loop knet_h [] send_local = ([], send_local)
unicast_loop knet_h (id ∷ ids) send_local = elim (knet_h.host_index id) [
  | none ↦ unicast_loop knet_h ids send_local
  | some dst_host ↦
      let (rest, local) =
        unicast_loop knet_h ids (if is_local knet_h dst_host then 1 else send_local) in
      (if can_reach knet_h dst_host then id ∷ rest else rest, local)
]

-- the loop over all hosts
unfoldable pub bcast_loop : Handle → List ℕ → ℕ → ℕ → ℕ × ℕ
bcast_loop knet_h [] bcast send_local = (bcast, send_local)
bcast_loop knet_h (id ∷ ids) bcast send_local = elim (knet_h.host_index id) [
  | none ↦ bcast_loop knet_h ids bcast send_local
  | some dst_host ↦
      bcast_loop knet_h ids (if can_reach knet_h dst_host then 1 else bcast)
        (if is_local knet_h dst_host then 1 else send_local)
]

-- the part after the filter was called
unfoldable pub find_dests : Handle → ℕ → List ℕ → DestsResult
find_dests knet_h bcast ids =
    if truthy bcast
    then (let (bcast', send_local) = bcast_loop knet_h knet_h.host_list 0 0 in
        if not (truthy bcast') && not (truthy send_local)
        then DestsResult.error ehostdown
        else DestsResult.dests
            (record { bcast = bcast'; send_local = send_local; dst_host_ids = [] }))
    else (let (dst_host_ids, send_local) = unicast_loop knet_h ids 0 in
        if not (truthy (length dst_host_ids)) && not (truthy send_local)
        then DestsResult.error ehostdown
        else DestsResult.dests
            (record { bcast = 0; send_local = send_local; dst_host_ids = dst_host_ids }))

-- `filtered` is what the filter returns, `none` if there is no filter; the caller's `*bcast` is 1 and
-- its `*send_local` 0.
unfoldable pub get_data_dests : Handle → Option Filtered → Bool → DestsResult
get_data_dests knet_h none is_sync = find_dests knet_h 1 []
get_data_dests knet_h (some f) is_sync = elim f.bcast [
  | none ↦ DestsResult.error efault
  | some bcast ↦
      if not (truthy bcast) && not (truthy (length f.dst_host_ids))
      then DestsResult.error einval
      else (if not (truthy bcast) && ltb max_host (length f.dst_host_ids)
          then DestsResult.error einval
          else (if is_sync && (truthy bcast || ltb 1 (length f.dst_host_ids))
              then DestsResult.error e2big
              else find_dests knet_h bcast f.dst_host_ids))
]
