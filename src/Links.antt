-- ===== src/Links.antt =====
-- libknet/links.c: what happens when the state of a link changes (_link_updown). Calls of other
-- threads, of the transport and of the user's callback are recorded as effects, in their order.
use kronosnet.Base.{
  ℕ, ◌+◌, Bool, true, false, ◌&&◌, not, List, [], ◌∷◌, ◌++◌, leb, ◌==◌, if◌then◌else◌, truthy,
  update, u32,
}
use kronosnet.State.{LinkStats, Link}

-- link_status_change_notify_fn with its `connected` argument, _host_dstcache_update_async,
-- transport_link_is_down and force_pmtud_run
pub data Effect : Type 0 where
  notify : ℕ → Effect
  dstcache_update : Effect
  link_is_down : Effect
  pmtud_run : Effect

-- MAX_LINK_EVENTS
abbrev pub max_link_events : ℕ
max_link_events = 16

unfoldable pub next_event : ℕ → ℕ
next_event i = if leb max_link_events (i + 1) then 0 else i + 1

-- the counts and the times of the last events; `now` is what time() stores
unfoldable pub count_updown : ℕ → ℕ → LinkStats → LinkStats
count_updown connected now stats =
    if truthy connected
    then record stats {
      last_up_times = update stats.last_up_times stats.last_up_time_index now;
      up_count = u32 (stats.up_count + 1);
      last_up_time_index = next_event stats.last_up_time_index;
    }
    else record stats {
      last_down_times = update stats.last_down_times stats.last_down_time_index now;
      down_count = u32 (stats.down_count + 1);
      last_down_time_index = next_event stats.last_down_time_index;
    }

-- what the user is told
unfoldable pub notification : Link → ℕ → ℕ → ℕ
notification link enabled connected =
    if not (truthy enabled)
    then 0
    else (if link.status.connected == connected then link.status.connected else connected)

-- `notified` is whether the user has set a callback, `locked` whether the statistics' mutex is taken
-- or need not be, which decides about -1 and 0. The record of the interface index is left out.
unfoldable pub link_updown : Bool → Link → ℕ → ℕ → ℕ → Bool → Link × List Effect × Bool
link_updown notified link enabled connected now locked =
    let told =
      if truthy link.status.enabled && notified
      then Effect.notify (notification link enabled connected) ∷ []
      else [] in
    let done =
      Effect.dstcache_update
      ∷ (if truthy connected then Effect.pmtud_run else Effect.link_is_down)
      ∷ [] in
    let status = record (link.status) {
      enabled = enabled;
      connected = connected;
      dynconnected =
          if truthy link.status.dynconnected && not (truthy connected)
          then 0
          else link.status.dynconnected;
    } in
    if (link.status.enabled == enabled) && (link.status.connected == connected)
    then (link, [], true)
    else (if locked
        then (
          record link {
            status = record status { stats = count_updown connected now status.stats };
          },
          told ++ done,
          true,
        )
        else (record link { status = status }, told ++ done, false))
