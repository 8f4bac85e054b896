-- ===== src/Shrink.antt =====
-- libknet/threads_rx.c:_shrink_defrag_buffers, which halves the array of reassembly buffers of a host that
-- uses few of them. `none` stands for a division by zero; `granted` is whether realloc returns memory.
mod Kept
mod Tests
use kronosnet.Base.{
  ℕ, zero, suc, ◌+◌, ◌*◌, ◌/◌, ◌^◌, Bool, true, false, ◌&&◌, ◌||◌, not, Option, none, some, List,
  [], ◌∷◌, ltb, leb, ◌==◌, if◌then◌else◌, truthy, update, u8, u16, u32,
}
use kronosnet.State.{Timespec, DefragBuf, Host, Handle}
use kronosnet.SeqNum.{clear_defrag_bufs_stats}
use kronosnet.Heartbeat.{timespec_diff}

-- RECLAIM_POLICY_AVERAGE; the other one is RECLAIM_POLICY_ABSOLUTE
abbrev pub policy_average : ℕ
policy_average = 0

-- the loop that counts in in_use_bufs, with `n` rounds left at index `i`
unfoldable pub count_in_use : ℕ → ℕ → ℕ → (ℕ → DefragBuf) → ℕ
count_in_use zero i in_use_bufs bufs = in_use_bufs
count_in_use (suc n) i in_use_bufs bufs =
    count_in_use n (i + 1) (if truthy (bufs i).in_use then u16 (in_use_bufs + 1) else in_use_bufs)
      bufs

-- the sample of this run, in percent
unfoldable pub usage : Host → ℕ
usage host = u8 (
    count_in_use host.allocated_defrag_bufs 0 0 host.defrag_bufs * 100 / host.allocated_defrag_bufs)

unfoldable pub note_usage : Handle → Host → Host
note_usage knet_h host =
    let index = u8 (host.in_use_defrag_buffers_index + 1) in
    record host {
      in_use_defrag_buffers =
          update host.in_use_defrag_buffers host.in_use_defrag_buffers_index (usage host);
      in_use_defrag_buffers_index = if index == knet_h.defrag_bufs_usage_samples then 0 else index;
    }

unfoldable pub sum_samples : ℕ → ℕ → ℕ → (ℕ → ℕ) → ℕ
sum_samples zero i sum samples = sum
sum_samples (suc n) i sum samples = sum_samples n (i + 1) (u32 (sum + samples i)) samples

unfoldable pub any_above : ℕ → ℕ → ℕ → (ℕ → ℕ) → Bool
any_above zero i threshold samples = false
any_above (suc n) i threshold samples =
    ltb threshold (samples i) || any_above n (i + 1) threshold samples

-- whether the samples are low enough
unfoldable pub may_shrink : Handle → Host → Bool
may_shrink knet_h host =
    let samples = knet_h.defrag_bufs_usage_samples in
    if knet_h.defrag_bufs_reclaim_policy == policy_average
    then leb (sum_samples samples 0 0 host.in_use_defrag_buffers / samples)
        knet_h.defrag_bufs_shrink_threshold
    else not (any_above samples 0 knet_h.defrag_bufs_shrink_threshold host.in_use_defrag_buffers)

-- the loop that moves the buffers in use to the front, the next one to `x`
unfoldable pub compact : ℕ → ℕ → ℕ → (ℕ → DefragBuf) → ℕ → DefragBuf
compact zero i x bufs = bufs
compact (suc n) i x bufs =
    compact n (i + 1) (if truthy (bufs i).in_use then x + 1 else x)
      (if truthy (bufs i).in_use then update bufs x (bufs i) else bufs)

-- What is done once the samples allow it. For a host with one buffer, realloc of 0 bytes may free the array
-- and return a null pointer, which the code takes for a failure; here the array is kept, packed, then.
unfoldable pub halve : Bool → Host → Host
halve granted host =
    let packed = record host {
      defrag_bufs = compact host.allocated_defrag_bufs 0 0 host.defrag_bufs;
    } in
    if granted
    then clear_defrag_bufs_stats
        (record packed { allocated_defrag_bufs = host.allocated_defrag_bufs / 2 })
    else packed

unfoldable pub shrink_host : Handle → Bool → Host → Option Host
shrink_host knet_h granted host =
    let noted = note_usage knet_h host in
    if host.allocated_defrag_bufs == 0
    then none
    else (if ltb noted.in_use_defrag_buffers_samples knet_h.defrag_bufs_usage_samples
        then some (record noted {
          in_use_defrag_buffers_samples = u8 (noted.in_use_defrag_buffers_samples + 1);
        })
        else (if not (may_shrink knet_h noted)
              || noted.allocated_defrag_bufs == knet_h.defrag_bufs_min
            then some noted
            else some (halve granted noted)))

-- the loop over the hosts
unfoldable pub shrink_hosts : (ℕ → Bool) → List ℕ → Handle → Option Handle
shrink_hosts granted [] knet_h = some knet_h
shrink_hosts granted (id ∷ ids) knet_h = elim (knet_h.host_index id) [
  | none ↦ shrink_hosts granted ids knet_h
  | some host ↦ elim (shrink_host knet_h (granted id) host) [
    | none ↦ none
    | some host' ↦
        shrink_hosts granted ids
          (record knet_h { host_index = update knet_h.host_index id (some host') })
  ]
]

-- `now` is what clock_gettime gives
unfoldable pub shrink_defrag_buffers : Handle → Timespec → (ℕ → Bool) → Option Handle
shrink_defrag_buffers knet_h now granted =
    let last = knet_h.defrag_bufs_last_run in
    let period =
      knet_h.defrag_bufs_usage_samples_timespan * 1000000000 / knet_h.defrag_bufs_usage_samples in
    if last.tv_sec == 0 && last.tv_nsec == 0
    then some (record knet_h { defrag_bufs_last_run = now })
    else (if ltb (timespec_diff last now) period
        then some knet_h
        else shrink_hosts granted knet_h.host_list (record knet_h { defrag_bufs_last_run = now }))
