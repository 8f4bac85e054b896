-- ===== src/Dests/Tests.antt =====
-- The theorem on destinations at a concrete packet, and runs of the code.
use kronosnet.Base.{ℕ, ◌≡◌, refl, false, Option, none, some, [], ◌∷◌, ◌==◌, if◌then◌else◌}
use kronosnet.State.{Host, Handle}
use kronosnet.Samples.{new_host, node}
use kronosnet.Dests.{
  Filtered, DestsResult, get_data_dests, find_dests, unicast_loop, bcast_loop, is_local, can_reach,
}
use kronosnet.Dests.Reachable.{IsFound, get_data_dests-IsFound}

-- host 1 is the node itself, 2 is down, 3 and 4 are reachable, others are unknown
abbrev host_at : ℕ → Option Host
host_at id =
    let down = record new_host { host_id = id } in
    let up = record down { status = record down.status { reachable = 1 } } in
    if id == 1
    then some up
    else (if id == 2
        then some down
        else (if id == 3 then some up else (if id == 4 then some up else none)))

abbrev looped : Handle
looped = record node { host_list = 1 ∷ 2 ∷ 3 ∷ 4 ∷ []; host_index = host_at; has_loop_link = 1 }

abbrev unicast : Filtered
unicast = record { bcast = some 0; dst_host_ids = 4 ∷ 1 ∷ 2 ∷ 9 ∷ 3 ∷ [] }

get_data_dests-IsFound_example :
    IsFound looped (some unicast) (get_data_dests looped (some unicast) false)
get_data_dests-IsFound_example = get_data_dests-IsFound looped (some unicast) false

get_data_dests_run :
    (get_data_dests looped (some unicast) false
      ≡ DestsResult.dests (record { bcast = 0; send_local = 1; dst_host_ids = 4 ∷ 3 ∷ [] }))
    × (get_data_dests looped none false
        ≡ DestsResult.dests (record { bcast = 1; send_local = 1; dst_host_ids = [] }))
unfolding get_data_dests find_dests unicast_loop bcast_loop is_local can_reach
get_data_dests_run = (refl, refl)
