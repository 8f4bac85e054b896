-- ===== src/Onwire/Tests.antt =====
-- The theorems on packet sizes and versions at concrete inputs, and runs of the code.
use kronosnet.Base.{◌+◌, ◌≡◌, ◌<◌, ◌≤◌, ◌⊎◌, refl, true, some, none, arith, ◌==◌, if◌then◌else◌}
use kronosnet.State.{Handle}
use kronosnet.Samples.{new_host, node}
use kronosnet.Onwire.{
  calc_data_outlen, calc_max_data_outlen, calc_min_mtu, handle_onwire_version, align_down,
}
use kronosnet.Onwire.Sizes.{calc_max_data_outlen_padded}
use kronosnet.Onwire.Version.{Unseen, Seen, IsCommon, noted_hosts, handle_onwire_version-IsCommon}

abbrev clear_node : Handle
clear_node = record node { sec_block_size = 0; sec_hash_size = 0; sec_salt_size = 0 }

calc_max_data_outlen_padded_example :
    (calc_data_outlen node (calc_max_data_outlen node 1472 + 26) ≤ 1472)
    × (1472 < calc_data_outlen node (calc_max_data_outlen node 1472 + 26 + 1))
calc_max_data_outlen_padded_example =
    calc_max_data_outlen_padded node 1472 (omega arith) (omega arith) (omega arith) (omega arith)
      (omega arith)

calc_max_data_outlen_run :
    (calc_max_data_outlen node 1472 ≡ 1397)
    × (calc_max_data_outlen clear_node 1472 ≡ 1446)
    × (calc_min_mtu node ≡ 421)
unfolding calc_max_data_outlen align_down calc_min_mtu
calc_max_data_outlen_run = (refl, refl, refl)

handle_onwire_version-IsCommon_example :
    let hosts = noted_hosts node new_host 1 2 in
    let (knet_h, called) = handle_onwire_version node new_host 1 2 true in
    (Unseen hosts × (knet_h.onwire_ver ≡ 1) × (called ≡ none))
    ⊎ (Seen hosts
        × IsCommon 1 3 hosts knet_h.onwire_ver
        × (called ≡ (if 1 == knet_h.onwire_ver then none else some knet_h.onwire_ver)))
handle_onwire_version-IsCommon_example = handle_onwire_version-IsCommon node new_host 1 2 refl

abbrev forced : Handle
forced = record node { onwire_force_ver = 2 }
