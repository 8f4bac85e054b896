-- ===== src/Onwire.antt =====
-- libknet/onwire.c: packet sizes and the API of the on-wire version, and
-- libknet/host.c:_handle_onwire_version, which agrees the version between the nodes.
pub mod Sizes
pub mod Version
mod Tests
use kronosnet.Base.{
  ℕ, ◌+◌, ◌-◌, ◌%◌, ◌^◌, Bool, true, false, ◌&&◌, ◌||◌, Option, none, some, List, [], ◌∷◌, ltb,
  ◌==◌, if◌then◌else◌, truthy, update,
}
use kronosnet.State.{Host, Handle}

-- size_t arithmetic
abbrev pub size_add : ℕ → ℕ → ℕ
size_add a b = (a + b) % 2 ^ 64

abbrev pub size_sub : ℕ → ℕ → ℕ
size_sub a b = (a + 2 ^ 64 - b) % 2 ^ 64

-- KNET_HEADER_ALL_SIZE
abbrev pub header_all_size : ℕ
header_all_size = 26

unfoldable pub calc_data_outlen : Handle → ℕ → ℕ
calc_data_outlen knet_h inlen =
    let block = knet_h.sec_block_size in
    let outlen = if truthy block then size_add inlen (size_sub block (inlen % block)) else inlen in
    size_add (size_add outlen knet_h.sec_salt_size) knet_h.sec_hash_size

-- the part of `calc_max_data_outlen` under `if (knet_h->sec_block_size)`
unfoldable pub align_down : Handle → ℕ → ℕ
align_down knet_h inlen =
    let crypto = size_add knet_h.sec_salt_size knet_h.sec_hash_size in
    let outlen = size_sub inlen crypto in
    size_add (size_sub outlen (size_add (outlen % knet_h.sec_block_size) 1)) crypto

unfoldable pub calc_max_data_outlen : Handle → ℕ → ℕ
calc_max_data_outlen knet_h inlen =
    let aligned = align_down knet_h inlen in
    let outlen = if truthy knet_h.sec_block_size then aligned else inlen in
    size_sub outlen (size_add (size_add header_all_size knet_h.sec_salt_size) knet_h.sec_hash_size)

-- KNET_PMTUD_MIN_MTU_V4 - (KNET_PMTUD_OVERHEAD_V6 + KNET_PMTUD_SCTP_OVERHEAD), the last 12 + 16
unfoldable pub calc_min_mtu : Handle → ℕ
calc_min_mtu knet_h = calc_max_data_outlen knet_h (576 - (40 + (12 + 16)))

-- one round of the loop: a host below our minimum is passed over
abbrev pub lower : ℕ → ℕ → Host → ℕ
lower min_ver ver host =
    if ltb host.onwire_max_ver min_ver
    then ver
    else (if ltb host.onwire_max_ver ver then host.onwire_max_ver else ver)

-- the loop over the known hosts; `none` is the early return, while a host was not seen yet
unfoldable pub common_ver : ℕ → ℕ → List Host → Option ℕ
common_ver min_ver ver [] = some ver
common_ver min_ver ver (host ∷ rest) =
    let next = common_ver min_ver (lower min_ver ver host) rest in
    if truthy host.onwire_max_ver then next else none

-- the hosts of the list from `host_head`
unfoldable pub hosts_of : (ℕ → Option Host) → List ℕ → List Host
hosts_of host_index [] = []
hosts_of host_index (id ∷ rest) = elim (host_index id) [
  | none ↦ hosts_of host_index rest
  | some host ↦ host ∷ hosts_of host_index rest
]

-- What is decided with the mutex held: the new handle and the version to call back with, if any.
unfoldable pub agree_ver : Handle → ℕ → Handle × Option ℕ
agree_ver knet_h common =
    let ver = if truthy knet_h.onwire_force_ver then knet_h.onwire_force_ver else common in
    if knet_h.onwire_ver == ver
    then (knet_h, none)
    else (record knet_h { onwire_ver = ver }, some ver)

-- `host` is found at its id in `host_index`; `kh_version` and `kh_max_ver` are of the packet;
-- `locked` is whether the mutex is taken. The result says which version is passed to
-- `onwire_ver_notify_fn`, if it is called and set.
unfoldable pub handle_onwire_version : Handle → Host → ℕ → ℕ → Bool → Handle × Option ℕ
handle_onwire_version knet_h host kh_version kh_max_ver locked =
    let host' = record host { onwire_ver = kh_version; onwire_max_ver = kh_max_ver } in
    let noted = record knet_h { host_index = update knet_h.host_index host.host_id (some host') } in
    elim (common_ver noted.onwire_min_ver noted.onwire_max_ver
      (hosts_of noted.host_index noted.host_list)) [
        | none ↦ (noted, none)
        | some common ↦ if locked then agree_ver noted common else (noted, none)
      ]

-- knet_handle_get_onwire_ver behind its argument checks: minimum, maximum and current version of a
-- node, or EINVAL for a host that is not known
unfoldable pub get_onwire_ver : Handle → ℕ → Option (ℕ × ℕ × ℕ)
get_onwire_ver knet_h host_id =
    if host_id == knet_h.host_id
    then some (knet_h.onwire_min_ver, knet_h.onwire_max_ver, knet_h.onwire_ver)
    else elim (knet_h.host_index host_id) [
      | none ↦ none
      | some host ↦ some (0, host.onwire_max_ver, host.onwire_ver)
    ]

-- knet_handle_set_onwire_ver; `locked` is whether the global lock is taken.
unfoldable pub set_onwire_ver : Handle → ℕ → Bool → Option Handle
set_onwire_ver knet_h ver locked =
    if truthy ver && (ltb ver knet_h.onwire_min_ver || ltb knet_h.onwire_max_ver ver)
    then none
    else (if locked then some (record knet_h { onwire_force_ver = ver }) else none)
