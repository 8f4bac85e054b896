-- ===== src/LinkConfig.antt =====
-- libknet/links.c: knet_link_set_config. What the transport, the access lists and the address library
-- answer is an argument: an errno, 0 on success.
pub mod Sound
pub mod Clear
mod Life
mod Calls
mod Ready
mod Tests
use kronosnet.Base.{
  ℕ, zero, suc, ◌+◌, ◌-◌, ◌*◌, Bool, true, false, ◌&&◌, ◌||◌, not, Option, none, some, List, [],
  ◌∷◌, leb, ◌==◌, if◌then◌else◌, truthy, update, u32,
}
use kronosnet.State.{Link, Host, HostStatus, Handle}
use kronosnet.Onwire.{hosts_of, size_sub, calc_max_data_outlen, calc_min_mtu}
use kronosnet.Hosts.{einval, ebusy, is_configured}
use kronosnet.Hosts.Zero.{zero_link}
use kronosnet.Heartbeat.{link_dynip}
use kronosnet.Tx.{transport_loopback}
use kronosnet.Timers.{put_link}

abbrev pub transport_udp : ℕ
transport_udp = 1

-- an address: numbers for its bytes, not 0, and for its IP address, and its family
pub record Addr : Type 0 where
  pub bytes : ℕ
  pub ip : ℕ
  pub family : ℕ

-- the arguments of a call
pub record Config : Type 0 where
  pub transport : ℕ
  pub src_addr : Option Addr
  pub dst_addr : Option Addr
  pub flags : ℕ

-- What is answered: by the lock, by knet_addrtostr for the two addresses, by the mutex, by the
-- transport, with its overhead and transport_connected, and by the access lists, where EEXIST is 0.
pub record ConfigEnv : Type 0 where
  pub locked : ℕ
  pub src_err : ℕ
  pub dst_err : ℕ
  pub mutex_err : ℕ
  pub transport_err : ℕ
  pub proto_overhead : ℕ
  pub transport_connected : ℕ
  pub acl_err : ℕ

-- the errno of the first test that fails, 0 if none does
unfoldable pub first_err : List ℕ → ℕ
first_err [] = 0
first_err (e ∷ es) = if truthy e then e else first_err es

unfoldable pub refuse : Bool → ℕ → ℕ
refuse test errno = if test then errno else 0

unfoldable pub other_family : Config → Bool
other_family c = elim c.src_addr [
  | none ↦ true
  | some src ↦ elim c.dst_addr [ none ↦ false | some dst ↦ not (src.family == dst.family) ]
]

-- the tests before the host is known; no source address is refused with the families
unfoldable pub check_args : Handle → ℕ → ℕ → Config → ConfigEnv → ℕ
check_args knet_h host_id link_id c env = first_err (
    refuse (leb 8 link_id) einval
    ∷ refuse (other_family c) einval
    ∷ refuse (leb 255 c.transport) einval
    ∷ env.locked
    ∷ refuse (c.transport == transport_loopback && not (knet_h.host_id == host_id)) einval
    ∷ refuse (knet_h.host_id == host_id && truthy knet_h.has_loop_link) einval
    ∷ [])

-- the tests of the host and the link
unfoldable pub check_link : Handle → Host → ℕ → ℕ → Config → ℕ
check_link knet_h host host_id link_id c = first_err (
    refuse
      (c.transport == transport_loopback && knet_h.host_id == host_id && is_configured 8 0 host)
      einval
    ∷ refuse (truthy (host.link link_id).configured) ebusy
    ∷ refuse (truthy (host.link link_id).status.enabled) ebusy
    ∷ [])

abbrev bytes_of : Option Addr → ℕ
bytes_of none = 0
bytes_of (some a) = a.bytes

abbrev family_of : Option Addr → ℕ → ℕ
family_of none old = old
family_of (some a) old = a.family

abbrev ip_of : Option Addr → ℕ → ℕ
ip_of none old = old
ip_of (some a) old = a.ip

abbrev is_static : Option Addr → Bool
is_static none = false
is_static (some a) = true

-- the link with its addresses and defaults: KNET_LINK_DEFAULT_*
unfoldable pub default_link : Config → Link → Link
default_link c link = record link {
  src_addr = bytes_of c.src_addr;
  dst_addr = ip_of c.dst_addr link.dst_addr;
  dst_family = family_of c.dst_addr link.dst_family;
  dynamic = if is_static c.dst_addr then 0 else link_dynip;
  pmtud_crypto_timeout_multiplier = 2;
  pong_count = 5;
  has_valid_mtu = 0;
  ping_interval = 1000 * 1000;
  pong_timeout = 2000 * 1000;
  pong_timeout_backoff = 10;
  pong_timeout_adj = 2000 * 1000 * 10;
  latency_max_samples = 2048;
  flags = c.flags;
  status = record (link.status) { stats = record (link.status.stats) { latency_samples = 0 } };
}

-- the loop over the links of a host, of which `own` is the one that is configured
unfoldable pub clashes : ℕ → ℕ → Link → (ℕ → Bool) → Host → Bool
clashes zero link_idx link own host = false
clashes (suc n) link_idx link own host =
    let other = host.link link_idx in
    not (own link_idx) && other.src_addr == link.src_addr && not (other.dynamic == link.dynamic)
    || clashes n (link_idx + 1) link own host

-- the loop over the hosts
unfoldable pub any_clash : Link → ℕ → ℕ → List Host → Bool
any_clash link host_id link_id [] = false
any_clash link host_id link_id (host ∷ hosts) =
    clashes 8 0 link (λ i. host.host_id == host_id && i == link_id) host
    || any_clash link host_id link_id hosts

-- the tests after which an error wipes the link
unfoldable pub check_setup : Handle → ℕ → ℕ → Config → ConfigEnv → Link → ℕ
check_setup knet_h host_id link_id c env link = first_err (
    env.src_err
    ∷ refuse (is_static c.dst_addr && truthy env.dst_err) env.dst_err
    ∷ refuse (any_clash link host_id link_id (hosts_of knet_h.host_index knet_h.host_list)) einval
    ∷ env.mutex_err
    ∷ env.transport_err
    ∷ refuse (c.transport == transport_udp && is_static c.dst_addr && truthy env.acl_err)
        env.acl_err
    ∷ [])

-- the first MTU: KNET_PMTUD_MIN_MTU_V6 or _V4 less the overhead, if the destination is known
unfoldable pub first_mtu : Handle → Link → ℕ
first_mtu knet_h link =
    if link.dynamic == 0
    then (if link.dst_family == 10
        then u32 (calc_max_data_outlen knet_h (size_sub 1280 (40 + link.proto_overhead)))
        else (if link.dst_family == 2
            then u32 (calc_max_data_outlen knet_h (size_sub 576 (20 + link.proto_overhead)))
            else link.status.mtu))
    else u32 (calc_min_mtu knet_h)

unfoldable pub configured_link : Handle → Config → ConfigEnv → Link → Link
configured_link knet_h c env link =
    let set = record link {
      transport = c.transport;
      proto_overhead = env.proto_overhead;
      transport_connected = env.transport_connected;
      configured = 1;
    } in
    if c.transport == transport_loopback
    then record set { status = record (set.status) { mtu = 65535 } }
    else record set {
      status = record (set.status) { mtu = first_mtu knet_h set };
      has_valid_mtu = 1;
    }

-- memset, and the number of the link
unfoldable pub wiped_link : ℕ → Link
wiped_link link_id = record zero_link { link_id = link_id }

-- a loop link makes its host reachable
unfoldable pub note_loop : Config → ℕ → Host → Handle → Host × Handle
note_loop c link_id host knet_h =
    if c.transport == transport_loopback
    then (
      record host { status = record (host.status) { reachable = 1 } },
      record knet_h { has_loop_link = 1; loop_link = link_id },
    )
    else (host, knet_h)

unfoldable pub set_config : Handle → ℕ → ℕ → Config → ConfigEnv → ℕ × Handle
set_config knet_h host_id link_id c env =
    let bad_args = check_args knet_h host_id link_id c env in
    if truthy bad_args then (bad_args, knet_h) else elim (knet_h.host_index host_id) [
      | none ↦ (einval, knet_h)
      | some host ↦
          let bad_link = check_link knet_h host host_id link_id c in
          let link = default_link c (host.link link_id) in
          let bad_setup = check_setup knet_h host_id link_id c env link in
          let (host', knet_h') = note_loop c link_id host knet_h in
          if truthy bad_link
          then (bad_link, knet_h)
          else (if truthy bad_setup
              then (bad_setup, put_link knet_h host_id link_id host (wiped_link link_id))
              else (0, put_link knet_h' host_id link_id host' (configured_link knet_h c env link)))
    ]
