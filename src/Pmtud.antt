-- ===== src/Pmtud.antt =====
-- libknet/threads_pmtud.c: the search for the path MTU of a link. What becomes of each probe is an
-- argument. Statistics and log messages are left out, sizes are size_t.
pub mod Round
mod Bisect
mod Halving
mod Discovery
mod Acked
mod Deadline
mod Stale
mod Tests
use kronosnet.Base.{
  ℕ, zero, suc, ◌+◌, ◌-◌, ◌*◌, ◌/◌, Bool, true, false, ◌&&◌, ◌||◌, not, Option, none, some, ltb,
  leb, ◌==◌, if◌then◌else◌, truthy, u32,
}
use kronosnet.State.{Timespec, Link, Handle}
use kronosnet.Onwire.{size_add, size_sub, header_all_size, calc_data_outlen, calc_max_data_outlen}

-- KNET_PMTUD_SIZE_V4, which is also that of IPv6
abbrev pub pmtud_size : ℕ
pmtud_size = 65535

abbrev pub af_inet : ℕ
af_inet = 2

abbrev pub af_inet6 : ℕ
af_inet6 = 10

-- the overhead by address family: KNET_PMTUD_OVERHEAD_V6 or _V4 and that of the protocol
unfoldable pub ipproto_overhead : Link → Option ℕ
ipproto_overhead link =
    if link.dst_family == af_inet6
    then some (40 + link.proto_overhead)
    else (if link.dst_family == af_inet then some (20 + link.proto_overhead) else none)

unfoldable pub calculate_manual_mtu : Handle → Link → Bool × Link
calculate_manual_mtu knet_h link = elim (ipproto_overhead link) [
  | none ↦ (false, link)
  | some overhead ↦ (
    true,
    record link {
      status = record (link.status) {
        mtu = u32 (calc_max_data_outlen knet_h (size_sub knet_h.manual_mtu overhead));
      };
    },
  )
]

-- What becomes of a probe. broken: a lock, the encryption, the clock or the socket fails, or the link
-- goes down, after the probe was sent or before. aborted: pmtud_abort is set, likewise. refused: EMSGSIZE or EPERM, with the MTU that the kernel has
-- reported, or 0. unsent: another error, which the transport ignores. replied: a reply has set
-- last_recv_mtu, in less than half the timeout or not. timed_out and unwaited: what waiting for a reply
-- returned.
pub data Answer : Type 0 where
  broken : Bool → Answer
  aborted : Bool → Answer
  refused : ℕ → Answer
  unsent : Answer
  replied : ℕ → Bool → Answer
  timed_out : Answer
  unwaited : Answer

pub data Result : Type 0 where
  found : Result
  failed : Result
  rescheduled : Result

-- the locals of the search
pub record Search : Type 0 where
  pub link : Link
  pub onwire_len : ℕ
  pub mutex_retry_limit : ℕ
  pub crypto_reduce : Bool

-- the end of a search, or the next probe
pub data Step : Type 0 where
  finish : Result → Link → Step
  restart : Search → Step

-- the size on the wire after the encryption's padding
unfoldable pub pad_onwire_len : Handle → ℕ → ℕ → ℕ
pad_onwire_len knet_h overhead onwire_len =
    let app_mtu_len = calc_max_data_outlen knet_h (size_sub onwire_len overhead) in
    size_add (calc_data_outlen knet_h (size_add app_mtu_len header_all_size)) overhead

unfoldable pub found_mtu : Handle → ℕ → Link → Bool
found_mtu knet_h onwire_len link =
    if truthy knet_h.sec_block_size
    then leb pmtud_size (size_add onwire_len knet_h.sec_block_size)
      || (truthy link.last_bad_mtu
          && leb link.last_bad_mtu (size_add onwire_len knet_h.sec_block_size))
    else (onwire_len == pmtud_size
        || (truthy link.last_bad_mtu && link.last_bad_mtu == size_add onwire_len 1)
        || link.last_bad_mtu == link.last_good_mtu)

-- the size of the next probe
unfoldable pub bisect : Search → Link → Step
bisect s link =
    Step.restart
      (record s { link = link; onwire_len = u32 (link.last_good_mtu + link.last_bad_mtu) / 2 })

-- the multiplier after an answer in time
unfoldable pub reduce_multiplier : Handle → Bool → Link → Link
reduce_multiplier knet_h fast link =
    if truthy knet_h.crypto_in_use_config && fast && ltb 2 link.pmtud_crypto_timeout_multiplier
    then record link { pmtud_crypto_timeout_multiplier = link.pmtud_crypto_timeout_multiplier / 2 }
    else link

-- A reply for `recv` bytes has come.
unfoldable pub check_reply : Handle → ℕ → Search → ℕ → Link → Step
check_reply knet_h overhead s recv link =
    if not (recv == s.onwire_len)
    then bisect s (record link { last_bad_mtu = u32 s.onwire_len })
    else (if found_mtu knet_h s.onwire_len link
        then Step.finish Result.found (record link {
          status = record (link.status) {
            mtu = u32 (calc_max_data_outlen knet_h (size_sub s.onwire_len overhead));
          };
        })
        else bisect s (record link { last_good_mtu = u32 s.onwire_len }))

-- No reply has come in time: wait longer if the encryption may be slow.
unfoldable pub miss_reply : Handle → Search → Link → Step
miss_reply knet_h s link =
    if truthy knet_h.crypto_in_use_config && ltb link.pmtud_crypto_timeout_multiplier 128
    then Step.restart (record s {
      link = record link {
        pmtud_crypto_timeout_multiplier = u32 (link.pmtud_crypto_timeout_multiplier * 2);
      };
      crypto_reduce = false;
    })
    else bisect s (record link { last_bad_mtu = u32 s.onwire_len })

-- a probe that was sent
abbrev pub sent : Search → ℕ → Link
sent s recv = record (s.link) { last_sent_mtu = u32 s.onwire_len; last_recv_mtu = recv }

unfoldable pub take_answer : Handle → ℕ → Search → Answer → Step
take_answer knet_h overhead s (Answer.broken was_sent) =
    Step.finish Result.failed (if was_sent then sent s 0 else s.link)
take_answer knet_h overhead s (Answer.aborted was_sent) =
    Step.finish Result.rescheduled (if was_sent then sent s 0 else s.link)
take_answer knet_h overhead s (Answer.refused kernel_mtu) =
    if truthy kernel_mtu
    then Step.restart (record s {
      link = record (s.link) { last_bad_mtu = u32 (kernel_mtu + 1) };
      onwire_len = kernel_mtu;
    })
    else bisect s (record (s.link) { last_bad_mtu = u32 s.onwire_len })
take_answer knet_h overhead s Answer.unsent = bisect s s.link
take_answer knet_h overhead s (Answer.replied recv fast) =
    check_reply knet_h overhead s recv
      (reduce_multiplier knet_h (fast && s.crypto_reduce) (sent s recv))
take_answer knet_h overhead s Answer.timed_out = miss_reply knet_h s (sent s 0)
take_answer knet_h overhead s Answer.unwaited =
    if s.mutex_retry_limit == 3
    then Step.finish Result.failed (sent s 0)
    else Step.restart (record s { link = sent s 0; mutex_retry_limit = s.mutex_retry_limit + 1 })

-- Whether the search is given up before the probe for `app_mtu_len` bytes of data is sent: the version
-- is not understood, the encryption would refuse a packet of no more than its own header, or the link
-- is down.
unfoldable pub gives_up : Handle → ℕ → Link → Bool
gives_up knet_h app_mtu_len link =
    let crypto = size_add knet_h.sec_hash_size knet_h.sec_salt_size in
    let data_len = size_add (size_add app_mtu_len crypto) header_all_size in
    not (truthy knet_h.onwire_ver_remap || knet_h.onwire_ver == 1)
    || (truthy knet_h.crypto_in_use_config && ltb data_len (size_add crypto 1))
    || not (link.status.connected == 1)
    || not (link.transport_connected == 1)

-- One round from `restart:`.
unfoldable pub probe : Handle → ℕ → Search → (ℕ → Answer) → Step
probe knet_h overhead s answer =
    let onwire_len = pad_onwire_len knet_h overhead s.onwire_len in
    let app_mtu_len = calc_max_data_outlen knet_h (size_sub s.onwire_len overhead) in
    if gives_up knet_h app_mtu_len s.link
    then Step.finish Result.failed s.link
    else take_answer knet_h overhead (record s { onwire_len = onwire_len }) (answer onwire_len)

-- the failsafe
abbrev pub max_probes : ℕ
max_probes = 30

-- `n` rounds are left; `answer` says what becomes of the probe of a round and a size.
unfoldable pub search_loop : ℕ → Handle → ℕ → Search → (ℕ → ℕ → Answer) → Result × Link
search_loop zero knet_h overhead s answer = (Result.failed, s.link)
search_loop (suc n) knet_h overhead s answer =
    elim (probe knet_h overhead s (answer (max_probes - suc n))) [
      | Step.finish result link ↦ (result, link)
      | Step.restart s' ↦ search_loop n knet_h overhead s' answer
    ]

unfoldable pub start_search : Link → ℕ → Search
start_search link overhead = record {
  link = record link {
    last_bad_mtu = 0;
    last_good_mtu = u32 (size_add link.last_ping_size overhead);
  };
  onwire_len = pmtud_size;
  mutex_retry_limit = 0;
  crypto_reduce = true;
}

-- `locked` is whether the mutex of the on-wire version is taken.
unfoldable pub check_link_pmtud : Handle → Link → Bool → (ℕ → ℕ → Answer) → Result × Link
check_link_pmtud knet_h link locked answer = elim (ipproto_overhead link) [
  | none ↦ (Result.failed, link)
  | some overhead ↦
      let s = start_search link overhead in
      if locked then search_loop max_probes knet_h overhead s answer else (Result.failed, s.link)
]
