-- ===== src/OnwireV1.antt =====
-- libknet/onwire_v1.c and the packet structs of libknet/onwire.h: what is written to and read from
-- version 1 packets. Fields hold host values: htons and ntohs cancel. The payload union is the
-- record of the payload that the packet type selects. Checksums (a debug build) are left out.
pub mod Split
pub mod RoundTrip
mod Tests
pub mod Pings
use kronosnet.Base.{
  ℕ, zero, suc, ◌+◌, ◌-◌, ◌*◌, ◌/◌, ◌%◌, ◌^◌, Bool, true, false, Option, none, some, List, [], ◌∷◌,
  ltb, leb, ◌==◌, if◌then◌else◌, truthy,
}
use kronosnet.State.{Timespec, Link, Host, Handle}
use kronosnet.SeqNum.{seq_num_lookup}
use kronosnet.Defrag.{Fragment}

-- KNET_HEADER_TYPE_*
abbrev pub type_ping : ℕ
type_ping = 0x81

abbrev pub type_pong : ℕ
type_pong = 0x82

abbrev pub type_pmtud : ℕ
type_pmtud = 0x83

abbrev pub type_pmtud_reply : ℕ
type_pmtud_reply = 0x84

-- sizeof the packed structs: KNET_HEADER_ALL_SIZE, KNET_HEADER_SIZE, KNET_HEADER_PING_V1_SIZE,
-- KNET_HEADER_PMTUD_V1_SIZE, KNET_HEADER_DATA_V1_SIZE
abbrev pub header_all_size : ℕ
header_all_size = 26

abbrev pub header_size : ℕ
header_size = 6

abbrev pub header_ping_size : ℕ
header_ping_size = 26

abbrev pub header_pmtud_size : ℕ
header_pmtud_size = 9

abbrev pub header_data_size : ℕ
header_data_size = 14

pub record Header : Type 0 where
  pub kh_version : ℕ
  pub kh_type : ℕ
  pub kh_node : ℕ
  pub kh_max_ver : ℕ

pub record PingPacket : Type 0 where
  pub header : Header
  pub link : ℕ
  pub time : Timespec
  pub seq_num : ℕ
  pub timed : ℕ

pub record PmtudPacket : Type 0 where
  pub header : Header
  pub link : ℕ
  pub size : ℕ

pub record DataHeader : Type 0 where
  pub header : Header
  pub seq_num : ℕ
  pub compress : ℕ
  pub bcast : ℕ
  pub frag_num : ℕ
  pub frag_seq : ℕ
  pub channel : ℕ

-- The packet and its length, or `none` if the mutex cannot be taken.
unfoldable pub prep_ping_v1 : Handle → Link → ℕ → Timespec → ℕ → Bool → Option (PingPacket × ℕ)
prep_ping_v1 knet_h link onwire_ver now timed locked =
    if locked
    then some (
      record {
        header = record {
          kh_version = onwire_ver;
          kh_type = type_ping;
          kh_node = knet_h.host_id;
          kh_max_ver = knet_h.onwire_max_ver;
        };
        link = link.link_id;
        time = now;
        seq_num = knet_h.tx_seq_num;
        timed = timed;
      },
      header_ping_size,
    )
    else none

-- The reply is the ping itself with a new type and sender.
unfoldable pub prep_pong_v1 : Handle → PingPacket → PingPacket × ℕ
prep_pong_v1 knet_h inbuf = (
  record inbuf { header = record (inbuf.header) { kh_type = type_pong; kh_node = knet_h.host_id } },
  header_ping_size,
)

-- the untimed branch: whether the buffers are to be wiped, and the host with the number cached
unfoldable pub note_untimed : Host → ℕ → ℕ × Host
note_untimed host recv_seq_num =
    if recv_seq_num == host.untimed_rx_seq_num
    then (0, host)
    else (if truthy host.got_data
        then (0, record host { untimed_rx_seq_num = recv_seq_num; got_data = 0 })
        else (1, record host { untimed_rx_seq_num = recv_seq_num }))

unfoldable pub process_ping_v1 : Handle → Host → PingPacket → Host
process_ping_v1 knet_h host inbuf =
    if truthy inbuf.timed
    then (if inbuf.seq_num == host.timed_rx_seq_num
        then host
        else (let noted = record host { timed_rx_seq_num = inbuf.seq_num } in
            if inbuf.seq_num == 0 then (seq_num_lookup knet_h noted 0 0 1).1 else noted))
    else (let (wipe_bufs, noted) = note_untimed host inbuf.seq_num in
        (seq_num_lookup knet_h noted inbuf.seq_num 0 wipe_bufs).1)

unfoldable pub process_pong_v1 : PingPacket → Timespec
process_pong_v1 inbuf = inbuf.time

unfoldable pub prep_pmtud_v1 : Handle → Link → ℕ → ℕ → PmtudPacket
prep_pmtud_v1 knet_h link onwire_ver onwire_len = record {
  header = record {
    kh_version = onwire_ver;
    kh_type = type_pmtud;
    kh_node = knet_h.host_id;
    kh_max_ver = knet_h.onwire_max_ver;
  };
  link = link.link_id;
  size = onwire_len % 2 ^ 16;
}

unfoldable pub prep_pmtud_reply_v1 : Handle → PmtudPacket → PmtudPacket × ℕ
prep_pmtud_reply_v1 knet_h inbuf = (
  record inbuf {
    header = record (inbuf.header) { kh_type = type_pmtud_reply; kh_node = knet_h.host_id };
  },
  header_pmtud_size,
)

-- The value stored in `last_recv_mtu` of the link.
unfoldable pub process_pmtud_reply_v1 : PmtudPacket → ℕ
process_pmtud_reply_v1 inbuf = inbuf.size

-- One message of `iov_out`: the header that is sent, where its data starts in the user's buffer,
-- and how long they are.
pub record TxMsg : Type 0 where
  pub header : DataHeader
  pub base : ℕ
  pub data_len : ℕ

-- ceil((float)inlen / mtu), stored in a uint8_t. The float division is exact enough: the quotient
-- of two numbers up to 2 ^ 16 is an integer or at least 2 ^ -16 of itself away from one.
unfoldable pub frag_count : ℕ → ℕ → ℕ
frag_count inlen mtu = (inlen + (mtu - 1)) / mtu % 256

-- the while loop over `frag_idx`, with the rounds left; `frag_len` is a size_t and wraps
unfoldable pub split_loop : ℕ → ℕ → ℕ → ℕ → DataHeader → List TxMsg
split_loop zero frag_idx frag_len mtu inbuf = []
split_loop (suc n) frag_idx frag_len mtu inbuf =
    record {
      header = record inbuf { frag_seq = (frag_idx + 1) % 256 };
      base = mtu * frag_idx;
      data_len = if ltb mtu frag_len then mtu else frag_len;
    }
    ∷ split_loop n (frag_idx + 1) ((frag_len + 2 ^ 64 - mtu) % 2 ^ 64) mtu inbuf

-- the header that is common to all fragments
unfoldable pub data_header : Handle → ℕ → ℕ → ℕ → ℕ → ℕ → Bool → DataHeader
data_header knet_h inlen mtu tx_seq_num channel bcast data_compressed = record {
  header = record {
    kh_version = 1;
    kh_type = 0;
    kh_node = knet_h.host_id;
    kh_max_ver = knet_h.onwire_max_ver;
  };
  seq_num = tx_seq_num;
  compress = if data_compressed then knet_h.compress_model % 256 else 0;
  bcast = bcast;
  frag_num = frag_count inlen mtu;
  frag_seq = 0;
  channel = channel;
}

-- The messages, of which there are `*msgs_to_send`.
unfoldable pub prep_tx_bufs_v1 : Handle → ℕ → ℕ → ℕ → ℕ → ℕ → Bool → List TxMsg
prep_tx_bufs_v1 knet_h inlen mtu tx_seq_num channel bcast data_compressed =
    let inbuf = data_header knet_h inlen mtu tx_seq_num channel bcast data_compressed in
    if ltb 1 inbuf.frag_num
    then split_loop inbuf.frag_num 0 inlen mtu inbuf
    else (if inbuf.frag_num == 0
        then []
        else record { header = inbuf; base = 0; data_len = inlen } ∷ [])

-- get_data_header_info_v1 and get_data_v1 as the receiver uses them for a fragment of `packet`
unfoldable pub received : (ℕ → ℕ) → TxMsg → Fragment
received packet msg = record {
  payload = λ j. packet (msg.base + j);
  len = msg.data_len;
  frags = msg.header.frag_num;
  frag_seq = msg.header.frag_seq;
}
