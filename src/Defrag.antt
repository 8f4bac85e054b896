-- ===== src/Defrag.antt =====
-- libknet/threads_rx.c: the reassembly of fragmented packets. `none` as the outcome of a function
-- stands for an access outside an array. Time, `realloc` and the received bytes are arguments.
pub mod Marks
pub mod Layout
pub mod Fragments
pub mod Assemble
pub mod Reassembly
pub mod Pool
mod Tests
use kronosnet.Base.{
  ℕ, zero, suc, ◌+◌, ◌-◌, ◌*◌, ◌/◌, ◌%◌, ◌^◌, Bool, true, false, ◌&&◌, ◌||◌, Option, none, some,
  ltb, leb, ◌==◌, if◌then◌else◌, truthy, update, fill, move,
}
use kronosnet.State.{Timespec, DefragBuf, Host, Handle, zero_defrag_buf}
use kronosnet.SeqNum.{seq_num_lookup, seq_num_set, clear_defrag_bufs_stats}

-- KNET_MAX_PACKET_SIZE, KNET_DATABUFSIZE and PCKT_FRAG_MAX
abbrev pub max_packet_size : ℕ
max_packet_size = 65536

abbrev pub databuf_size : ℕ
databuf_size = 65562

abbrev pub pckt_frag_max : ℕ
pckt_frag_max = 255

-- `_timecmp(a, b) < 0`
unfoldable pub time_lt : Timespec → Timespec → Bool
time_lt a b = if a.tv_sec == b.tv_sec then ltb a.tv_nsec b.tv_nsec else ltb a.tv_sec b.tv_sec

-- the first loop of `_find_pckt_defrag_buf`, with `n` rounds left at index `i`
unfoldable pub find_seq : ℕ → ℕ → ℕ → (ℕ → DefragBuf) → Option ℕ
find_seq zero i seq bufs = none
find_seq (suc n) i seq bufs =
    let rest = find_seq n (i + 1) seq bufs in
    if truthy (bufs i).in_use && (bufs i).pckt_seq == seq then some i else rest

-- the second loop: a free buffer
unfoldable pub find_free : ℕ → ℕ → (ℕ → DefragBuf) → Option ℕ
find_free zero i bufs = none
find_free (suc n) i bufs =
    let rest = find_free n (i + 1) bufs in if truthy (bufs i).in_use then rest else some i

-- the third loop: the buffer that was updated first
unfoldable pub find_oldest : ℕ → ℕ → ℕ → (ℕ → DefragBuf) → ℕ
find_oldest zero i oldest bufs = oldest
find_oldest (suc n) i oldest bufs =
    find_oldest n (i + 1)
      (if time_lt (bufs i).last_update (bufs oldest).last_update then i else oldest) bufs

-- `_realloc_defrag_buffers`; `granted` is whether realloc returns memory.
unfoldable pub realloc_defrag_buffers : Handle → Host → Bool → ℕ × Host
realloc_defrag_buffers knet_h host granted =
    if ltb host.allocated_defrag_bufs knet_h.defrag_bufs_max && granted
    then (
      1,
      clear_defrag_bufs_stats (record host {
        defrag_bufs =
            fill host.defrag_bufs host.allocated_defrag_bufs host.allocated_defrag_bufs
              zero_defrag_buf;
        allocated_defrag_bufs = host.allocated_defrag_bufs * 2 % 2 ^ 16;
      }),
    )
    else (0, host)

-- what `_find_pckt_defrag_buf` does for a packet that has no buffer and was not seen before
unfoldable pub new_defrag_buf : Handle → Host → Bool → ℕ × Host
new_defrag_buf knet_h host granted =
    elim (find_free host.allocated_defrag_bufs 0 host.defrag_bufs) [
      | some i ↦ (i, host)
      | none ↦
          let (grown, host') = realloc_defrag_buffers knet_h host granted in
          if truthy grown
          then (host.allocated_defrag_bufs + 1, host')
          else let oldest = find_oldest host'.allocated_defrag_bufs 0 0 host'.defrag_bufs in
            (
              oldest,
              record host' {
                defrag_bufs =
                    update host'.defrag_bufs oldest
                      (record (host'.defrag_bufs oldest) { in_use = 0 });
              },
            )
    ]

-- The index, or `none` for -1 with errno ETIME.
unfoldable pub find_pckt_defrag_buf : Handle → Host → ℕ → Bool → Option ℕ × Host
find_pckt_defrag_buf knet_h host seq granted =
    elim (find_seq host.allocated_defrag_bufs 0 seq host.defrag_bufs) [
      | some i ↦ (some i, host)
      | none ↦
          let (fresh, c) = seq_num_lookup knet_h host seq 1 0 in
          if truthy fresh
          then (let (i, host') = new_defrag_buf knet_h (seq_num_set c seq 1) granted in
              (some i, host'))
          else (none, c)
    ]

-- A fragment: its bytes and length, `frags` and `frag_seq` of its header.
pub record Fragment : Type 0 where
  pub payload : ℕ → ℕ
  pub len : ℕ
  pub frags : ℕ
  pub frag_seq : ℕ

-- the branch for the last fragment, and the other one
unfoldable pub note_size : DefragBuf → Fragment → Option DefragBuf
note_size b f =
    if f.frag_seq == f.frags
    then (if truthy b.frag_size
        then some (record b { last_frag_size = f.len })
        else (if leb f.len max_packet_size
            then some (record b {
              buf = move b.buf (max_packet_size - f.len) f.payload 0 f.len;
              last_first = 1;
              last_frag_size = f.len;
            })
            else none))
    else some (record b { frag_size = f.len })

-- the copy to the offset of the fragment, when that is known
unfoldable pub place : DefragBuf → Fragment → Option DefragBuf
place b f =
    if truthy b.frag_size
    then (if ltb 0 f.frag_seq && leb ((f.frag_seq - 1) * b.frag_size + f.len) databuf_size
        then some (record b { buf = move b.buf ((f.frag_seq - 1) * b.frag_size) f.payload 0 f.len })
        else none)
    else some b

-- moving the last fragment into place if it came first
unfoldable pub restore_last : DefragBuf → ℕ → Option DefragBuf
restore_last b frags =
    if truthy b.last_first
    then (if leb ((frags - 1) * b.frag_size + b.last_frag_size) databuf_size
          && leb b.last_frag_size max_packet_size
        then some (record b {
          buf =
              move b.buf ((frags - 1) * b.frag_size) b.buf (max_packet_size - b.last_frag_size)
                b.last_frag_size;
        })
        else none)
    else some b

-- What is handed back: the packet's length and bytes once it is complete (`return 0`), else nothing
-- (`return 1`).
abbrev pub Packet : Type 0
Packet = ℕ × (ℕ → ℕ)

unfoldable pub finish : DefragBuf → ℕ → Option (DefragBuf × Option Packet)
finish b frags = elim (restore_last b frags) [
  | none ↦ none
  | some c ↦
      let total = (frags - 1) * c.frag_size + c.last_frag_size in
      if leb total databuf_size then some (record c { in_use = 0 }, some (total, c.buf)) else none
]

-- after the bytes are stored
unfoldable pub count_fragment : DefragBuf → Fragment → Option (DefragBuf × Option Packet)
count_fragment b f =
    let c = record b {
      frag_recv = (b.frag_recv + 1) % 256;
      frag_map = update b.frag_map f.frag_seq 1;
    } in
    let complete = finish c f.frags in if c.frag_recv == f.frags then complete else some (c, none)

-- `_pckt_defrag` from the test of `frag_map` on
unfoldable pub add_fragment : DefragBuf → Fragment → Option (DefragBuf × Option Packet)
add_fragment b f =
    if leb pckt_frag_max f.frag_seq
    then none
    else (if truthy (b.frag_map f.frag_seq) then some (b, none) else elim (note_size b f) [
      | none ↦ none
      | some c ↦ elim (place c f) [ none ↦ none | some d ↦ count_fragment d f ]
    ])

-- a buffer that is not in use is cleaned and claimed; the timestamp is renewed
unfoldable pub claim : DefragBuf → ℕ → Timespec → DefragBuf
claim b seq now =
    let c = if truthy b.in_use then b else record zero_defrag_buf { in_use = 1; pckt_seq = seq } in
    record c { last_update = now }

unfoldable pub pckt_defrag :
    Handle → Host → ℕ → Fragment → Timespec → Bool → Option (Host × Option Packet)
pckt_defrag knet_h host seq f now granted =
    let (found, host') = find_pckt_defrag_buf knet_h host seq granted in
    elim found [
      | none ↦ some (host', none)
      | some i ↦
          if ltb i host'.allocated_defrag_bufs
          then elim (add_fragment (claim (host'.defrag_bufs i) seq now) f) [
            | none ↦ none
            | some (b, out) ↦
                some (record host' { defrag_bufs = update host'.defrag_bufs i b }, out)
          ]
          else none
    ]
