-- ===== src/Lib.antt =====
-- kronosnet (libknet): a model of the library's core in C, and theorems about it.
--
-- libknet moves data packets between the nodes of a cluster over several redundant links per node.
-- Its threads share one handle (struct knet_handle): TX reads packets from the application, cuts them
-- in fragments and sends them on the active links of each destination; RX recognises duplicates,
-- reassembles fragments and delivers; the heartbeat thread pings each link and brings it up or down;
-- the PMTUd thread measures the MTU; the dst_link thread recomputes which links of a host are active.
--
-- The files, and the code that each is about:
--   State      the structs of libknet/internals.h and the status structs of libknet/libknet.h, with the
--              fields that the modelled functions read or write
--   SeqNum     libknet/host.c: the circular buffers of sequence numbers (_seq_num_lookup, _seq_num_set,
--              _clear_cbuffers, _reclaim_old_defrag_bufs); SeqNum/Refine is about the
--              order in which libknet/threads_rx.c:_process_data calls the first two
--   Defrag     libknet/threads_rx.c: _find_pckt_defrag_buf, _realloc_defrag_buffers and _pckt_defrag,
--              which stores a fragment and hands over the packet when the last one is in
--   OnwireV1   libknet/onwire_v1.c and onwire.h: pings, pongs, PMTUd packets, and prep_tx_bufs_v1,
--              which cuts a packet in fragments
--   Onwire     libknet/onwire.c and host.c: packet sizes with and without encryption, and the agreement
--              of the nodes on an on-wire version
--   Acl        libknet/links_acl_ip.c, with sockaddr_len and copy_sockaddr of libknet/netutils.c: the
--              access lists of a link
--   DstCache   libknet/host.c:_host_dstcache_update_sync: active links and reachability of a host
--   Tx         libknet/threads_tx.c: _get_tx_seq_num, and _dispatch_to_links, which sends on the links
--   Dests      libknet/threads_tx.c:_get_data_dests: the hosts that a packet goes to
--   Links      libknet/links.c:_link_updown: what a change of a link's state does
--   Heartbeat  libknet/threads_heartbeat.c: pongs and the latency average, pings and the timeout of a
--              link, the adjustment of the timeouts; Heartbeat/Rounds is about the walks of the thread
--   Pmtud      libknet/threads_pmtud.c: the search for the MTU of a link; Pmtud/Round is about what is
--              kept of it, a round of the thread over all links, and the deadline for a reply
--   Delivery   libknet/threads_rx.c: _process_data and what it calls, from after the decryption of a
--              data packet until the application has it
--   Hosts      libknet/host.c: knet_host_add, knet_host_remove, the list of hosts, the policy
--   Timers     libknet/threads_common.c:knet_handle_set_threads_timer_res, and knet_link_set_ping_timers
--              and knet_link_set_pong_count of libknet/links.c
--   LinkConfig libknet/links.c: knet_link_set_config, knet_link_clear_config and knet_link_set_enable;
--              LinkConfig/Ready puts the calls for hosts and links and the heartbeat in any order
--   Crypto     libknet/crypto.c: encryption and decryption with the configurations of a handle
--              (crypto_encrypt_and_sign, crypto_authenticate_and_decrypt); Crypto/Config: the calls
--              that load, unload and choose them, with crypto_init and crypto_try_new_crypto_instance
--   Compress   libknet/compress.c: knet_handle_compress, the loading and the test of a plug-in, and
--              decompress
--   Rx         libknet/threads_rx.c:_parse_recv_from_links and what it calls, from the arrival of a
--              packet to its handling; Rx/Replies: process_ping and send_pong of
--              libknet/threads_heartbeat.c, send_pmtud_reply of libknet/threads_pmtud.c
--   Send       libknet/threads_tx.c:_parse_recv_from_sock and what it calls, from the reading of a packet of
--              the application to its sending, and knet_send_sync
--   Shrink     libknet/threads_rx.c:_shrink_defrag_buffers, which halves the reassembly buffers
--   HandleApi  libknet/handle_api.c: the channels to the application (knet_handle_add_datafd,
--              knet_handle_remove_datafd, the getters); HandleApi/Settings: settings of the handle
--   Base       Boolean tests, C arrays and lists, shared by all; Samples: states for the tests
-- How the parts meet: OnwireV1 makes the fragments that Defrag takes, Defrag and OnwireV1 ask SeqNum,
-- and Tx sends to the hosts that Dests found on the links that DstCache chose. Heartbeat and Delivery
-- bring links up and down by Links; Pmtud measures with the sizes of Onwire; Delivery composes SeqNum,
-- Defrag and the writing to the application as _process_data does. Rx composes Crypto, the agreement
-- on a version of Onwire, Delivery, the pongs of Heartbeat and its own replies as _parse_recv_from_links
-- does; Send composes Dests, the fragments of OnwireV1, Crypto and Tx as _parse_recv_from_sock does,
-- and Send/Readable follows a packet to the decryption of Rx. Heartbeat/Run puts pongs, rounds and
-- adjustments of a link in any order.
--
-- A C array is a function from the index, so that a write past its bound shows as a change there;
-- where the code reads sockfd or the links of a host at an index that is not tested, divides by zero or
-- follows a null pointer, the result says so (`none`, `fault` or `crashed`). Integers are natural
-- numbers, with the wrap-around of their width written out (`% 65536` for seq_num_t). A chain of heap
-- objects is a list. Pointers to hosts and links are their ids. What comes from outside (the clock,
-- malloc and realloc, the answers of sockets, the bytes received) is an argument; a callback is
-- returned as what it would be called with, and calls of other threads by _link_updown are returned as
-- effects, in their order. Mutexes and read-write locks are taken as held: each
-- function is one step on the state that it locks; where a failed lock changes what is done, whether it
-- is taken is an argument. The mutex of a link's statistics is taken as held while
-- packets of the application are sent; a failure there would pass the link over.
--
-- Loops are structural recursion on the number of rounds left, which is the bound that the source
-- loops to; the loops over socket answers are recursion on the list of answers, or on the number of
-- calls that the transport repeats. The search for the MTU runs on the 30 attempts of its failsafe,
-- which is the bound of the source. No other fuel is used.
--
-- Not modelled: the encryption plug-ins (libknet/crypto_nss.c, crypto_openssl.c, crypto_gcrypt.c),
-- whose functions are arguments of Crypto, and those for compression (compress_*.c), since both call
-- third parties; the transports and their sockets (libknet/transport*.c), with the loops of the
-- threads that wait for them and _handle_recv_from_links; the reading of packets from the application
-- (libknet/threads_tx.c: _handle_send_to_links); the other calls that configure links
-- (libknet/links.c); the set-up and tear-down of a handle, its statistics and knet_handle_setfwd
-- (handle.c, handle_api.c), which are about threads and memory; logging, and the separate library
-- libnozzle.
pub mod Base
pub mod State
mod Samples
pub mod SeqNum
pub mod Defrag
pub mod OnwireV1
pub mod Onwire
pub mod Acl
pub mod DstCache
pub mod Tx
pub mod Dests
pub mod Links
pub mod Heartbeat
pub mod Pmtud
pub mod Delivery
pub mod Hosts
pub mod Timers
pub mod LinkConfig
pub mod Crypto
pub mod Compress
pub mod Shrink
pub mod HandleApi
pub mod Rx
pub mod Send
