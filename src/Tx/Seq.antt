-- ===== src/Tx/Seq.antt =====
-- The sequence numbers of sent packets (libknet/threads_tx.c:_get_tx_seq_num).
use kronosnet.Base.{ℕ, zero, suc, ◌+◌, ◌%◌, ◌≡◌, ◌<◌, refl, arith}
use kronosnet.State.{Handle}
use kronosnet.Tx.{get_tx_seq_num}

-- the handle after `n` packets
abbrev pub after : ℕ → Handle → Handle
after zero knet_h = knet_h
after (suc n) knet_h = let (seq, pinged, knet_h') = get_tx_seq_num (after n knet_h) in knet_h'

get_tx_seq_num-step :
    (knet_h : Handle)
    → knet_h.tx_seq_num < 65536
    → let (seq, pinged, knet_h') = get_tx_seq_num knet_h in
      (knet_h'.tx_seq_num ≡ seq) × (seq ≡ (knet_h.tx_seq_num + 65535) % 65535 + 1)
unfolding get_tx_seq_num
get_tx_seq_num-step knet_h h = (refl, ground arith)

after-step :
    (n : ℕ) (knet_h : Handle)
    → knet_h.tx_seq_num < 65536
    → ((after n knet_h).tx_seq_num < 65536)
      × ((get_tx_seq_num (after n knet_h)).0 ≡ (knet_h.tx_seq_num + 65535 + n) % 65535 + 1)
after-step zero knet_h h = (h, omega (arith, (get_tx_seq_num-step knet_h h).1))
after-step (suc n) knet_h h =
    let (bound, at) = after-step n knet_h h in
    let (kept, _) = get_tx_seq_num-step (after n knet_h) bound in
    let bound' : (after (suc n) knet_h).tx_seq_num < 65536 = omega (arith, kept) in
    (bound', omega (arith, kept, (get_tx_seq_num-step (after (suc n) knet_h) bound').1))

-- The `n + 1`st packet of a node has the number `n` steps after the next one, in a circle of the 65535
-- numbers from 1 on; 0 is never used.
pub get_tx_seq_num-after :
    (n : ℕ) (knet_h : Handle)
    → knet_h.tx_seq_num < 65536
    → (get_tx_seq_num (after n knet_h)).0 ≡ (knet_h.tx_seq_num + 65535 + n) % 65535 + 1
get_tx_seq_num-after n knet_h h = (after-step n knet_h h).1
