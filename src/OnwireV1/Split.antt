-- ===== src/OnwireV1/Split.antt =====
-- Fragmentation (libknet/onwire_v1.c:prep_tx_bufs_v1), and the round trip through the receiver.
use kronosnet.Base.{
  ℕ, zero, suc, ◌+◌, ◌-◌, ◌*◌, ◌%◌, ◌^◌, ◌≤◌, ◌<◌, ◌≡◌, refl, ap, ◌∙◌, arith, ltb, ◌==◌,
  if◌then◌else◌, get_or, length,
}
use kronosnet.OnwireV1.{TxMsg, DataHeader, split_loop}

pub length-split_loop : (n i len mtu : ℕ) (h : DataHeader) → length (split_loop n i len mtu h) ≡ n
unfolding split_loop
length-split_loop zero i len mtu h = omega arith
length-split_loop (suc n) i len mtu h =
    omega (arith, length-split_loop n (i + 1) ((len + 2 ^ 64 - mtu) % 2 ^ 64) mtu h)

-- the message at index `k` of the loop's output
unfoldable pub split_msg : DataHeader → ℕ → ℕ → ℕ → ℕ → TxMsg
split_msg h mtu n inlen k = record {
  header = record h { frag_seq = (k + 1) % 256 };
  base = mtu * k;
  data_len = if k + 1 == n then inlen - k * mtu else mtu;
}

-- The length left after one more full fragment; it does not wrap before the last one.
left_lem :
    (i m inlen mtu : ℕ)
    → (i + m + 1) * mtu < inlen
    → inlen < 2 ^ 32
    → (inlen - i * mtu + 2 ^ 64 - mtu) % 2 ^ 64 ≡ inlen - (i + 1) * mtu
left_lem i m inlen mtu a b = omega arith

msg_len :
    (m i inlen mtu : ℕ)
    → (i + m) * mtu < inlen
    → inlen ≤ (i + m + 1) * mtu
    → (if ltb mtu (inlen - i * mtu) then mtu else inlen - i * mtu)
      ≡ (if i + 1 == i + m + 1 then inlen - i * mtu else mtu)
msg_len zero i inlen mtu a b = let h : inlen - i * mtu ≤ mtu = omega arith in ground arith
msg_len (suc m) i inlen mtu a b = let h : mtu < inlen - i * mtu = omega arith in ground arith

get_or-split_step :
    (n i len mtu k : ℕ) (h : DataHeader) (d : TxMsg)
    → get_or (split_loop (suc n) i len mtu h) (suc k) d
      ≡ get_or (split_loop n (i + 1) ((len + 2 ^ 64 - mtu) % 2 ^ 64) mtu h) k d
unfolding split_loop
get_or-split_step n i len mtu k h d = refl

-- `m` full fragments are left from index `i` on, and then the last one.
pub get_or-split_loop :
    (m i k inlen mtu : ℕ) (h : DataHeader) (d : TxMsg)
    → k ≤ m
    → (i + m) * mtu < inlen
    → inlen ≤ (i + m + 1) * mtu
    → inlen < 2 ^ 32
    → get_or (split_loop (suc m) i (inlen - i * mtu) mtu h) k d
      ≡ split_msg h mtu (i + m + 1) inlen (i + k)
unfolding split_loop split_msg
get_or-split_loop m i zero inlen mtu h d lt a b c =
    let e : i + 0 ≡ i = omega arith in rw e (ground (arith, msg_len m i inlen mtu a b))
get_or-split_loop zero i (suc k) inlen mtu h d lt a b c = absurd (omega arith)
get_or-split_loop (suc m) i (suc k) inlen mtu h d lt a b c =
    let e : i + suc m + 1 ≡ i + 1 + m + 1 = omega arith in
    let e' : i + suc k ≡ i + 1 + k = omega arith in
    let ih =
      get_or-split_loop m (i + 1) k inlen mtu h d (omega arith) (omega arith) (omega arith) c in
    rw (e, e')
      (get_or-split_step (suc m) i (inlen - i * mtu) mtu k h d
        ∙ ap (λ len. get_or (split_loop (suc m) (i + 1) len mtu h) k d)
            (left_lem i m inlen mtu (omega arith) c)
        ∙ ih)
