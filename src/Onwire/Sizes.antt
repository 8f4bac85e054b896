-- ===== src/Onwire/Sizes.antt =====
-- The application MTU (libknet/onwire.c).
use native.Mathlib.Nat.{mod-eq-sub-div-mul}
use kronosnet.Base.{ℕ, zero, suc, ◌+◌, ◌-◌, ◌*◌, ◌/◌, ◌%◌, ◌^◌, ◌≤◌, ◌<◌, ◌≡◌, ap, ◌∙◌, arith}
use kronosnet.State.{Handle}
use kronosnet.Defrag.Layout.{div_slot, slot_div}
use kronosnet.Onwire.{
  size_add, size_sub, header_all_size, calc_data_outlen, align_down, calc_max_data_outlen,
}

mod_of : (m q r x : ℕ) → x ≡ q * m + r → r < m → x % m ≡ r
mod_of m q r x e h = ground (
  arith,
  mod-eq-sub-div-mul x m,
  ap (λ (t : ℕ). t * m) (div_slot m q x (omega arith) (omega arith)),
)

-- sizes as they occur: far below the range of size_t
pub record IsSmall (knet_h : Handle) : Type 0 where
  pub block : knet_h.sec_block_size < 2 ^ 16
  pub salt : knet_h.sec_salt_size < 2 ^ 16
  pub hash : knet_h.sec_hash_size < 2 ^ 16

-- without padding
plain_outlen :
    (knet_h : Handle) (n : ℕ)
    → IsSmall knet_h
    → knet_h.sec_block_size ≡ 0
    → n < 2 ^ 32
    → calc_data_outlen knet_h n ≡ n + knet_h.sec_salt_size + knet_h.sec_hash_size
unfolding calc_data_outlen
plain_outlen knet_h n small e h = ground arith

pub plain_max :
    (knet_h : Handle) (n : ℕ)
    → IsSmall knet_h
    → knet_h.sec_block_size ≡ 0
    → n < 2 ^ 32
    → header_all_size + knet_h.sec_salt_size + knet_h.sec_hash_size ≤ n
    → calc_max_data_outlen knet_h n
      ≡ n - (header_all_size + knet_h.sec_salt_size + knet_h.sec_hash_size)
unfolding calc_max_data_outlen
plain_max knet_h n small e h k = ground arith

-- with padding: what `q` blocks carry
padded_outlen :
    (knet_h : Handle) (n q r : ℕ)
    → IsSmall knet_h
    → n < 2 ^ 32
    → n ≡ q * knet_h.sec_block_size + r
    → r < knet_h.sec_block_size
    → calc_data_outlen knet_h n
      ≡ (q + 1) * knet_h.sec_block_size + knet_h.sec_salt_size + knet_h.sec_hash_size
unfolding calc_data_outlen
padded_outlen knet_h n q r small h e k = ground (arith, mod_of knet_h.sec_block_size q r n e k)

align_down_lem :
    (knet_h : Handle) (n q : ℕ)
    → IsSmall knet_h
    → n < 2 ^ 32
    → q * knet_h.sec_block_size + knet_h.sec_salt_size + knet_h.sec_hash_size ≤ n
    → n < (q + 1) * knet_h.sec_block_size + knet_h.sec_salt_size + knet_h.sec_hash_size
    → 0 < q * knet_h.sec_block_size
    → align_down knet_h n
      ≡ q * knet_h.sec_block_size - 1 + knet_h.sec_salt_size + knet_h.sec_hash_size
unfolding align_down
align_down_lem knet_h n q small h a b c =
    let crypto = knet_h.sec_salt_size + knet_h.sec_hash_size in
    let y = n - crypto in
    let left : size_sub n (size_add knet_h.sec_salt_size knet_h.sec_hash_size) ≡ y = omega arith in
    let rest : y % knet_h.sec_block_size ≡ y - q * knet_h.sec_block_size =
      mod_of knet_h.sec_block_size q (y - q * knet_h.sec_block_size) y (omega arith)
        (omega arith) in
    ap
      (λ (t : ℕ).
        size_add (size_sub t (size_add (t % knet_h.sec_block_size) 1))
          (size_add knet_h.sec_salt_size knet_h.sec_hash_size))
      left
    ∙ ap
        (λ (t : ℕ).
          size_add (size_sub y (size_add t 1)) (size_add knet_h.sec_salt_size knet_h.sec_hash_size))
        rest
    ∙ omega arith

pub padded_max :
    (knet_h : Handle) (n q : ℕ)
    → IsSmall knet_h
    → n < 2 ^ 32
    → q * knet_h.sec_block_size + knet_h.sec_salt_size + knet_h.sec_hash_size ≤ n
    → n < (q + 1) * knet_h.sec_block_size + knet_h.sec_salt_size + knet_h.sec_hash_size
    → header_all_size < q * knet_h.sec_block_size
    → calc_max_data_outlen knet_h n ≡ q * knet_h.sec_block_size - (header_all_size + 1)
unfolding calc_max_data_outlen
padded_max knet_h n q small h a b c =
    ground (arith, align_down_lem knet_h n q small h a b (omega arith))

-- `q` blocks less one byte fill `q` blocks, and one byte more takes another block.
block_edge :
    (knet_h : Handle) (app q : ℕ)
    → IsSmall knet_h
    → app + header_all_size + 1 ≡ q * knet_h.sec_block_size
    → q * knet_h.sec_block_size < 2 ^ 32
    → 0 < knet_h.sec_block_size
    → (calc_data_outlen knet_h (app + header_all_size)
        ≡ q * knet_h.sec_block_size + knet_h.sec_salt_size + knet_h.sec_hash_size)
      × (calc_data_outlen knet_h (app + header_all_size + 1)
          ≡ (q + 1) * knet_h.sec_block_size + knet_h.sec_salt_size + knet_h.sec_hash_size)
block_edge knet_h app zero small e h pos = absurd (omega arith)
block_edge knet_h app (suc q) small e h pos = (
  padded_outlen knet_h (app + header_all_size) q (knet_h.sec_block_size - 1) small (omega arith)
        (omega arith) (omega arith)
      ∙ omega arith,
  padded_outlen knet_h (app + header_all_size + 1) (suc q) 0 small (omega arith) (omega arith) pos,
)

-- The largest data size for the room on the wire, with a cipher that pads: data of that size with
-- the knet header fit, and one byte more does not. The room holds salt, hash and one or more whole blocks
-- that are larger than the header.
pub calc_max_data_outlen_padded :
    (knet_h : Handle) (room : ℕ)
    → IsSmall knet_h
    → room < 2 ^ 31
    → 0 < knet_h.sec_block_size
    → knet_h.sec_salt_size + knet_h.sec_hash_size ≤ room
    → header_all_size
      < (room - (knet_h.sec_salt_size + knet_h.sec_hash_size))
        / knet_h.sec_block_size
        * knet_h.sec_block_size
    → let app = calc_max_data_outlen knet_h room in
      (calc_data_outlen knet_h (app + header_all_size) ≤ room)
      × (room < calc_data_outlen knet_h (app + header_all_size + 1))
calc_max_data_outlen_padded knet_h room small h pos a b =
    let block = knet_h.sec_block_size in
    let crypto = knet_h.sec_salt_size + knet_h.sec_hash_size in
    let q = (room - crypto) / block in
    let (below, above) = slot_div block (room - crypto) pos in
    let max = padded_max knet_h room q small (omega arith) (omega arith) (omega arith) b in
    let (fits, over) =
      block_edge knet_h (calc_max_data_outlen knet_h room) q small (omega arith) (omega arith)
        pos in
    omega arith

-- The same without padding: the room is filled exactly.
pub calc_max_data_outlen_plain :
    (knet_h : Handle) (room : ℕ)
    → IsSmall knet_h
    → room < 2 ^ 31
    → knet_h.sec_block_size ≡ 0
    → header_all_size + knet_h.sec_salt_size + knet_h.sec_hash_size ≤ room
    → calc_data_outlen knet_h (calc_max_data_outlen knet_h room + header_all_size) ≡ room
calc_max_data_outlen_plain knet_h room small h e a = omega (
  arith,
  plain_max knet_h room small e (omega arith) a,
  plain_outlen knet_h (calc_max_data_outlen knet_h room + header_all_size) small e,
)
