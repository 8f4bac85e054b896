-- ===== src/Crypto/Rekey.antt =====
-- What one node encrypts, another decrypts as long as it has the key loaded (libknet/crypto.c), also
-- while the nodes change from one key to the next.
use kronosnet.Base.{
  ℕ, suc, ◌+◌, ◌≤◌, ◌≡◌, inl, inr, Bool, true, false, ◌||◌, none, some, List, arith, ◌==◌,
  if◌then◌else◌, truthy, Bool-cases, Option-cases,
}
use kronosnet.State.{CryptoInstance, Handle}
use kronosnet.Crypto.{
  Ops, Crypted, try_in_use, try_others, authenticate_and_decrypt, encrypt_and_sign,
}
use kronosnet.Crypto.Keyed.{IsKeyed}

-- What is expected of an authenticated cipher: with the same key it gives back what was encrypted, and
-- it refuses what was encrypted with another.
pub record IsCipher (ops : Ops) : Type 0 where
  pub opens :
      (i j : CryptoInstance) (m c : List ℕ)
      → ops.crypt i m ≡ some c
      → (i.key == j.key) ≡ true
      → ops.decrypt j c ≡ some m
  pub rejects :
      (i j : CryptoInstance) (m c : List ℕ)
      → ops.crypt i m ≡ some c
      → (i.key == j.key) ≡ false
      → ops.decrypt j c ≡ none

-- whether a configuration is loaded and has the key
abbrev pub has_key : Handle → ℕ → ℕ → Bool
has_key h key n = elim (h.crypto_instance n) [ none ↦ false | some inst ↦ key == inst.key ]

decrypt_lem :
    (ops : Ops) (i j : CryptoInstance) (m c : List ℕ)
    → IsCipher ops
    → ops.crypt i m ≡ some c
    → ops.decrypt j c ≡ (if i.key == j.key then some m else none)
decrypt_lem ops i j m c cipher e = elim (Bool-cases (i.key == j.key)) [
  | inl same ↦ rw (same) (cipher.opens i j m c e same)
  | inr other ↦ rw (other) (cipher.rejects i j m c e other)
]

-- what trying a configuration comes to
abbrev attempt : Handle → ℕ → List ℕ → ℕ → Crypted → Crypted
attempt h key m n rest = if has_key h key n then Crypted.done m else rest

try_others-attempt :
    (ops : Ops) (h : Handle) (i : CryptoInstance) (m c : List ℕ) (n k : ℕ)
    → IsCipher ops
    → ops.crypt i m ≡ some c
    → try_others ops h c (suc n) k ≡ (
        if k == h.crypto_in_use_config
        then try_others ops h c n (k + 1)
        else attempt h i.key m k (try_others ops h c n (k + 1)))
unfolding try_others
try_others-attempt ops h i m c n k cipher e = elim (Option-cases (h.crypto_instance k)) [
  | inl gone ↦ rw (gone) (ground arith)
  | inr (j, known) ↦ rw (known) (ground (arith, decrypt_lem ops i j m c cipher e))
]

try_in_use-attempt :
    (ops : Ops) (h : Handle) (i : CryptoInstance) (m c : List ℕ)
    → IsCipher ops
    → IsKeyed h
    → ops.crypt i m ≡ some c
    → try_in_use ops h c ≡ (
        if truthy h.crypto_in_use_config
        then attempt h i.key m h.crypto_in_use_config Crypted.failed
        else Crypted.failed)
unfolding try_in_use
try_in_use-attempt ops h i m c cipher (inl (off, block, hash, salt)) e = ground (arith, off)
try_in_use-attempt ops h i m c cipher (inr (j, low, high, known, block, hash, salt)) e =
    let tried = decrypt_lem ops i j m c cipher e in rw (known) (ground (arith, tried))

all-attempts :
    (ops : Ops) (r : Handle) (key : ℕ) (m c : List ℕ)
    → r.crypto_in_use_config ≤ 2
    → try_in_use ops r c ≡ (
        if truthy r.crypto_in_use_config
        then attempt r key m r.crypto_in_use_config Crypted.failed
        else Crypted.failed)
    → try_others ops r c 2 1 ≡ (
        if 1 == r.crypto_in_use_config
        then try_others ops r c 1 2
        else attempt r key m 1 (try_others ops r c 1 2))
    → try_others ops r c 1 2
      ≡ (if 2 == r.crypto_in_use_config then Crypted.failed else attempt r key m 2 Crypted.failed)
    → authenticate_and_decrypt ops r c
      ≡ (if has_key r key 1 || has_key r key 2 then Crypted.done m else Crypted.failed)
unfolding authenticate_and_decrypt
all-attempts ops r key m c le first one two = ground (arith, first, one, two)

in_use-le : (r : Handle) → IsKeyed r → r.crypto_in_use_config ≤ 2
in_use-le r (inl (off, block, hash, salt)) = omega (arith, off)
in_use-le r (inr (j, low, high, known, block, hash, salt)) = high

-- What node `s` encrypts with the configuration it uses, node `r` decrypts to the same if one of its
-- configurations has the key, be it in use or not, and refuses if none has.
pub decrypt-encrypt :
    (ops : Ops) (s r : Handle) (i : CryptoInstance) (m c : List ℕ)
    → IsCipher ops
    → IsKeyed r
    → s.crypto_instance s.crypto_in_use_config ≡ some i
    → encrypt_and_sign ops s m ≡ Crypted.done c
    → authenticate_and_decrypt ops r c
      ≡ (if has_key r i.key 1 || has_key r i.key 2 then Crypted.done m else Crypted.failed)
unfolding encrypt_and_sign
decrypt-encrypt ops s r i m c cipher keyed known e =
    let made : ops.crypt i m ≡ some c = ground (arith, known, e) in
    all-attempts ops r i.key m c (in_use-le r keyed)
      (try_in_use-attempt ops r i m c cipher keyed made)
      (try_others-attempt ops r i m c 1 1 cipher made)
      (unfold try_others in try_others-attempt ops r i m c 0 2 cipher made)
