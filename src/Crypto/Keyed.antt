-- ===== src/Crypto/Keyed.antt =====
-- The configuration in use is always loaded, and the sizes of the handle are its own (libknet/crypto.c).
use kronosnet.Base.{
  ℕ, zero, suc, ◌+◌, ◌≤◌, ◌≡◌, ◌≢◌, ◌⊎◌, inl, inr, refl, false, ◌&&◌, ◌||◌, not, Option, none, some,
  List, [], ◌∷◌, arith, ltb, ◌==◌, truthy, update, Bool-cases, Option-cases,
}
use kronosnet.State.{CryptoInstance, Handle}
use kronosnet.Crypto.{
  Ops, Crypted, is_loaded, max_crypto_instances, take_sizes, use_config, try_in_use, try_others,
  authenticate_and_decrypt,
}
use kronosnet.Crypto.Config.{
  CryptoConfig, CryptoEnv, get_model, try_new, crypto_init, fini_config, crypto_fini,
  crypto_set_config, crypto_use_config, rx_clear_traffic, is_none,
}

abbrev pub IsKeyed : Handle → Type 0
IsKeyed h =
    (h.crypto_in_use_config ≡ 0)
      × (h.sec_block_size ≡ 0)
      × (h.sec_hash_size ≡ 0)
      × (h.sec_salt_size ≡ 0)
    ⊎ (inst : CryptoInstance) × (1 ≤ h.crypto_in_use_config)
      × (h.crypto_in_use_config ≤ 2)
      × (h.crypto_instance h.crypto_in_use_config ≡ some inst)
      × (h.sec_block_size ≡ inst.sec_block_size)
      × (h.sec_hash_size ≡ inst.sec_hash_size)
      × (h.sec_salt_size ≡ inst.sec_salt_size)

use_config-IsKeyed : (h : Handle) (n : ℕ) → n ≤ 2 → IsKeyed h → IsKeyed (use_config h n).1
unfolding use_config take_sizes
use_config-IsKeyed h n le k = elim (Bool-cases (n == 0)) [
  | inl off ↦ rw (off) (inl (ground (arith, off), refl, refl, refl))
  | inr on ↦ elim (Option-cases (h.crypto_instance n)) [
    | inl gone ↦ rw (is_loaded, gone, on) k
    | inr (inst, known) ↦
        rw (is_loaded, known, on) (inr (inst, ground (arith, on), le, known, refl, refl, refl))
  ]
]

-- a configuration that is not in use
put_slot-IsKeyed :
    (h : Handle) (n : ℕ) (slot : Option CryptoInstance)
    → (h.crypto_in_use_config == n) ≡ false
    → IsKeyed h
    → IsKeyed (record h { crypto_instance = update h.crypto_instance n slot })
put_slot-IsKeyed h n slot apart (inl off) = inl off
put_slot-IsKeyed h n slot apart (inr (inst, low, high, known, block, hash, salt)) =
    inr (inst, low, high, rw (apart) known, block, hash, salt)

crypto_init-IsKeyed :
    (env : CryptoEnv) (h : Handle) (cfg : CryptoConfig) (n : ℕ)
    → (h.crypto_in_use_config == n) ≡ false
    → IsKeyed h
    → IsKeyed (crypto_init env h cfg n).1
unfolding crypto_init
crypto_init-IsKeyed env h cfg n apart k =
    elim (Option-cases (get_model env.modules cfg.crypto_model 0)) [
      | inl unknown ↦ rw (crypto_init, unknown) k
      | inr ((model, built_in), known) ↦
          elim (Bool-cases
            (built_in == 0 || truthy env.shlib_locked || truthy env.load_err || not env.granted)) [
              | inl bad ↦ rw (crypto_init, known, bad) k
              | inr good ↦ elim (Option-cases (env.init model cfg)) [
                | inl failed ↦ rw (crypto_init, known, good, failed) k
                | inr (inst, made) ↦
                    let new : CryptoInstance = record inst { model = model } in
                    elim (Bool-cases (try_new env.ops new)) [
                      | inr broken ↦ rw (crypto_init, known, good, made, broken) k
                      | inl works ↦ elim (Bool-cases (is_loaded h n)) [
                        | inl there ↦
                            rw (crypto_init, known, good, made, works, there, apart)
                              (put_slot-IsKeyed h n (some new) apart k)
                        | inr free ↦
                            rw (crypto_init, known, good, made, works, free)
                              (put_slot-IsKeyed h n (some new) apart k)
                      ]
                    ]
              ]
            ]
    ]

crypto_set_config-IsKeyed :
    (env : CryptoEnv) (h : Handle) (cfg : CryptoConfig) (n : ℕ)
    → IsKeyed h
    → IsKeyed (crypto_set_config env h cfg n).1
unfolding crypto_set_config crypto_fini fini_config
crypto_set_config-IsKeyed env h cfg n k =
    elim (Bool-cases (ltb n 1 || ltb max_crypto_instances n)) [
      | inl bad ↦ rw (bad) k
      | inr a ↦ elim (Bool-cases (truthy env.locked)) [
        | inl bad ↦ rw (a, bad) k
        | inr b ↦ elim (Bool-cases (h.crypto_in_use_config == n)) [
          | inl bad ↦ rw (a, b, bad) k
          | inr apart ↦
              elim (Bool-cases (
                is_none cfg.crypto_model
                || is_none cfg.crypto_cipher_type && is_none cfg.crypto_hash_type)) [
                  | inl off ↦ elim (Bool-cases (truthy env.shlib_locked)) [
                    | inl bad ↦ rw (a, b, apart, off, bad) k
                    | inr c ↦ rw (a, b, apart, off, c) (put_slot-IsKeyed h n none apart k)
                  ]
                  | inr on ↦
                      elim (Bool-cases
                        (ltb cfg.private_key_len 128 || ltb 4096 cfg.private_key_len)) [
                          | inl bad ↦ rw (a, b, apart, on, bad) k
                          | inr c ↦ elim (Bool-cases (crypto_init env h cfg n).0) [
                            | inl e ↦
                                rw (a, b, apart, on, c, e) (crypto_init-IsKeyed env h cfg n apart k)
                            | inr e ↦
                                rw (a, b, apart, on, c, e) (crypto_init-IsKeyed env h cfg n apart k)
                          ]
                        ]
                ]
        ]
      ]
    ]

crypto_use_config-IsKeyed :
    (h : Handle) (n locked : ℕ) → IsKeyed h → IsKeyed (crypto_use_config h n locked).1
unfolding crypto_use_config
crypto_use_config-IsKeyed h n locked k = elim (Bool-cases (ltb max_crypto_instances n)) [
  | inl bad ↦ rw (bad) k
  | inr a ↦ elim (Bool-cases (truthy locked)) [
    | inl bad ↦ rw (a, bad) k
    | inr b ↦ rw (a, b) (use_config-IsKeyed h n (ground (arith, a)) k)
  ]
]

rx_clear_traffic-IsKeyed :
    (h : Handle) (value locked : ℕ) → IsKeyed h → IsKeyed (rx_clear_traffic h value locked).1
unfolding rx_clear_traffic
rx_clear_traffic-IsKeyed h value locked k = elim (Bool-cases (ltb 1 value)) [
  | inl bad ↦ rw (bad) k
  | inr a ↦ elim (Bool-cases (truthy locked)) [ inl bad ↦ rw (a, bad) k | inr b ↦ rw (a, b) k ]
]

-- the calls of the API, with what comes from outside
pub data CryptoCall : Type 0 where
  set : CryptoEnv → CryptoConfig → ℕ → CryptoCall
  choose : ℕ → ℕ → CryptoCall
  clear_traffic : ℕ → ℕ → CryptoCall

abbrev pub crypto_call : Handle → CryptoCall → Handle
crypto_call h (CryptoCall.set env cfg n) = (crypto_set_config env h cfg n).1
crypto_call h (CryptoCall.choose n locked) = (crypto_use_config h n locked).1
crypto_call h (CryptoCall.clear_traffic value locked) = (rx_clear_traffic h value locked).1

abbrev pub crypto_calls : Handle → List CryptoCall → Handle
crypto_calls h [] = h
crypto_calls h (c ∷ calls) = crypto_calls (crypto_call h c) calls

crypto_call-IsKeyed : (h : Handle) (c : CryptoCall) → IsKeyed h → IsKeyed (crypto_call h c)
crypto_call-IsKeyed h (CryptoCall.set env cfg n) k = crypto_set_config-IsKeyed env h cfg n k
crypto_call-IsKeyed h (CryptoCall.choose n locked) k = crypto_use_config-IsKeyed h n locked k
crypto_call-IsKeyed h (CryptoCall.clear_traffic value locked) k =
    rx_clear_traffic-IsKeyed h value locked k

try_others-ne-fault :
    (ops : Ops) (h : Handle) (buf : List ℕ) (n i : ℕ) → try_others ops h buf n i ≢ Crypted.fault
unfolding try_others
try_others-ne-fault ops h buf zero i = cc
try_others-ne-fault ops h buf (suc n) i = ground (arith, try_others-ne-fault ops h buf n (i + 1))

pub decrypt-ne-fault :
    (ops : Ops) (h : Handle) (buf : List ℕ)
    → IsKeyed h
    → authenticate_and_decrypt ops h buf ≢ Crypted.fault
unfolding authenticate_and_decrypt try_in_use
decrypt-ne-fault ops h buf (inl (off, block, hash, salt)) =
    ground (arith, off, try_others-ne-fault ops h buf 2 1)
decrypt-ne-fault ops h buf (inr (inst, low, high, known, block, hash, salt)) =
    ground (arith, known, try_others-ne-fault ops h buf 2 1)

calls-IsKeyed : (h : Handle) (calls : List CryptoCall) → IsKeyed h → IsKeyed (crypto_calls h calls)
calls-IsKeyed h [] k = k
calls-IsKeyed h (c ∷ calls) k = calls-IsKeyed (crypto_call h c) calls (crypto_call-IsKeyed h c k)

-- If the configuration in use is loaded and the handle has its sizes, or none is in use and the sizes are
-- 0, this is so after any calls that load, unload, replace and choose configurations, successful or not;
-- and no received packet then makes the decryption follow a null pointer.
pub crypto_calls-IsKeyed :
    (h : Handle) (calls : List CryptoCall) (ops : Ops) (buf : List ℕ)
    → IsKeyed h
    → IsKeyed (crypto_calls h calls)
      × (authenticate_and_decrypt ops (crypto_calls h calls) buf ≢ Crypted.fault)
crypto_calls-IsKeyed h calls ops buf k =
    let kept = calls-IsKeyed h calls k in
    (kept, decrypt-ne-fault ops (crypto_calls h calls) buf kept)
