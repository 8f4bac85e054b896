-- ===== src/Crypto/Tests.antt =====
-- The theorems on encryption at concrete inputs, and runs of the code.
use kronosnet.Base.{◌≡◌, ◌≢◌, refl, true, ◌||◌, inl, some, List, [], ◌∷◌, if◌then◌else◌}
use kronosnet.Crypto.{Crypted, encrypt_and_sign, authenticate_and_decrypt}
use kronosnet.Crypto.Config.{
  CryptoConfig, CryptoEnv, same_bytes, repeat, try_new, get_model, crypto_init, is_none,
  crypto_set_config, crypto_use_config,
}
use kronosnet.Crypto.{use_config, take_sizes}
use kronosnet.Crypto.Keyed.{IsKeyed, CryptoCall, crypto_calls, crypto_calls-IsKeyed}
use kronosnet.Crypto.Toy.{toy_ops, toy_ops-IsCipher, instance_of, clear_node, sender, receiver}
use kronosnet.Crypto.Rekey.{has_key, decrypt-encrypt}

decrypt-encrypt_example : authenticate_and_decrypt toy_ops receiver (5 ∷ 1 ∷ 2 ∷ []) ≡ (
    if has_key receiver 5 1 || has_key receiver 5 2
    then Crypted.done (1 ∷ 2 ∷ [])
    else Crypted.failed)
decrypt-encrypt_example =
    decrypt-encrypt toy_ops sender receiver (instance_of 5) (1 ∷ 2 ∷ []) (5 ∷ 1 ∷ 2 ∷ [])
      toy_ops-IsCipher (inl (refl, refl, refl, refl)) refl (unfold encrypt_and_sign in refl)

abbrev test_config : CryptoConfig
test_config = record {
  crypto_model = b'n' ∷ b's' ∷ b's' ∷ [];
  crypto_cipher_type = b'a' ∷ b'e' ∷ b's' ∷ [];
  crypto_hash_type = b's' ∷ b'h' ∷ b'a' ∷ [];
  private_key_len = 1024;
}

abbrev test_env : CryptoEnv
test_env = record {
  ops = toy_ops;
  modules = ((b'n' ∷ b's' ∷ b's' ∷ []), 1) ∷ [];
  locked = 0;
  shlib_locked = 0;
  load_err = 0;
  granted = true;
  init = λ model cfg. some (instance_of 7);
}

abbrev test_calls : List CryptoCall
test_calls =
    CryptoCall.set test_env test_config 1
    ∷ CryptoCall.choose 1 0
    ∷ CryptoCall.set test_env test_config 1
    ∷ []

crypto_calls-IsKeyed_example :
    IsKeyed (crypto_calls clear_node test_calls)
    × (authenticate_and_decrypt toy_ops (crypto_calls clear_node test_calls) (1 ∷ 2 ∷ [])
        ≢ Crypted.fault)
crypto_calls-IsKeyed_example =
    crypto_calls-IsKeyed clear_node test_calls toy_ops (1 ∷ 2 ∷ []) (inl (refl, refl, refl, refl))

-- The first two calls succeed: key 7 is in use.
crypto_run :
    ((crypto_calls clear_node test_calls).crypto_in_use_config ≡ 1)
    × ((crypto_calls clear_node test_calls).sec_hash_size ≡ 32)
unfolding crypto_set_config crypto_init get_model same_bytes repeat try_new is_none
    crypto_use_config use_config take_sizes
crypto_run = (refl, refl)
