-- ===== src/Crypto.antt =====
-- libknet/crypto.c: encryption with the configuration in use, and decryption with any that is loaded. The
-- plug-ins (struct crypto_ops of crypto_model.h) are an argument.
pub mod Config
pub mod Keyed
pub mod Rekey
pub mod Toy
mod Tests
use kronosnet.Base.{
  ℕ, zero, suc, ◌+◌, Bool, true, false, ◌&&◌, ◌||◌, not, Option, none, some, List, [], ◌∷◌, ltb,
  leb, ◌==◌, if◌then◌else◌, truthy, update, length,
}
use kronosnet.State.{CryptoInstance, Handle}
use kronosnet.Links.{Effect}
use kronosnet.Hosts.{einval, ebusy, enomem}

-- KNET_MAX_CRYPTO_INSTANCES
abbrev pub max_crypto_instances : ℕ
max_crypto_instances = 2

-- crypt and decrypt of the plug-ins, on the bytes of a buffer; `none` is an error
pub record Ops : Type 0 where
  pub crypt : CryptoInstance → List ℕ → Option (List ℕ)
  pub decrypt : CryptoInstance → List ℕ → Option (List ℕ)

-- fault stands for an access through a null pointer
pub data Crypted : Type 0 where
  fault : Crypted
  failed : Crypted
  done : List ℕ → Crypted

abbrev pub of_option : Option (List ℕ) → Crypted
of_option none = Crypted.failed
of_option (some out) = Crypted.done out

unfoldable pub encrypt_and_sign : Ops → Handle → List ℕ → Crypted
encrypt_and_sign ops knet_h buf_in = elim (knet_h.crypto_instance knet_h.crypto_in_use_config) [
  | none ↦ Crypted.fault
  | some inst ↦ of_option (ops.crypt inst buf_in)
]

-- the loop over the other configurations, with `n` rounds left at configuration `i`
unfoldable pub try_others : Ops → Handle → List ℕ → ℕ → ℕ → Crypted
try_others ops knet_h buf_in zero i = Crypted.failed
try_others ops knet_h buf_in (suc n) i =
    let rest = try_others ops knet_h buf_in n (i + 1) in
    if i == knet_h.crypto_in_use_config then rest else elim (knet_h.crypto_instance i) [
      | none ↦ rest
      | some inst ↦ elim (ops.decrypt inst buf_in) [ none ↦ rest | some out ↦ Crypted.done out ]
    ]

-- what decrypting with the configuration in use returns
unfoldable pub try_in_use : Ops → Handle → List ℕ → Crypted
try_in_use ops knet_h buf_in =
    if truthy knet_h.crypto_in_use_config
    then elim (knet_h.crypto_instance knet_h.crypto_in_use_config) [
      | none ↦ Crypted.fault
      | some inst ↦ of_option (ops.decrypt inst buf_in)
    ]
    else Crypted.failed

unfoldable pub authenticate_and_decrypt : Ops → Handle → List ℕ → Crypted
authenticate_and_decrypt ops knet_h buf_in = elim (try_in_use ops knet_h buf_in) [
  | Crypted.fault ↦ Crypted.fault
  | Crypted.failed ↦ try_others ops knet_h buf_in max_crypto_instances 1
  | Crypted.done out ↦ Crypted.done out
]

abbrev pub is_loaded : Handle → ℕ → Bool
is_loaded knet_h i = elim (knet_h.crypto_instance i) [ none ↦ false | some inst ↦ true ]

-- the sizes of a configuration, in use from now on
unfoldable pub take_sizes : Handle → ℕ → Option CryptoInstance → Handle
take_sizes knet_h config_num none = record knet_h {
  crypto_in_use_config = config_num;
  sec_block_size = 0;
  sec_hash_size = 0;
  sec_salt_size = 0;
}
take_sizes knet_h config_num (some inst) = record knet_h {
  crypto_in_use_config = config_num;
  sec_block_size = inst.sec_block_size;
  sec_hash_size = inst.sec_hash_size;
  sec_salt_size = inst.sec_salt_size;
}

-- crypto_use_config: errno, and whether force_pmtud_run is called
unfoldable pub use_config : Handle → ℕ → ℕ × Handle × List Effect
use_config knet_h config_num =
    if truthy config_num && not (is_loaded knet_h config_num) then (einval, knet_h, []) else (
      0,
      take_sizes knet_h config_num
          (if truthy config_num then knet_h.crypto_instance config_num else none),
      Effect.pmtud_run ∷ [],
    )
