-- ===== src/Crypto/Config.antt =====
-- libknet/crypto.c: the calls that load, unload and choose the encryption configurations of a handle. The
-- locks, malloc and the loading of modules are arguments; a module's fini is left out.
use kronosnet.Base.{
  ℕ, zero, suc, ◌+◌, Bool, true, false, ◌&&◌, ◌||◌, not, Option, none, some, List, [], ◌∷◌, ltb,
  ◌==◌, if◌then◌else◌, truthy, update,
}
use kronosnet.State.{CryptoInstance, Handle}
use kronosnet.Links.{Effect}
use kronosnet.Hosts.{einval, ebusy}
use kronosnet.Crypto.{Ops, is_loaded, use_config, max_crypto_instances}

-- memcmp of two buffers of the same length
unfoldable pub same_bytes : List ℕ → List ℕ → Bool
same_bytes [] [] = true
same_bytes [] (y ∷ ys) = false
same_bytes (x ∷ xs) [] = false
same_bytes (x ∷ xs) (y ∷ ys) = x == y && same_bytes xs ys

unfoldable pub repeat : ℕ → ℕ → List ℕ
repeat zero x = []
repeat (suc n) x = x ∷ repeat n x

-- crypto_try_new_crypto_instance, with KNET_HEADER_ALL_SIZE bytes of 0x55
unfoldable pub try_new : Ops → CryptoInstance → Bool
try_new ops inst = elim (ops.crypt inst (repeat 26 85)) [
  | none ↦ false
  | some cryptbuf ↦ elim (ops.decrypt inst cryptbuf) [
    | none ↦ false
    | some decryptbuf ↦ same_bytes (repeat 26 85) decryptbuf
  ]
]

-- struct knet_handle_crypto_cfg: the names as bytes
pub record CryptoConfig : Type 0 where
  pub crypto_model : List ℕ
  pub crypto_cipher_type : List ℕ
  pub crypto_hash_type : List ℕ
  pub private_key_len : ℕ

-- What is answered: by the lock of the handle and that of the modules, by the loading of a module,
-- by malloc, and by the module's init for a new instance; crypto_modules_cmds, with built_in.
pub record CryptoEnv : Type 0 where
  pub ops : Ops
  pub modules : List (List ℕ × ℕ)
  pub locked : ℕ
  pub shlib_locked : ℕ
  pub load_err : ℕ
  pub granted : Bool
  pub init : ℕ → CryptoConfig → Option CryptoInstance

-- the index of a name, with its built_in
unfoldable pub get_model : List (List ℕ × ℕ) → List ℕ → ℕ → Option (ℕ × ℕ)
get_model [] model idx = none
get_model ((name, built_in) ∷ modules) model idx =
    if same_bytes name model then some (idx, built_in) else get_model modules model (idx + 1)

-- crypto_init: whether it succeeds
unfoldable pub crypto_init : CryptoEnv → Handle → CryptoConfig → ℕ → Bool × Handle × List Effect
crypto_init env knet_h cfg config_num = elim (get_model env.modules cfg.crypto_model 0) [
  | none ↦ (false, knet_h, [])
  | some (model, built_in) ↦
      if built_in == 0 || truthy env.shlib_locked || truthy env.load_err || not env.granted
      then (false, knet_h, [])
      else elim (env.init model cfg) [
        | none ↦ (false, knet_h, [])
        | some inst ↦
            let new = record inst { model = model } in
            let set = record knet_h {
              crypto_instance = update knet_h.crypto_instance config_num (some new);
            } in
            let (err, used, effects) = use_config set config_num in
            if not (try_new env.ops new)
            then (false, knet_h, [])
            else (if is_loaded knet_h config_num && knet_h.crypto_in_use_config == config_num
                then (true, used, effects)
                else (true, set, []))
      ]
]

unfoldable pub fini_config : Handle → ℕ → Handle
fini_config knet_h config_num = record knet_h {
  crypto_instance = update knet_h.crypto_instance config_num none;
}

-- crypto_fini of one configuration
unfoldable pub crypto_fini : Handle → ℕ → ℕ → Handle
crypto_fini knet_h config_num shlib_locked =
    if truthy shlib_locked then knet_h else fini_config knet_h config_num

-- !strncmp("none", name, 4), for a name that ends with its list
unfoldable pub is_none : List ℕ → Bool
is_none (a ∷ b ∷ c ∷ d ∷ rest) = a == b'n' && b == b'o' && c == b'n' && d == b'e'
is_none short = false

-- The result of knet_handle_crypto_set_config: 0, -1 with an errno, or -2.
pub data SetResult : Type 0 where
  ok : SetResult
  refused : ℕ → SetResult
  not_set : SetResult

-- knet_handle_crypto_set_config
unfoldable pub crypto_set_config :
    CryptoEnv → Handle → CryptoConfig → ℕ → SetResult × Handle × List Effect
crypto_set_config env knet_h cfg config_num =
    let (set_up, knet_h', effects) = crypto_init env knet_h cfg config_num in
    if ltb config_num 1 || ltb max_crypto_instances config_num
    then (SetResult.refused einval, knet_h, [])
    else (if truthy env.locked
        then (SetResult.refused env.locked, knet_h, [])
        else (if knet_h.crypto_in_use_config == config_num
            then (SetResult.refused ebusy, knet_h, [])
            else (if is_none cfg.crypto_model
                  || is_none cfg.crypto_cipher_type && is_none cfg.crypto_hash_type
                then (SetResult.ok, crypto_fini knet_h config_num env.shlib_locked, [])
                else (if ltb cfg.private_key_len 128 || ltb 4096 cfg.private_key_len
                    then (SetResult.refused einval, knet_h, [])
                    else (if set_up
                        then (SetResult.ok, knet_h', effects)
                        else (SetResult.not_set, knet_h', effects))))))

-- knet_handle_crypto_use_config and knet_handle_crypto_rx_clear_traffic: errno
unfoldable pub crypto_use_config : Handle → ℕ → ℕ → ℕ × Handle × List Effect
crypto_use_config knet_h config_num locked =
    if ltb max_crypto_instances config_num
    then (einval, knet_h, [])
    else (if truthy locked then (locked, knet_h, []) else use_config knet_h config_num)

unfoldable pub rx_clear_traffic : Handle → ℕ → ℕ → ℕ × Handle
rx_clear_traffic knet_h value locked =
    if ltb 1 value
    then (einval, knet_h)
    else (if truthy locked then (locked, knet_h) else (0, record knet_h { crypto_only = value }))
