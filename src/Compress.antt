-- ===== src/Compress.antt =====
-- libknet/compress.c: the choice of a compression model, the loading of its plug-in, and decompression. The
-- plug-ins (compress_ops_t of libknet/compress_model.h) are arguments.
pub mod Ready
mod Chosen
mod Tests
use kronosnet.Base.{
  ℕ, zero, suc, ◌+◌, Bool, true, false, ◌&&◌, ◌||◌, not, length, Option, none, some, List, [], ◌∷◌,
  ltb, leb, ◌==◌, if◌then◌else◌, truthy, update,
}
use kronosnet.State.{Timespec, Handle}
use kronosnet.Defrag.{Packet}
use kronosnet.Heartbeat.{timespec_diff}
use kronosnet.Crypto.Config.{same_bytes}

-- A plug-in. is_init, init and fini, which it may not have, see and change the handle's pointer to the
-- plug-in's data, 0 for NULL. compress and decompress get that and the level. default_level is none for
-- KNET_COMPRESS_UNKNOWN_DEFAULT.
pub record Plugin : Type 0 where
  pub is_init : Option (ℕ → Bool)
  pub init : Option (ℕ → Option ℕ)
  pub fini : Option (ℕ → ℕ)
  pub val_level : Option (ℕ → Bool)
  pub compress : ℕ → ℕ → Packet → Option Packet
  pub decompress : ℕ → ℕ → Packet → Option Packet
  pub default_level : Option ℕ

-- what load_module finds
pub data Module : Type 0 where
  found : Module
  missing : Module
  other_abi : Module

-- compress_modules_cmds: names with built_in, the plug-ins, what is found if they are loaded; the locks of
-- the modules for reading and for writing; the clock.
pub record CompressEnv : Type 0 where
  pub modules : List (List ℕ × ℕ)
  pub plugin : ℕ → Plugin
  pub load : ℕ → Module
  pub read_locked : ℕ
  pub write_locked : ℕ
  pub clock : Timespec

-- what changes of compress_modules_cmds, and last_load_failure
pub record Libraries : Type 0 where
  pub loaded : ℕ → ℕ
  pub last_load_failure : Timespec

-- struct knet_handle_compress_cfg
pub record CompressConfig : Type 0 where
  pub compress_model : List ℕ
  pub compress_threshold : ℕ
  pub compress_level : ℕ

-- KNET_DATABUFSIZE
abbrev pub databufsize : ℕ
databufsize = 65562

-- compress_get_model, from index `idx` on; a model's id is its index
unfoldable pub compress_get_model : List (List ℕ × ℕ) → List ℕ → ℕ → Option ℕ
compress_get_model [] model idx = none
compress_get_model ((name, built_in) ∷ modules) model idx =
    let rest = compress_get_model modules model (idx + 1) in
    if same_bytes name model then some idx else rest

-- whether a model is compiled in: built_in of its entry
unfoldable pub is_built_in : List (List ℕ × ℕ) → ℕ → Bool
is_built_in [] model = false
is_built_in ((name, built_in) ∷ modules) zero = built_in == 1
is_built_in ((name, built_in) ∷ modules) (suc n) = is_built_in modules n

-- compress_check_lib_is_init
unfoldable pub check_lib_is_init : CompressEnv → Libraries → Handle → ℕ → Bool
check_lib_is_init env libs knet_h cmp_model =
    libs.loaded cmp_model == 1 && elim (env.plugin cmp_model).is_init [
      | none ↦ truthy (knet_h.compress_int_data cmp_model)
      | some is_init ↦ is_init (knet_h.compress_int_data cmp_model)
    ]

abbrev pub set_data : Handle → ℕ → ℕ → Handle
set_data knet_h m pointer = record knet_h {
  compress_int_data = update knet_h.compress_int_data m pointer;
}

-- the plug-in's init for this handle, or NULL replaced by a pointer
unfoldable pub init_lib : CompressEnv → Handle → ℕ → Option Handle
init_lib env knet_h cmp_model = elim (env.plugin cmp_model).init [
  | none ↦ some (set_data knet_h cmp_model 1)
  | some init ↦ elim (init (knet_h.compress_int_data cmp_model)) [
    | none ↦ none
    | some pointer ↦ some (set_data knet_h cmp_model pointer)
  ]
]

abbrev pub Loading : Type 0
Loading = Bool × Libraries × Handle

abbrev started : Libraries → Handle → Option Handle → Loading
started libs knet_h none = (false, libs, knet_h)
started libs knet_h (some knet_h') = (true, libs, knet_h')

-- whether the last failure is less than ten seconds ago
unfoldable pub is_limited : CompressEnv → Libraries → Bool
is_limited env libs =
    let last = libs.last_load_failure in
    (truthy last.tv_sec || truthy last.tv_nsec) && ltb (timespec_diff last env.clock) 10000000000

-- compress_load_lib: whether it returns 0
unfoldable pub load_lib : CompressEnv → Libraries → Handle → ℕ → Bool → Loading
load_lib env libs knet_h cmp_model rate_limit =
    if check_lib_is_init env libs knet_h cmp_model
    then (true, libs, knet_h)
    else (if rate_limit && is_limited env libs
        then (false, libs, knet_h)
        else (if libs.loaded cmp_model == 0
            then elim (env.load cmp_model) [
              | Module.missing ↦ (false, record libs { last_load_failure = env.clock }, knet_h)
              | Module.other_abi ↦ (false, libs, knet_h)
              | Module.found ↦
                  started (record libs { loaded = update libs.loaded cmp_model 1 }) knet_h
                    (init_lib env knet_h cmp_model)
            ]
            else started libs knet_h (init_lib env knet_h cmp_model)))

-- the test of the plug-in for use, with the switch to the write lock
unfoldable pub ready_lib : CompressEnv → Libraries → Handle → ℕ → Bool → Loading
ready_lib env libs knet_h cmp_model rate_limit =
    if truthy env.read_locked
    then (false, libs, knet_h)
    else (if check_lib_is_init env libs knet_h cmp_model
        then (true, libs, knet_h)
        else (if truthy env.write_locked
            then (false, libs, knet_h)
            else load_lib env libs knet_h cmp_model rate_limit))

-- the loop over the decompressed bytes
unfoldable pub all_zero : ℕ → (ℕ → ℕ) → Bool
all_zero zero src = true
all_zero (suc n) src = src n == 0 && all_zero n src

-- the second half of compress_lib_test
unfoldable pub test_decompress : Plugin → ℕ → ℕ → Packet → Bool
test_decompress plugin pointer level dst = elim (plugin.decompress pointer level dst) [
  | none ↦ false
  | some src ↦ all_zero src.0 src.1
]

-- compress_lib_test, for the model and the level of the handle: `none`, or the level that works
unfoldable pub lib_test : CompressEnv → Handle → Option ℕ
lib_test env knet_h =
    let plugin = env.plugin knet_h.compress_model in
    let pointer = knet_h.compress_int_data knet_h.compress_model in
    let zeros : Packet = (databufsize, λ _. 0) in
    elim (plugin.compress pointer knet_h.compress_level zeros) [
      | none ↦ none
      | some dst ↦
          if ltb dst.0 databufsize
          then (if test_decompress plugin pointer knet_h.compress_level dst
              then some knet_h.compress_level
              else none)
          else elim plugin.default_level [
            | none ↦ none
            | some level ↦ if level == 0 then none else elim (plugin.compress pointer level zeros) [
              | none ↦ none
              | some dst' ↦ if test_decompress plugin pointer level dst' then some level else none
            ]
          ]
    ]

-- from val_level on
unfoldable pub choose_model : CompressEnv → Libraries → Handle → ℕ → ℕ → Loading
choose_model env libs knet_h cmp_model level =
    let off = record knet_h { compress_model = 0; compress_level = 0 } in
    let on = record knet_h { compress_model = cmp_model; compress_level = level } in
    let valid : Bool = elim (env.plugin cmp_model).val_level [
      | none ↦ true
      | some val_level ↦ val_level level
    ] in
    if not valid then (false, libs, off) else elim (lib_test env on) [
      | none ↦ (false, libs, off)
      | some level' ↦ (true, libs, record on { compress_level = level' })
    ]

-- compress_cfg: whether it returns 0
unfoldable pub compress_cfg : CompressEnv → Libraries → Handle → CompressConfig → Loading
compress_cfg env libs knet_h cfg = elim (compress_get_model env.modules cfg.compress_model 0) [
  | none ↦ (false, libs, knet_h)
  | some cmp_model ↦
      let set = record knet_h {
        compress_threshold = if cfg.compress_threshold == 0 then 100 else cfg.compress_threshold;
      } in
      let (ready, libs', loaded) = ready_lib env libs set cmp_model false in
      let unloaded = record loaded { compress_model = 0; compress_level = 0 } in
      if cmp_model == 0
      then (true, libs, knet_h)
      else (if not (is_built_in env.modules cmp_model) || ltb 65536 cfg.compress_threshold
          then (false, libs, knet_h)
          else (if truthy env.read_locked
                || not (check_lib_is_init env libs set cmp_model) && truthy env.write_locked
              then (false, libs, set)
              else (if ready
                  then choose_model env libs' loaded cmp_model cfg.compress_level
                  else (false, libs', unloaded))))
]

-- compress_fini with `all` 0: the plug-in of the model in use
unfoldable pub compress_fini : CompressEnv → Libraries → Handle → Handle
compress_fini env libs knet_h =
    let m = knet_h.compress_model in
    if truthy env.write_locked
      || not (
          is_built_in env.modules m
          && libs.loaded m == 1
          && ltb 0 m
          && truthy (knet_h.compress_int_data m))
    then knet_h
    else elim (env.plugin m).fini [
      | none ↦ set_data knet_h m 0
      | some fini ↦ set_data knet_h m (fini (knet_h.compress_int_data m))
    ]

-- knet_handle_compress; `locked` is the result of the lock of the handle
unfoldable pub handle_compress : CompressEnv → Libraries → Handle → CompressConfig → ℕ → Loading
handle_compress env libs knet_h cfg locked =
    if truthy locked
    then (false, libs, knet_h)
    else compress_cfg env libs (compress_fini env libs knet_h) cfg

-- decompress: the data, or `none` for an error
unfoldable pub decompress :
    CompressEnv → Libraries → Handle → ℕ → Packet → Option Packet × Libraries × Handle
decompress env libs knet_h compress_model buf_in =
    let (ready, libs', loaded) = ready_lib env libs knet_h compress_model true in
    if not (is_built_in env.modules compress_model)
    then (none, libs, knet_h)
    else (if ready
        then (
          (env.plugin compress_model).decompress (loaded.compress_int_data compress_model)
              loaded.compress_level buf_in,
          libs',
          loaded,
        )
        else (none, libs', loaded))
