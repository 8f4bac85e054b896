-- ===== src/Compress/Tests.antt =====
-- The theorem on the choice of a compression model at a concrete input, and a run of the code.
use kronosnet.Base.{
  ℕ, ◌≡◌, ◌≤◌, refl, ap, Bool, true, Option, none, some, [], ◌∷◌, arith, ◌==◌, if◌then◌else◌,
}
use kronosnet.State.{Handle, zero_timespec}
use kronosnet.Samples.{node}
use kronosnet.Crypto.Config.{same_bytes}
use kronosnet.Compress.{
  Plugin, Module, CompressEnv, Libraries, CompressConfig, compress_get_model, is_built_in,
  compress_cfg, compress_fini, handle_compress,
}
use kronosnet.Compress.Ready.{IsPlugin}
use kronosnet.Compress.Chosen.{IsEnd, handle_compress-IsEnd}

-- a plug-in that keeps its context behind the pointer
abbrev context_plugin : Plugin
context_plugin = record {
  is_init = some (λ pointer. pointer == 7);
  init = some (λ pointer. some 7);
  fini = some (λ pointer. 0);
  val_level = none;
  compress = λ pointer level packet. some (10, λ _. 1);
  decompress = λ pointer level packet. none;
  default_level = none;
}

context_plugin-IsPlugin : IsPlugin context_plugin
context_plugin-IsPlugin = record {
  both = λ init e. ((λ pointer. pointer == 7), refl);
  neither = λ e. absurd (ground (arith, e));
  started = λ init is_init x y e f g.
      let given : (λ (p : ℕ). some 7) ≡ init = cc in
      let tested : (λ (p : ℕ). p == 7) ≡ is_init = cc in
      let seven : y ≡ 7 = ground (arith, ap (λ (h : ℕ → Option ℕ). h x) given, g) in
      ground (arith, seven, ap (λ (h : ℕ → Bool). h 7) tested);
}

abbrev test_env : CompressEnv
test_env = record {
  modules = ((b'n' ∷ b'o' ∷ b'n' ∷ b'e' ∷ []), 0) ∷ ((b'z' ∷ []), 1) ∷ [];
  plugin = λ m. context_plugin;
  load = λ m. Module.found;
  read_locked = 0;
  write_locked = 0;
  clock = zero_timespec;
}

abbrev test_libraries : Libraries
test_libraries = record { loaded = λ m. if m == 1 then 1 else 0; last_load_failure = zero_timespec }

test_libraries-flags : (m : ℕ) → test_libraries.loaded m ≤ 1
test_libraries-flags m = ground arith

-- model 1 is in use, with its context
abbrev compressing : Handle
compressing = record node {
  compress_model = 1;
  compress_level = 3;
  compress_int_data = λ m. if m == 1 then 7 else 0;
}

abbrev none_config : CompressConfig
none_config = record {
  compress_model = b'n' ∷ b'o' ∷ b'n' ∷ b'e' ∷ [];
  compress_threshold = 0;
  compress_level = 0;
}

handle_compress-IsEnd_example :
    IsEnd test_env none_config compressing.compress_model
      (handle_compress test_env test_libraries compressing none_config 0)
handle_compress-IsEnd_example =
    handle_compress-IsEnd test_env test_libraries compressing none_config 0
      (λ m. context_plugin-IsPlugin) test_libraries-flags

-- The model "none" is set with success: the old model stays in use, and its context is gone.
none_run :
    let (ok, libs, knet_h) = handle_compress test_env test_libraries compressing none_config 0 in
    (ok ≡ true) × (knet_h.compress_model ≡ 1) × (knet_h.compress_int_data 1 ≡ 0)
unfolding handle_compress compress_fini is_built_in compress_cfg compress_get_model same_bytes
none_run = (refl, refl, refl)
