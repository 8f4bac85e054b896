-- ===== src/Compress/Chosen.antt =====
-- What knet_handle_compress (libknet/compress.c) leaves the handle with.
use kronosnet.Base.{
  ℕ, ◌≤◌, ◌≡◌, ◌⊎◌, ◌∙◌, inl, inr, refl, ap, sym, subst, Bool, true, false, ◌&&◌, ◌||◌, not, none,
  some, arith, ltb, ◌==◌, if◌then◌else◌, truthy, Bool-cases, Option-cases,
}
use kronosnet.State.{Handle}
use kronosnet.Compress.{
  CompressEnv, Libraries, CompressConfig, Loading, compress_get_model, is_built_in,
  check_lib_is_init, ready_lib, lib_test, choose_model, compress_cfg, compress_fini,
  handle_compress,
}
use kronosnet.Compress.Ready.{IsPlugin, IsReady, ready_lib-IsReady}

-- A result, with the libraries and the handle, is a success with model `m` ready for use.
abbrev pub IsChosen : CompressEnv → ℕ → Loading → Type 0
IsChosen env m r =
    (r.0 ≡ true)
    × (r.2.compress_model ≡ m)
    × (check_lib_is_init env r.1 r.2 m ≡ true)
    × (1 ≤ r.2.compress_threshold)
    × (r.2.compress_threshold ≤ 65536)

choose_model_ends :
    (env : CompressEnv) (libs : Libraries) (h : Handle) (m level : ℕ)
    → ((choose_model env libs h m level).0 ≡ false)
        × ((choose_model env libs h m level).2.compress_model ≡ 0)
      ⊎ (level' : ℕ) × (choose_model env libs h m level
          ≡ (true, libs, record h { compress_model = m; compress_level = level' }))
unfolding choose_model
choose_model_ends env libs h m level =
    let on = record h { compress_model = m; compress_level = level } in
    let valid : Bool = elim (env.plugin m).val_level [
      | none ↦ true
      | some val_level ↦ val_level level
    ] in
    elim (Bool-cases valid) [
      | inr invalid ↦ inl (ground (arith, invalid), ground (arith, invalid))
      | inl good ↦ elim (Option-cases (lib_test env on)) [
        | inl failed ↦ inl (ground (arith, good, failed), ground (arith, good, failed))
        | inr (level', works) ↦ inr (level', ground (arith, good, works))
      ]
    ]

-- How a call for a handle with `model` ends: refused with the model it had or with none; with success for the name
-- of model 0 and the handle as it was; or with success and the model of that name chosen.
abbrev pub IsEnd : CompressEnv → CompressConfig → ℕ → Loading → Type 0
IsEnd env cfg model r =
    (r.0 ≡ false) × ((r.2.compress_model ≡ 0) ⊎ (r.2.compress_model ≡ model))
    ⊎ (compress_get_model env.modules cfg.compress_model 0 ≡ some 0)
      × (r.0 ≡ true)
      × (r.2.compress_model ≡ model)
    ⊎ (m : ℕ) × (compress_get_model env.modules cfg.compress_model 0 ≡ some m)
      × (is_built_in env.modules m ≡ true)
      × IsChosen env m r

abbrev with_threshold : Handle → CompressConfig → Handle
with_threshold h cfg = record h {
  compress_threshold = if cfg.compress_threshold == 0 then 100 else cfg.compress_threshold;
}

-- the last stage
choose_model-IsEnd :
    (env : CompressEnv) (libs libs' : Libraries) (h loaded : Handle) (cfg : CompressConfig) (m : ℕ)
    → compress_get_model env.modules cfg.compress_model 0 ≡ some m
    → is_built_in env.modules m ≡ true
    → cfg.compress_threshold ≤ 65536
    → IsReady env libs' m (with_threshold h cfg) loaded
    → IsEnd env cfg h.compress_model (choose_model env libs' loaded m cfg.compress_level)
unfolding check_lib_is_init
choose_model-IsEnd env libs libs' h loaded cfg m named built fits (ready, kept) =
    elim (choose_model_ends env libs' loaded m cfg.compress_level) [
      | inl (failed, off) ↦ inl (failed, inl off)
      | inr (level, made) ↦
          let low : 1 ≤ loaded.compress_threshold = ground (arith, kept) in
          let high : loaded.compress_threshold ≤ 65536 = ground (arith, kept, fits) in
          inr (
            inr (m, named, built, subst (IsChosen env m) (sym made) (refl, refl, ready, low, high)))
    ]

compress_cfg-real :
    (env : CompressEnv) (libs : Libraries) (h : Handle) (cfg : CompressConfig) (m : ℕ)
    → IsPlugin (env.plugin m)
    → libs.loaded m ≤ 1
    → compress_get_model env.modules cfg.compress_model 0 ≡ some m
    → (m == 0) ≡ false
    → IsEnd env cfg h.compress_model (compress_cfg env libs h cfg)
unfolding compress_cfg
compress_cfg-real env libs h cfg m plugin flag named real =
    let set = with_threshold h cfg in
    let bad = not (is_built_in env.modules m) || ltb 65536 cfg.compress_threshold in
    let locked =
      truthy env.read_locked || not (check_lib_is_init env libs set m) && truthy env.write_locked in
    let (ready, libs', loaded) = ready_lib env libs set m false in
    elim (Bool-cases bad) [
      | inl refused ↦
          inl (ground (arith, named, real, refused), inr (ground (arith, named, real, refused)))
      | inr good ↦ elim (Bool-cases locked) [
        | inl held ↦
            inl (
              ground (arith, named, real, good, held),
              inr (ground (arith, named, real, good, held)),
            )
        | inr free ↦ elim (Bool-cases ready) [
          | inr failed ↦ inl (
            ground (arith, named, real, good, free, failed),
            inl (ground (arith, named, real, good, free, failed)),
          )
          | inl works ↦
              let same : compress_cfg env libs h cfg
                  ≡ choose_model env libs' loaded m cfg.compress_level =
                ground (arith, named, real, good, free, works) in
              subst (IsEnd env cfg h.compress_model) (sym same) (
                choose_model-IsEnd env libs libs' h loaded cfg m named (ground (arith, good))
                  (ground (arith, good)) (ready_lib-IsReady env libs set m false plugin flag works))
        ]
      ]
    ]

compress_cfg-unknown :
    (env : CompressEnv) (libs : Libraries) (h : Handle) (cfg : CompressConfig)
    → compress_get_model env.modules cfg.compress_model 0 ≡ none
    → ((compress_cfg env libs h cfg).0 ≡ false)
      × (((compress_cfg env libs h cfg).2.compress_model ≡ 0)
          ⊎ ((compress_cfg env libs h cfg).2.compress_model ≡ h.compress_model))
unfolding compress_cfg
compress_cfg-unknown env libs h cfg unknown =
    (ground (arith, unknown), inr (ground (arith, unknown)))

compress_cfg-off :
    (env : CompressEnv) (libs : Libraries) (h : Handle) (cfg : CompressConfig) (m : ℕ)
    → compress_get_model env.modules cfg.compress_model 0 ≡ some m
    → (m == 0) ≡ true
    → (compress_get_model env.modules cfg.compress_model 0 ≡ some 0)
      × ((compress_cfg env libs h cfg).0 ≡ true)
      × ((compress_cfg env libs h cfg).2.compress_model ≡ h.compress_model)
unfolding compress_cfg
compress_cfg-off env libs h cfg m named off =
    let zeroth : m ≡ 0 = ground (arith, off) in
    (named ∙ ap some zeroth, ground (arith, named, off), ground (arith, named, off))

-- the plug-in of the old model is finished, but the model stays
compress_fini-model :
    (env : CompressEnv) (libs : Libraries) (h : Handle)
    → (compress_fini env libs h).compress_model ≡ h.compress_model
unfolding compress_fini
compress_fini-model env libs h =
    let m = h.compress_model in
    let idle =
      truthy env.write_locked
      || not (
          is_built_in env.modules m
          && libs.loaded m == 1
          && ltb 0 m
          && truthy (h.compress_int_data m)) in
    elim (Bool-cases idle) [
      | inl skipped ↦ rw (skipped) refl
      | inr active ↦ elim (Option-cases (env.plugin m).fini) [
        | inl plain ↦ rw (active, plain) refl
        | inr (fini, own) ↦ rw (active, own) refl
      ]
    ]

compress_cfg-IsEnd :
    (env : CompressEnv) (libs : Libraries) (h : Handle) (cfg : CompressConfig)
    → ((m : ℕ) → IsPlugin (env.plugin m))
    → ((m : ℕ) → libs.loaded m ≤ 1)
    → IsEnd env cfg h.compress_model (compress_cfg env libs h cfg)
compress_cfg-IsEnd env libs h cfg plugins flags =
    elim (Option-cases (compress_get_model env.modules cfg.compress_model 0)) [
      | inl unknown ↦ inl (compress_cfg-unknown env libs h cfg unknown)
      | inr (m, named) ↦ elim (Bool-cases (m == 0)) [
        | inl off ↦ inr (inl (compress_cfg-off env libs h cfg m named off))
        | inr real ↦ compress_cfg-real env libs h cfg m (plugins m) (flags m) named real
      ]
    ]

-- If the flags of the libraries are 0 or 1, a call that sets the compression is refused and leaves the
-- handle with the model it had, or with none; or it succeeds with a model that is compiled in, and the
-- model's plug-in is loaded and initialised and the threshold is from 1 to 65536; or it succeeds for the name of
-- model 0, and the handle keeps the model it had.
pub handle_compress-IsEnd :
    (env : CompressEnv) (libs : Libraries) (h : Handle) (cfg : CompressConfig) (locked : ℕ)
    → ((m : ℕ) → IsPlugin (env.plugin m))
    → ((m : ℕ) → libs.loaded m ≤ 1)
    → IsEnd env cfg h.compress_model (handle_compress env libs h cfg locked)
unfolding handle_compress
handle_compress-IsEnd env libs h cfg locked plugins flags = elim (Bool-cases (truthy locked)) [
  | inl held ↦ rw (held) (inl (refl, inr refl))
  | inr free ↦
      let clean = compress_fini env libs h in
      let same : handle_compress env libs h cfg locked ≡ compress_cfg env libs clean cfg =
        ground (arith, free) in
      subst (IsEnd env cfg h.compress_model) (sym same) (
        subst (λ model. IsEnd env cfg model (compress_cfg env libs clean cfg))
          (compress_fini-model env libs h) (compress_cfg-IsEnd env libs clean cfg plugins flags))
]
