-- ===== src/Compress/Ready.antt =====
-- A compression plug-in that could be made ready (libknet/compress.c) is loaded and initialised.
use kronosnet.Base.{
  ℕ, ◌≤◌, ◌≡◌, ◌⊎◌, ◌∙◌, inl, inr, refl, ap, sym, subst, Bool, true, ◌&&◌, Option, none, some,
  arith, ◌==◌, truthy, update, Bool-cases, Option-cases,
}
use kronosnet.State.{Handle}
use kronosnet.Compress.{
  Plugin, Module, CompressEnv, Libraries, Loading, set_data, check_lib_is_init, init_lib,
  is_limited, load_lib, ready_lib,
}

-- What the header of the plug-ins documents: after a successful init, is_init holds; a plug-in has both or
-- neither, and if it has neither a pointer that is not NULL says that it is loaded.
pub record IsPlugin (p : Plugin) : Type 0 where
  pub both :
      (init : ℕ → Option ℕ) → p.init ≡ some init → (is_init : ℕ → Bool) × (p.is_init ≡ some is_init)
  pub neither : p.init ≡ none → p.is_init ≡ none
  pub started :
      (init : ℕ → Option ℕ) (is_init : ℕ → Bool) (x y : ℕ)
      → p.init ≡ some init
      → p.is_init ≡ some is_init
      → init x ≡ some y
      → is_init y ≡ true

Module-cases : (x : Module) → (x ≡ Module.missing) ⊎ (x ≡ Module.other_abi) ⊎ (x ≡ Module.found)
Module-cases Module.missing = inl refl
Module-cases Module.other_abi = inr (inl refl)
Module-cases Module.found = inr (inr refl)

-- The plug-in of `m` is ready in `h'`, which has the threshold of `h`.
abbrev pub IsReady : CompressEnv → Libraries → ℕ → Handle → Handle → Type 0
IsReady env libs m h h' =
    (check_lib_is_init env libs h' m ≡ true) × (h'.compress_threshold ≡ h.compress_threshold)

init_lib-IsReady :
    (env : CompressEnv) (libs : Libraries) (h h' : Handle) (m : ℕ)
    → IsPlugin (env.plugin m)
    → (libs.loaded m == 1) ≡ true
    → init_lib env h m ≡ some h'
    → IsReady env libs m h h'
unfolding init_lib check_lib_is_init
init_lib-IsReady env libs h h' m p loaded e = elim (Option-cases (env.plugin m).init) [
  | inl plain ↦
      let same : set_data h m 1 ≡ h' = ground (arith, plain, e) in
      let no_test = p.neither plain in
      subst (λ (g : Handle). IsReady env libs m h g) same (ground (arith, loaded, no_test), refl)
  | inr (init, own) ↦
      let (is_init, test) = p.both init own in
      elim (Option-cases (init (h.compress_int_data m))) [
        | inl failed ↦ absurd (ground (arith, own, failed, e))
        | inr (y, made) ↦
            let same : set_data h m y ≡ h' = ground (arith, own, made, e) in
            let holds = p.started init is_init (h.compress_int_data m) y own test made in
            subst (λ (g : Handle). IsReady env libs m h g) same
              (ground (arith, loaded, test, holds), refl)
      ]
]

load_lib-IsReady :
    (env : CompressEnv) (libs : Libraries) (h : Handle) (m : ℕ) (limit : Bool)
    → IsPlugin (env.plugin m)
    → (libs.loaded m ≤ 1)
    → (load_lib env libs h m limit).0 ≡ true
    → IsReady env (load_lib env libs h m limit).1 m h (load_lib env libs h m limit).2
unfolding load_lib
load_lib-IsReady env libs h m limit p flag e = elim (Bool-cases (check_lib_is_init env libs h m)) [
  | inl ready ↦ rw (ready) (ready, refl)
  | inr fresh ↦ elim (Bool-cases (limit && is_limited env libs)) [
    | inl limited ↦ absurd (ground (arith, fresh, limited, e))
    | inr free ↦ elim (Bool-cases (libs.loaded m == 0)) [
      | inr there ↦ elim (Option-cases (init_lib env h m)) [
        | inl failed ↦ absurd (ground (arith, fresh, free, there, failed, e))
        | inr (h', made) ↦
            let same : load_lib env libs h m limit ≡ (true, libs, h') =
              ground (arith, fresh, free, there, made) in
            subst (λ (r : Loading). IsReady env r.1 m h r.2) (sym same)
              (init_lib-IsReady env libs h h' m p (ground (arith, there, flag)) made)
      ]
      | inl absent ↦ elim (Module-cases (env.load m)) [
        | inl missing ↦ absurd (ground (arith, fresh, free, absent, missing, e))
        | inr (inl other) ↦ absurd (ground (arith, fresh, free, absent, other, e))
        | inr (inr found) ↦ elim (Option-cases (init_lib env h m)) [
          | inl failed ↦ absurd (ground (arith, fresh, free, absent, found, failed, e))
          | inr (h', made) ↦
              let libs' = record libs { loaded = update libs.loaded m 1 } in
              let same : load_lib env libs h m limit ≡ (true, libs', h') =
                ground (arith, fresh, free, absent, found, made) in
              subst (λ (r : Loading). IsReady env r.1 m h r.2) (sym same)
                (init_lib-IsReady env libs' h h' m p (ground arith) made)
        ]
      ]
    ]
  ]
]

pub ready_lib-IsReady :
    (env : CompressEnv) (libs : Libraries) (h : Handle) (m : ℕ) (limit : Bool)
    → IsPlugin (env.plugin m)
    → libs.loaded m ≤ 1
    → (ready_lib env libs h m limit).0 ≡ true
    → IsReady env (ready_lib env libs h m limit).1 m h (ready_lib env libs h m limit).2
unfolding ready_lib
ready_lib-IsReady env libs h m limit p flag e = elim (Bool-cases (truthy env.read_locked)) [
  | inl locked ↦ absurd (ground (arith, locked, e))
  | inr free ↦ elim (Bool-cases (check_lib_is_init env libs h m)) [
    | inl ready ↦ rw (free, ready) (ready, refl)
    | inr fresh ↦ elim (Bool-cases (truthy env.write_locked)) [
      | inl held ↦ absurd (ground (arith, free, fresh, held, e))
      | inr idle ↦
          let same : ready_lib env libs h m limit ≡ load_lib env libs h m limit =
            ground (arith, free, fresh, idle) in
          subst (λ (r : Loading). IsReady env r.1 m h r.2) (sym same)
            (load_lib-IsReady env libs h m limit p flag (ap (λ (r : Loading). r.0) (sym same) ∙ e))
    ]
  ]
]
