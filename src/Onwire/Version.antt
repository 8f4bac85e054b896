-- ===== src/Onwire/Version.antt =====
-- The agreement on an on-wire version (libknet/host.c:_handle_onwire_version) and its limits
-- (libknet/onwire.c:knet_handle_set_onwire_ver).
use kronosnet.Base.{
  ℕ, ◌≤◌, ◌<◌, ◌≡◌, ◌≢◌, ◌⊎◌, inl, inr, refl, Bool, true, Option, none, some, List, [], ◌∷◌, arith,
  ltb, ◌==◌, if◌then◌else◌, truthy, update, All, Option-cases, Bool-cases,
}
use kronosnet.State.{Host, Handle}
use kronosnet.Onwire.{lower, common_ver, hosts_of, agree_ver, handle_onwire_version, set_onwire_ver}

abbrev pub Any {ℓ} : {A : Type ℓ} → (A → Type 0) → List A → Type 0
Any P [] = ⊥
Any P (x ∷ xs) = P x ⊎ Any P xs

-- the host is below our minimum, or supports the version
abbrev pub Supports : ℕ → ℕ → Host → Type 0
Supports min_ver v host = (host.onwire_max_ver < min_ver) ⊎ (v ≤ host.onwire_max_ver)

-- The highest version up to `limit` that all hosts support but those below `min_ver`.
pub record IsCommon (min_ver limit : ℕ) (hosts : List Host) (v : ℕ) : Type 0 where
  pub limited : v ≤ limit
  pub supported : All (Supports min_ver v) hosts
  pub highest :
      (v ≡ limit) ⊎ Any (λ host. (min_ver ≤ host.onwire_max_ver) × (host.onwire_max_ver ≡ v)) hosts

common_ver-IsCommon :
    (min_ver limit : ℕ) (hosts : List Host) (v : ℕ)
    → common_ver min_ver limit hosts ≡ some v
    → IsCommon min_ver limit hosts v
unfolding common_ver
common_ver-IsCommon min_ver limit [] v e = record {
  limited = ground arith;
  supported = tt;
  highest = inl (ground arith);
}
common_ver-IsCommon min_ver limit (host ∷ rest) v e =
    let next = lower min_ver limit host in
    let e' : common_ver min_ver next rest ≡ some v = ground arith in
    let r = common_ver-IsCommon min_ver next rest v e' in
    record {
      limited = ground (arith, r.limited);
      supported = (ground (arith, r.limited), r.supported);
      highest = elim r.highest [ inl q ↦ own q | inr q ↦ inr (inr q) ];
    }
  where
    own :
        v ≡ lower min_ver limit host
        → (v ≡ limit)
          ⊎ (((min_ver ≤ host.onwire_max_ver) × (host.onwire_max_ver ≡ v))
              ⊎ Any (λ h. (min_ver ≤ h.onwire_max_ver) × (h.onwire_max_ver ≡ v)) rest)
    own q = elim (Bool-cases (ltb host.onwire_max_ver min_ver)) [
      | inl a ↦ inl (ground arith)
      | inr a ↦ elim (Bool-cases (ltb host.onwire_max_ver limit)) [
        | inl b ↦ inr (inl (ground arith, ground arith))
        | inr b ↦ inl (ground arith)
      ]
    ]

-- The early return: exactly while a host was never heard of.
common_ver-none :
    (min_ver limit : ℕ) (hosts : List Host)
    → common_ver min_ver limit hosts ≡ none
    → Any (λ host. host.onwire_max_ver ≡ 0) hosts
unfolding common_ver
common_ver-none min_ver limit [] e = cc
common_ver-none min_ver limit (host ∷ rest) e = elim (Bool-cases (truthy host.onwire_max_ver)) [
  | inl a ↦ inr (common_ver-none min_ver (lower min_ver limit host) rest (rw a at e))
  | inr a ↦ inl (ground arith)
]

-- every host was heard of
abbrev pub Seen : List Host → Type 0
Seen hosts = All (λ host. host.onwire_max_ver ≢ 0) hosts

common_ver-Seen :
    (min_ver limit : ℕ) (hosts : List Host) (v : ℕ)
    → common_ver min_ver limit hosts ≡ some v
    → Seen hosts
unfolding common_ver
common_ver-Seen min_ver limit [] v e = tt
common_ver-Seen min_ver limit (host ∷ rest) v e = elim (Bool-cases (truthy host.onwire_max_ver)) [
  | inl a ↦
      (ground (arith, a), common_ver-Seen min_ver (lower min_ver limit host) rest v (rw a at e))
  | inr a ↦ absurd (ground (arith, a, e))
]

-- the hosts as they are once the packet's versions are noted
abbrev pub noted_hosts : Handle → Host → ℕ → ℕ → List Host
noted_hosts knet_h host kh_version kh_max_ver =
    hosts_of
      (update knet_h.host_index host.host_id
        (some (record host { onwire_ver = kh_version; onwire_max_ver = kh_max_ver })))
      knet_h.host_list

abbrev pub Unseen : List Host → Type 0
Unseen hosts = Any (λ host. host.onwire_max_ver ≡ 0) hosts

module _ (knet_h : Handle) (host : Host) (kh_version kh_max_ver : ℕ) where
  abbrev noted : Handle
  noted = record knet_h {
    host_index =
        update knet_h.host_index host.host_id
          (some (record host { onwire_ver = kh_version; onwire_max_ver = kh_max_ver }));
  }

  abbrev common : Option ℕ
  common =
      common_ver knet_h.onwire_min_ver knet_h.onwire_max_ver
        (noted_hosts knet_h host kh_version kh_max_ver)

  waits :
      common ≡ none → handle_onwire_version knet_h host kh_version kh_max_ver true ≡ (noted, none)
  unfolding handle_onwire_version
  waits e = rw (e, handle_onwire_version)

  agrees :
      (v : ℕ)
      → common ≡ some v
      → handle_onwire_version knet_h host kh_version kh_max_ver true ≡ agree_ver noted v
  unfolding handle_onwire_version
  agrees v e = rw (e, handle_onwire_version)

agree_ver_lem :
    (knet_h : Handle) (v : ℕ)
    → knet_h.onwire_force_ver ≡ 0
    → let (knet_h', called) = agree_ver knet_h v in
      (knet_h'.onwire_ver ≡ v) × (called ≡ (if knet_h.onwire_ver == v then none else some v))
unfolding agree_ver
agree_ver_lem knet_h v unforced = ground arith

-- Without a forced version, once every host was heard of, a packet leaves the node at the highest
-- version that it and all hosts it knows support, leaving out hosts below its own minimum; the
-- callback is due exactly if that changes the version, and is passed the new one. While some host
-- has not been heard of, the version stays as it is. The mutex is taken.
pub handle_onwire_version-IsCommon :
    (knet_h : Handle) (host : Host) (kh_version kh_max_ver : ℕ)
    → knet_h.onwire_force_ver ≡ 0
    → let hosts = noted_hosts knet_h host kh_version kh_max_ver in
      let (knet_h', called) = handle_onwire_version knet_h host kh_version kh_max_ver true in
      (Unseen hosts × (knet_h'.onwire_ver ≡ knet_h.onwire_ver) × (called ≡ none))
      ⊎ (Seen hosts
          × IsCommon knet_h.onwire_min_ver knet_h.onwire_max_ver hosts knet_h'.onwire_ver
          × (called ≡ (
              if knet_h.onwire_ver == knet_h'.onwire_ver then none else some knet_h'.onwire_ver)))
handle_onwire_version-IsCommon knet_h host kh_version kh_max_ver unforced =
    let hosts = noted_hosts knet_h host kh_version kh_max_ver in
    elim (Option-cases (common knet_h host kh_version kh_max_ver)) [
      | inl e ↦
          inl (
            rw (waits knet_h host kh_version kh_max_ver e)
              (common_ver-none _ _ hosts e, refl, refl))
      | inr (v, e) ↦
          let (at, called) = agree_ver_lem (noted knet_h host kh_version kh_max_ver) v unforced in
          inr (
            rw (agrees knet_h host kh_version kh_max_ver v e)
              (rw at (common_ver-Seen _ _ hosts v e, common_ver-IsCommon _ _ hosts v e, called)))
    ]

-- A version that can be forced is 0, which means none, or lies between our minimum and maximum.
pub set_onwire_ver_limits :
    (knet_h knet_h' : Handle) (v : ℕ) (locked : Bool)
    → set_onwire_ver knet_h v locked ≡ some knet_h'
    → (knet_h'.onwire_force_ver ≡ v)
      × ((v ≡ 0) ⊎ (knet_h.onwire_min_ver ≤ v) × (v ≤ knet_h.onwire_max_ver))
unfolding set_onwire_ver
set_onwire_ver_limits knet_h knet_h' v locked e = ground arith
