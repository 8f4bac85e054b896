-- ===== src/Dests/Reachable.antt =====
-- The destinations of a packet (libknet/threads_tx.c:_get_data_dests): for a unicast the reachable
-- ones of those that the filter names, for a broadcast whether anyone is reachable.
use kronosnet.Base.{
  ℕ, ◌≡◌, ◌≢◌, ◌≤◌, ◌⊎◌, inl, inr, refl, ap, ◌∙◌, Bool, true, false, Option, none, some, List, [],
  ◌∷◌, arith, ◌&&◌, ◌||◌, not, if◌then◌else◌, truthy, ◌==◌, length, Bool-cases, Option-cases,
}
use kronosnet.State.{Handle}
use kronosnet.Dests.{
  DataDests, DestsResult, Filtered, find_dests, is_local, can_reach, unicast_loop, bcast_loop,
  get_data_dests, ehostdown,
}

-- a host that a packet is sent to over the network, and our own host with a loop link
abbrev pub remote_ok : Handle → ℕ → Bool
remote_ok knet_h id = elim (knet_h.host_index id) [ none ↦ false | some h ↦ can_reach knet_h h ]

abbrev pub local_ok : Handle → ℕ → Bool
local_ok knet_h id = elim (knet_h.host_index id) [ none ↦ false | some h ↦ is_local knet_h h ]

abbrev pub filter : (ℕ → Bool) → List ℕ → List ℕ
filter p [] = []
filter p (x ∷ xs) = if p x then x ∷ filter p xs else filter p xs

abbrev pub any : (ℕ → Bool) → List ℕ → Bool
any p [] = false
any p (x ∷ xs) = p x || any p xs

abbrev flag : Bool → ℕ
flag b = if b then 1 else 0

unicast_loop-filter :
    (knet_h : Handle) (ids : List ℕ) (send_local : Bool)
    → unicast_loop knet_h ids (flag send_local)
      ≡ (filter (remote_ok knet_h) ids, flag (send_local || any (local_ok knet_h) ids))
unfolding unicast_loop
unicast_loop-filter knet_h [] send_local = ground arith
unicast_loop-filter knet_h (id ∷ ids) send_local = elim (Option-cases (knet_h.host_index id)) [
  | inl e ↦ ground (arith, unicast_loop-filter knet_h ids send_local)
  | inr (host, e) ↦
      ground (arith, unicast_loop-filter knet_h ids true, unicast_loop-filter knet_h ids send_local)
]

bcast_loop-any :
    (knet_h : Handle) (ids : List ℕ) (bcast send_local : Bool)
    → bcast_loop knet_h ids (flag bcast) (flag send_local)
      ≡ (flag (bcast || any (remote_ok knet_h) ids), flag (send_local || any (local_ok knet_h) ids))
unfolding bcast_loop
bcast_loop-any knet_h [] bcast send_local = ground arith
bcast_loop-any knet_h (id ∷ ids) bcast send_local = elim (Option-cases (knet_h.host_index id)) [
  | inl e ↦ ground (arith, bcast_loop-any knet_h ids bcast send_local)
  | inr (host, e) ↦ ground (
    arith,
    bcast_loop-any knet_h ids (bcast || can_reach knet_h host) (send_local || is_local knet_h host),
  )
]

any-filter : (p : ℕ → Bool) (xs : List ℕ) → truthy (length (filter p xs)) ≡ any p xs
any-filter p [] = refl
any-filter p (x ∷ xs) = ground (arith, any-filter p xs)

pub length-filter : (p : ℕ → Bool) (xs : List ℕ) → length (filter p xs) ≤ length xs
length-filter p [] = omega arith
length-filter p (x ∷ xs) = ground (arith, length-filter p xs)

-- whether the filter makes the packet a unicast, and the hosts that it is for
abbrev pub is_unicast : Option Filtered → Bool
is_unicast none = false
is_unicast (some f) = elim f.bcast [ none ↦ false | some bcast ↦ not (truthy bcast) ]

abbrev pub asked : Handle → Option Filtered → List ℕ
asked knet_h none = knet_h.host_list
asked knet_h (some f) = if is_unicast (some f) then f.dst_host_ids else knet_h.host_list

abbrev pub Someone : Handle → List ℕ → Bool → Type 0
Someone knet_h ids b = (any (remote_ok knet_h) ids || any (local_ok knet_h) ids) ≡ b

-- Of the `hosts` asked for, what the code finds for a broadcast or a unicast.
pub record Finds (knet_h : Handle) (unicast : Bool) (hosts : List ℕ) (d : DataDests) : Type 0 where
  pub someone : Someone knet_h hosts true
  pub local : d.send_local ≡ (if any (local_ok knet_h) hosts then 1 else 0)
  pub bcast : d.bcast ≡ (if not unicast && any (remote_ok knet_h) hosts then 1 else 0)
  pub ids : d.dst_host_ids ≡ (if unicast then filter (remote_ok knet_h) hosts else [])

find_dests-bcast :
    (knet_h : Handle) (bcast : ℕ) (ids : List ℕ) (d : DataDests)
    → truthy bcast ≡ true
    → find_dests knet_h bcast ids ≡ DestsResult.dests d
    → Finds knet_h false knet_h.host_list d
unfolding find_dests
find_dests-bcast knet_h bcast ids d b e = record {
  someone = ground (arith, bcast_loop-any knet_h knet_h.host_list false false);
  local = ground (arith, bcast_loop-any knet_h knet_h.host_list false false);
  bcast = ground (arith, bcast_loop-any knet_h knet_h.host_list false false);
  ids = ground (arith, bcast_loop-any knet_h knet_h.host_list false false);
}

pub find_dests-unicast :
    (knet_h : Handle) (bcast : ℕ) (ids : List ℕ) (d : DataDests)
    → truthy bcast ≡ false
    → find_dests knet_h bcast ids ≡ DestsResult.dests d
    → Finds knet_h true ids d
unfolding find_dests
find_dests-unicast knet_h bcast ids d b e = record {
  someone = ground (arith, unicast_loop-filter knet_h ids false, any-filter (remote_ok knet_h) ids);
  local = ground (arith, unicast_loop-filter knet_h ids false);
  bcast = ground (arith, unicast_loop-filter knet_h ids false);
  ids = ground (arith, unicast_loop-filter knet_h ids false);
}

find_dests-down :
    (knet_h : Handle) (bcast : ℕ) (ids : List ℕ)
    → find_dests knet_h bcast ids ≡ DestsResult.error ehostdown
    → Someone knet_h (if truthy bcast then knet_h.host_list else ids) false
unfolding find_dests
find_dests-down knet_h bcast ids e = ground (
  arith,
  bcast_loop-any knet_h knet_h.host_list false false,
  unicast_loop-filter knet_h ids false,
  any-filter (remote_ok knet_h) ids,
)

-- What a call goes on with once the filter's answer passed the tests on it.
unfoldable pub Passes : Handle → Filtered → Bool → DestsResult → Type 0
Passes knet_h f is_sync r =
    (b : ℕ) × (f.bcast ≡ some b)
    × (find_dests knet_h b f.dst_host_ids ≡ r)
    × (is_sync ≡ true → (truthy b ≡ false) × (length f.dst_host_ids ≤ 1))

pub dests-Passes :
    (knet_h : Handle) (f : Filtered) (is_sync : Bool) (d : DataDests)
    → get_data_dests knet_h (some f) is_sync ≡ DestsResult.dests d
    → Passes knet_h f is_sync (DestsResult.dests d)
unfolding Passes get_data_dests
dests-Passes knet_h f is_sync d e = elim (Option-cases f.bcast) [
  | inl n ↦ ground arith
  | inr (b, at) ↦ (b, at, ground arith, λ sync. (ground arith, ground arith))
]

down-Passes :
    (knet_h : Handle) (f : Filtered) (is_sync : Bool)
    → get_data_dests knet_h (some f) is_sync ≡ DestsResult.error ehostdown
    → Passes knet_h f is_sync (DestsResult.error ehostdown)
unfolding Passes get_data_dests
down-Passes knet_h f is_sync e = elim (Option-cases f.bcast) [
  | inl n ↦ ground arith
  | inr (b, at) ↦ (b, at, ground arith, λ sync. (ground arith, ground arith))
]

dests-Finds :
    (knet_h : Handle) (filtered : Option Filtered) (is_sync : Bool) (d : DataDests)
    → get_data_dests knet_h filtered is_sync ≡ DestsResult.dests d
    → Finds knet_h (is_unicast filtered) (asked knet_h filtered) d
unfolding Passes
dests-Finds knet_h none is_sync d e =
    find_dests-bcast knet_h 1 [] d refl (unfold get_data_dests in e)
dests-Finds knet_h (some f) is_sync d e =
    let (b, at, found, sync) = dests-Passes knet_h f is_sync d e in
    elim (Bool-cases (truthy b)) [
      | inl t ↦ rw (at, t) (find_dests-bcast knet_h b f.dst_host_ids d t found)
      | inr t ↦ rw (at, t) (find_dests-unicast knet_h b f.dst_host_ids d t found)
    ]

down-Someone :
    (knet_h : Handle) (filtered : Option Filtered) (is_sync : Bool)
    → get_data_dests knet_h filtered is_sync ≡ DestsResult.error ehostdown
    → Someone knet_h (asked knet_h filtered) false
unfolding Passes
down-Someone knet_h none is_sync e = find_dests-down knet_h 1 [] (unfold get_data_dests in e)
down-Someone knet_h (some f) is_sync e =
    let (b, at, found, sync) = down-Passes knet_h f is_sync e in
    let down = find_dests-down knet_h b f.dst_host_ids found in
    elim (Bool-cases (truthy b)) [
      | inl t ↦ rw (at, t) (rw t at down)
      | inr t ↦ rw (at, t) (rw t at down)
    ]

-- the results that are right for the hosts asked for
abbrev pub IsFound : Handle → Option Filtered → DestsResult → Type 0
IsFound knet_h filtered (DestsResult.dests d) =
    Finds knet_h (is_unicast filtered) (asked knet_h filtered) d
IsFound knet_h filtered (DestsResult.error errno) =
    (errno ≢ ehostdown) ⊎ Someone knet_h (asked knet_h filtered) false

-- A packet goes over the network to exactly the known, reachable hosts of those it is for, our own
-- with a loop link left out, in the filter's order, and to the application of our own node if that
-- host is one of those; a broadcast is sent to the network if such a host exists. The call fails with
-- EHOSTDOWN only if this leaves nobody.
pub get_data_dests-IsFound :
    (knet_h : Handle) (filtered : Option Filtered) (is_sync : Bool)
    → IsFound knet_h filtered (get_data_dests knet_h filtered is_sync)
get_data_dests-IsFound knet_h filtered is_sync =
    by_result (get_data_dests knet_h filtered is_sync) refl
  where
    by_result :
        (r : DestsResult) → get_data_dests knet_h filtered is_sync ≡ r → IsFound knet_h filtered r
    by_result (DestsResult.dests d) e = dests-Finds knet_h filtered is_sync d e
    by_result (DestsResult.error errno) e = elim (Bool-cases (errno == ehostdown)) [
      | inl same ↦
          let at : errno ≡ ehostdown = ground arith in
          inr (down-Someone knet_h filtered is_sync (e ∙ ap DestsResult.error at))
      | inr other ↦ inl (ground arith)
    ]
