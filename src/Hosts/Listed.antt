-- ===== src/Hosts/Listed.antt =====
-- The list of the hosts and their index agree (libknet/host.c).
use kronosnet.Base.{
  ℕ, ◌≡◌, inl, inr, refl, sym, subst, ap, ◌∙◌, fun_ext, Bool, true, false, Option, none, some, List,
  [], ◌∷◌, arith, ◌==◌, truthy, if◌then◌else◌, update, member, IsDistinct, Bool-cases, Option-cases,
}
use kronosnet.State.{Host, Handle}
use kronosnet.Hosts.{
  eexist, host_list_update, make_host, new_link, host_add, is_configured, unlink, host_remove,
  get_host_list, set_policy,
}

abbrev pub is_some : Option Host → Bool
is_some none = false
is_some (some host) = true

-- The list holds each host of the index once and no other, and so does what the user is told.
pub record IsListed (knet_h : Handle) : Type 0 where
  pub distinct : IsDistinct knet_h.host_list
  pub listed : (id : ℕ) → member id knet_h.host_list ≡ is_some (knet_h.host_index id)
  pub told : get_host_list knet_h ≡ knet_h.host_list

member-unlink :
    (x id : ℕ) (ids : List ℕ)
    → IsDistinct ids
    → member x (unlink id ids) ≡ (if x == id then false else member x ids)
unfolding unlink
member-unlink x id [] d = ground arith
member-unlink x id (y ∷ ys) (new, d) = ground (arith, member-unlink x id ys d, new)

unlink-IsDistinct : (id : ℕ) (ids : List ℕ) → IsDistinct ids → IsDistinct (unlink id ids)
unfolding unlink
unlink-IsDistinct id [] d = tt
unlink-IsDistinct id (y ∷ ys) (new, d) = elim (Bool-cases (y == id)) [
  | inl same ↦ rw (same) d
  | inr other ↦
      rw (other) (ground (arith, member-unlink y id ys d, new, other), unlink-IsDistinct id ys d)
]

host_add-IsListed :
    (knet_h : Handle) (id locked : ℕ) (granted : Bool)
    → IsListed knet_h
    → IsListed (host_add knet_h id locked granted).1
unfolding host_add host_list_update get_host_list
host_add-IsListed knet_h id locked granted l = elim (Bool-cases (truthy locked)) [
  | inl busy ↦ rw (busy) l
  | inr free ↦ elim (Option-cases (knet_h.host_index id)) [
    | inr (host, known) ↦ rw (free, known) l
    | inl new ↦ elim (Bool-cases granted) [
      | inr refused ↦ rw (free, new, refused) l
      | inl given ↦
          rw (free, new, given)
            (record {
              distinct = (ground (arith, l.listed id, new), l.distinct);
              listed = λ x. ground (arith, l.listed x);
              told = refl;
            })
    ]
  ]
]

host_remove-IsListed :
    (knet_h : Handle) (id locked : ℕ) → IsListed knet_h → IsListed (host_remove knet_h id locked).1
unfolding host_remove host_list_update get_host_list
host_remove-IsListed knet_h id locked l = elim (Bool-cases (truthy locked)) [
  | inl busy ↦ rw (busy) l
  | inr free ↦ elim (Option-cases (knet_h.host_index id)) [
    | inl gone ↦ rw (free, gone) l
    | inr (host, known) ↦ elim (Bool-cases (is_configured 8 0 host)) [
      | inl used ↦ rw (free, known, used) l
      | inr unused ↦
          rw (free, known, unused)
            (record {
              distinct = unlink-IsDistinct id knet_h.host_list l.distinct;
              listed =
                  λ x. ground (arith, l.listed x, member-unlink x id knet_h.host_list l.distinct);
              told = refl;
            })
    ]
  ]
]

set_policy-IsListed :
    (knet_h : Handle) (id policy locked update_err : ℕ)
    → IsListed knet_h
    → IsListed (set_policy knet_h id policy locked update_err).1
unfolding set_policy get_host_list
set_policy-IsListed knet_h id policy locked update_err l = record {
  distinct = ground (arith, l.distinct);
  listed = λ x. ground (arith, l.listed x, l.listed id);
  told = ground (arith, l.told);
}

-- the calls of the API that change the hosts, with what they meet
pub data HostCall : Type 0 where
  add : ℕ → ℕ → Bool → HostCall
  remove : ℕ → ℕ → HostCall
  policy : ℕ → ℕ → ℕ → ℕ → HostCall

abbrev pub host_call : Handle → HostCall → Handle
host_call knet_h (HostCall.add id locked granted) = (host_add knet_h id locked granted).1
host_call knet_h (HostCall.remove id locked) = (host_remove knet_h id locked).1
host_call knet_h (HostCall.policy id p locked update_err) =
    (set_policy knet_h id p locked update_err).1

abbrev pub host_calls : Handle → List HostCall → Handle
host_calls knet_h [] = knet_h
host_calls knet_h (c ∷ calls) = host_calls (host_call knet_h c) calls

host_call-IsListed :
    (knet_h : Handle) (c : HostCall) → IsListed knet_h → IsListed (host_call knet_h c)
host_call-IsListed knet_h (HostCall.add id locked granted) l =
    host_add-IsListed knet_h id locked granted l
host_call-IsListed knet_h (HostCall.remove id locked) l = host_remove-IsListed knet_h id locked l
host_call-IsListed knet_h (HostCall.policy id p locked update_err) l =
    set_policy-IsListed knet_h id p locked update_err l

-- If the list of hosts and the index agree, they do after any calls that add and remove hosts and set
-- their policy, successful or not: the list, which is what the user is told, holds the hosts of the index
-- and no other, each once.
pub host_calls-IsListed :
    (knet_h : Handle) (calls : List HostCall) → IsListed knet_h → IsListed (host_calls knet_h calls)
host_calls-IsListed knet_h [] l = l
host_calls-IsListed knet_h (c ∷ calls) l =
    host_calls-IsListed (host_call knet_h c) calls (host_call-IsListed knet_h c l)

unconfigured : (knet_h : Handle) (id : ℕ) → is_configured 8 0 (make_host knet_h id) ≡ false
unfolding is_configured make_host new_link
unconfigured knet_h id = refl

restored :
    (f : ℕ → Option Host) (id : ℕ) (h : Host)
    → f id ≡ none
    → update (update f id (some h)) id none ≡ f
restored f id h e = fun_ext λ i. ground (arith, e)

abbrev with_host : Handle → ℕ → Handle
with_host knet_h id = record knet_h {
  host_index = update knet_h.host_index id (some (make_host knet_h id));
  host_list = id ∷ knet_h.host_list;
  host_ids = id ∷ knet_h.host_list;
}

host_add-new :
    (knet_h : Handle) (id : ℕ)
    → knet_h.host_index id ≡ none
    → host_add knet_h id 0 true ≡ (0, with_host knet_h id)
unfolding host_add host_list_update
host_add-new knet_h id new = rw (new) refl

found :
    (knet_h : Handle) (id : ℕ) → (with_host knet_h id).host_index id ≡ some (make_host knet_h id)
found knet_h id = ground arith

host_remove-with_host :
    (knet_h : Handle) (id : ℕ)
    → knet_h.host_index id ≡ none
    → host_remove (with_host knet_h id) id 0 ≡ (0, record knet_h { host_ids = knet_h.host_list })
unfolding host_remove host_list_update unlink
host_remove-with_host knet_h id new =
    let same : (id == id) ≡ true = ground arith in
    let gone : unlink id (id ∷ knet_h.host_list) ≡ knet_h.host_list = ground arith in
    rw (same, unconfigured knet_h id)
      (ap
          (λ (ids : List ℕ). (
            0,
            record knet_h {
              host_index =
                  update (update knet_h.host_index id (some (make_host knet_h id))) id none;
              host_list = ids;
              host_ids = ids;
            },
          ))
          gone
        ∙ ap
            (λ (f : ℕ → Option Host).
              (0, record knet_h { host_index = f; host_ids = knet_h.host_list }))
            (restored knet_h.host_index id (make_host knet_h id) new))

-- Adding a host that is not known, with memory and the lock, and removing it gives back the handle as it
-- was, if its list and index agree; adding it twice is refused and changes nothing more.
pub host_remove-host_add :
    (knet_h : Handle) (id : ℕ)
    → IsListed knet_h
    → knet_h.host_index id ≡ none
    → let added = (host_add knet_h id 0 true).1 in
      (host_remove added id 0 ≡ (0, knet_h)) × (host_add added id 0 true ≡ (eexist, added))
unfolding get_host_list
host_remove-host_add knet_h id l new =
    let again : host_add (with_host knet_h id) id 0 true ≡ (eexist, with_host knet_h id) =
      unfold host_add in rw (found knet_h id) refl in
    subst
      (λ (r : ℕ × Handle).
        (host_remove r.1 id 0 ≡ (0, knet_h)) × (host_add r.1 id 0 true ≡ (eexist, r.1)))
      (sym (host_add-new knet_h id new))
      (
        host_remove-with_host knet_h id new
            ∙ ap (λ (ids : List ℕ). (0, record knet_h { host_ids = ids })) (sym l.told),
        again,
      )
