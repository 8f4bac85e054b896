-- ===== src/Acl/Edit.antt =====
-- Adding and removing entries of an access list (libknet/links_acl_ip.c:ipcheck_addip, ipcheck_rmip).
use kronosnet.Base.{
  ℕ, zero, suc, ◌+◌, ◌≡◌, ◌⊎◌, refl, inl, inr, ap, sym, ◌∙◌, ap₂, subst, not, ◌&&◌, ◌||◌, Bool,
  true, false, Option, none, some, List, [], ◌∷◌, arith, if◌then◌else◌,
}
use kronosnet.Acl.{
  SockAddr, Entry, Rule, CheckType, Outcome, sockaddr_words, copy_sockaddr, same_sockaddr,
  same_words, is_entry, findmatch, unlink, same_type, rmip, addip, new_entry, eexist,
}
use kronosnet.Acl.Spec.{insert_at, landing, insert-insert_at, addip_done}

-- A rule that the link API lets through: a mask or a range has a second address. It is of the same
-- family as the first, which the API checks for a range only.
abbrev pub IsRule : Rule → Type 0
IsRule r =
    (r.type ≡ CheckType.address)
    ⊎ ((ss2 : SockAddr) × (r.ss2 ≡ some ss2) × (sockaddr_words ss2 ≡ sockaddr_words r.ss1))

same_words_refl : (n i : ℕ) (a : SockAddr) → same_words n i a a ≡ true
unfolding same_words
same_words_refl zero i a = refl
same_words_refl (suc n) i a = ground (arith, same_words_refl n (i + 1) a)

same_sockaddr-copy :
    (ss a : SockAddr)
    → sockaddr_words a ≡ sockaddr_words ss
    → same_sockaddr ss (copy_sockaddr a) a ≡ true
unfolding same_sockaddr same_words copy_sockaddr sockaddr_words
same_sockaddr-copy ss a h = ground arith

same_type_refl : (t : CheckType) → same_type t t ≡ true
same_type_refl CheckType.address = refl
same_type_refl CheckType.mask = refl
same_type_refl CheckType.range = refl

-- the middle test of `is_entry` for an entry that was made from the rule
second_copy :
    (r : Rule) (junk : SockAddr)
    → IsRule r
    → (same_type r.type CheckType.address
        || not (same_type r.type CheckType.address) && elim r.ss2 [
          | none ↦ false
          | some ss2 ↦ same_sockaddr r.ss1 (new_entry r junk).addr2 ss2
        ])
      ≡ true
unfolding new_entry
second_copy r junk (inl h) = rw h refl
second_copy r junk (inr (ss2, h, k)) =
    rw (h, copied) (or_not (same_type r.type CheckType.address) (same_sockaddr-copy r.ss1 ss2 k))
  where
    copied : (new_entry r junk).addr2 ≡ copy_sockaddr ss2
    copied = rw h refl

    or_not : (a : Bool) {b : Bool} → b ≡ true → (a || not a && b) ≡ true
    or_not a e = ground arith

is_entry-new_entry : (r : Rule) (junk : SockAddr) → IsRule r → is_entry r (new_entry r junk) ≡ true
unfolding is_entry new_entry
is_entry-new_entry r junk h =
    ap₂ ◌&&◌ (ap₂ ◌&&◌ (ap₂ ◌&&◌ first_copy (second_copy r junk h)) (same_type_refl r.type))
      (same_accept r.accept)
  where
    first_copy : same_sockaddr r.ss1 (copy_sockaddr r.ss1) r.ss1 ≡ true
    first_copy = same_sockaddr-copy r.ss1 r.ss1 refl

    same_accept : (b : Bool) → (if b then b else not b) ≡ true
    same_accept b = ground arith

-- the position where a rule is found, and what unlinking it leaves
Restores : Rule → List Entry → List Entry → Type 0
Restores r list' list = (i : ℕ) × (findmatch r list' ≡ some i) × (unlink i list' ≡ list)

Restores-head :
    (r : Rule) (new : Entry) (list : List Entry)
    → is_entry r new ≡ true
    → Restores r (new ∷ list) list
unfolding Restores findmatch unlink
Restores-head r new list own = (0, rw own refl, refl)

Restores-tail :
    (r : Rule) (e : Entry) (list' list : List Entry)
    → is_entry r e ≡ false
    → Restores r list' list
    → Restores r (e ∷ list') (e ∷ list)
unfolding Restores findmatch unlink
Restores-tail r e list' list other (i, found, left) =
    (suc i, rw (other, found) refl, ap (λ l. e ∷ l) left)

findmatch-none :
    (r : Rule) (e : Entry) (rest : List Entry)
    → findmatch r (e ∷ rest) ≡ none
    → (is_entry r e ≡ false) × (findmatch r rest ≡ none)
unfolding findmatch
findmatch-none r e rest h = ground arith

Restores-insert_at :
    (n : ℕ) (r : Rule) (new : Entry) (list : List Entry)
    → is_entry r new ≡ true
    → findmatch r list ≡ none
    → Restores r (insert_at n new list) list
Restores-insert_at n r new [] own absent = Restores-head r new [] own
Restores-insert_at zero r new (e ∷ rest) own absent = Restores-head r new (e ∷ rest) own
Restores-insert_at (suc n) r new (e ∷ rest) own absent =
    let (other, absent') = findmatch-none r e rest absent in
    Restores-tail r e _ rest other (Restores-insert_at n r new rest own absent')

addip_absent :
    (list list' : List Entry) (index : Option ℕ) (r : Rule) (junk : SockAddr)
    → addip list index r junk true ≡ (Outcome.done, list')
    → findmatch r list ≡ none
unfolding addip
addip_absent list list' index r junk e = ground arith

found_lem :
    (list' list : List Entry) (r : Rule)
    → Restores r list' list
    → (rmip list' r ≡ (Outcome.done, list))
      × ((index : Option ℕ) (junk : SockAddr) (granted : Bool)
          → addip list' index r junk granted ≡ (Outcome.error eexist, list'))
unfolding Restores rmip addip
found_lem list' list r (i, found, left) = (
  rw (found, rmip) (ap (λ l. (Outcome.done, l)) left),
  λ index junk granted. rw (found, addip) refl,
)

-- A rule that was added, at any index, is refused as existing when it is added again, and removing
-- it brings the list back as it was. A mask or range has a second address of the same length.
pub rmip-addip :
    (list list' : List Entry) (index : Option ℕ) (r : Rule) (junk : SockAddr)
    → IsRule r
    → addip list index r junk true ≡ (Outcome.done, list')
    → (rmip list' r ≡ (Outcome.done, list))
      × ((again : Option ℕ) (junk' : SockAddr) (granted : Bool)
          → addip list' again r junk' granted ≡ (Outcome.error eexist, list'))
rmip-addip list list' index r junk h e = found_lem list' list r (
    subst (λ l. Restores r l list)
      (sym (addip_done list list' index r junk e ∙ insert-insert_at index (new_entry r junk) list))
      (Restores-insert_at (landing index list) r (new_entry r junk) list
        (is_entry-new_entry r junk h) (addip_absent list list' index r junk e)))
