-- ===== src/Acl/Spec.antt =====
-- What an access list decides (libknet/links_acl_ip.c:ipcheck_validate), and what an added entry
-- changes of it.
use kronosnet.Base.{
  ℕ, zero, suc, ◌+◌, ◌≡◌, ◌<◌, refl, inl, inr, ap, sym, ◌∙◌, Bool, true, false, Option, none, some,
  List, [], ◌∷◌, ◌++◌, arith, Bool-cases, All, length, if◌then◌else◌,
}
use kronosnet.Acl.{
  SockAddr, Entry, Rule, Outcome, matches, validate, insert, insert_walk, addip, new_entry,
}
use kronosnet.Acl.Order.{IsAddr, Matches, matches_iff}

-- The first entry that matches an address decides; without one the address is refused.
pub data Decides (check : SockAddr) : List Entry → Bool → Type 0 where
  default : Decides check [] false
  first : {e : Entry} {rest : List Entry} → Matches check e → Decides check (e ∷ rest) e.accept
  later :
      {e : Entry} {rest : List Entry} {b : Bool}
      → ¬ Matches check e
      → Decides check rest b
      → Decides check (e ∷ rest) b

abbrev pub AreAddrs : Entry → Type 0
AreAddrs e = IsAddr e.addr1 × IsAddr e.addr2

-- `ipcheck_validate` lets a packet pass as the documentation of the access lists says: the first entry
-- that contains its address decides, and an address in no entry is refused. The words of the
-- addresses have 32 bits.
pub validate-Decides :
    (check : SockAddr) (list : List Entry)
    → IsAddr check
    → All AreAddrs list
    → Decides check list (validate list check)
unfolding validate
validate-Decides check [] hc h = Decides.default
validate-Decides check (e ∷ rest) hc (h, hs) =
    let iff = matches_iff check e hc h.0 h.1 in
    elim (Bool-cases (matches check e)) [
      | inl is ↦ rw is (Decides.first (iff.0 is))
      | inr isnt ↦
          rw isnt (Decides.later (λ m. ground (arith, iff.1 m)) (validate-Decides check rest hc hs))
    ]

-- the first `n` elements, and the others
abbrev pub take {ℓ} : {A : Type ℓ} → ℕ → List A → List A
take n [] = []
take zero (x ∷ xs) = []
take (suc n) (x ∷ xs) = x ∷ take n xs

abbrev pub drop {ℓ} : {A : Type ℓ} → ℕ → List A → List A
drop n [] = []
drop zero (x ∷ xs) = x ∷ xs
drop (suc n) (x ∷ xs) = drop n xs

-- `x` inserted after the first `n` elements
abbrev pub insert_at {ℓ} : {A : Type ℓ} → ℕ → A → List A → List A
insert_at n x xs = take n xs ++ x ∷ drop n xs

-- Where `ipcheck_addip` puts an entry: first for 0, else two entries after the index.
abbrev pub landing : Option ℕ → List Entry → ℕ
landing none list = length list
landing (some zero) list = 0
landing (some (suc k)) list = suc (suc (suc k))

insert_at_end {ℓ} : {A : Type ℓ} (x : A) (xs : List A) → insert_at (length xs) x xs ≡ xs ++ x ∷ []
insert_at_end x [] = refl
insert_at_end x (y ∷ ys) = ap (λ l. y ∷ l) (insert_at_end x ys)

insert_walk-stop :
    (i : ℕ) (new h e : Entry) (rest : List Entry)
    → insert_walk (some i) i new h (e ∷ rest) ≡ h ∷ e ∷ new ∷ rest
unfolding insert_walk
insert_walk-stop i new h e rest = ground arith

insert_walk-step :
    (k i : ℕ) (new h e : Entry) (rest : List Entry)
    → i < k
    → insert_walk (some k) i new h (e ∷ rest) ≡ h ∷ insert_walk (some k) (i + 1) new e rest
unfolding insert_walk
insert_walk-step k i new h e rest lt = ground arith

insert_walk-insert_at :
    (k i : ℕ) (new h : Entry) (rest : List Entry)
    → insert_walk (some (i + k)) i new h rest ≡ h ∷ insert_at (suc k) new rest
unfolding insert_walk
insert_walk-insert_at k i new h [] = refl
insert_walk-insert_at zero i new h (e ∷ []) = ground arith
insert_walk-insert_at zero i new h (e ∷ f ∷ rest) = ground arith
insert_walk-insert_at (suc k) i new h (e ∷ rest) =
    insert_walk-step (i + suc k) i new h e rest (omega arith)
    ∙ ap (λ l. h ∷ l)
        (ap (λ j. insert_walk (some j) (i + 1) new e rest) (omega arith)
          ∙ insert_walk-insert_at k (i + 1) new e rest)

insert_walk-end :
    (i : ℕ) (new h : Entry) (rest : List Entry)
    → insert_walk none i new h rest ≡ (h ∷ rest) ++ new ∷ []
unfolding insert_walk
insert_walk-end i new h [] = refl
insert_walk-end i new h (e ∷ rest) = ap (λ l. h ∷ l) (insert_walk-end (i + 1) new e rest)

insert-walk :
    (k : ℕ) (new h : Entry) (rest : List Entry)
    → insert (some (suc k)) new (h ∷ rest) ≡ insert_walk (some (0 + suc k)) 0 new h rest
unfolding insert
insert-walk k new h rest = ground arith

pub insert-insert_at :
    (index : Option ℕ) (new : Entry) (list : List Entry)
    → insert index new list ≡ insert_at (landing index list) new list
unfolding insert
insert-insert_at index new [] = refl
insert-insert_at none new (h ∷ rest) =
    insert_walk-end 0 new h rest ∙ sym (insert_at_end new (h ∷ rest))
insert-insert_at (some zero) new (h ∷ rest) = refl
insert-insert_at (some (suc k)) new (h ∷ rest) =
    insert-walk k new h rest ∙ insert_walk-insert_at (suc k) 0 new h rest

-- the decision of the entries of `list` alone, `none` if none of them matches
abbrev pub decided : SockAddr → List Entry → Option Bool
decided check [] = none
decided check (e ∷ rest) = if matches check e then some e.accept else decided check rest

validate-insert_at :
    (n : ℕ) (new : Entry) (list : List Entry) (check : SockAddr)
    → validate (insert_at n new list) check ≡ elim (decided check (take n list)) [
      | some b ↦ b
      | none ↦ if matches check new then new.accept else validate list check
    ]
unfolding validate
validate-insert_at n new [] check = refl
validate-insert_at zero new (e ∷ rest) check = refl
validate-insert_at (suc n) new (e ∷ rest) check = elim (Bool-cases (matches check e)) [
  | inl is ↦ rw is refl
  | inr isnt ↦ ground (arith, validate-insert_at n new rest check)
]

pub addip_done :
    (list list' : List Entry) (index : Option ℕ) (r : Rule) (junk : SockAddr)
    → addip list index r junk true ≡ (Outcome.done, list')
    → list' ≡ insert index (new_entry r junk) list
unfolding addip
addip_done list list' index r junk e = ground arith

-- After an entry is added, an address that an entry before it matches is decided as before; else the
-- new entry decides if it matches, and otherwise nothing changes. The new entry is the first for
-- index 0, the last for a negative one, and else it stands behind the entry after the one that has
-- that index, or last if there are not so many.
pub validate-addip :
    (list list' : List Entry) (index : Option ℕ) (r : Rule) (junk check : SockAddr)
    → addip list index r junk true ≡ (Outcome.done, list')
    → validate list' check ≡ elim (decided check (take (landing index list) list)) [
      | some b ↦ b
      | none ↦ if matches check (new_entry r junk) then r.accept else validate list check
    ]
unfolding new_entry
validate-addip list list' index r junk check e =
    ap (λ l. validate l check)
      (addip_done list list' index r junk e ∙ insert-insert_at index (new_entry r junk) list)
    ∙ validate-insert_at (landing index list) (new_entry r junk) list check
