-- ===== src/Acl.antt =====
-- Access lists of a link: libknet/links_acl_ip.c, and of libknet/netutils.c what it calls. The chain
-- of heap entries from `access_list_match_entry_head` is a list, a pointer to an entry its position.
pub mod Order
pub mod Spec
pub mod Edit
mod Tests
use Prim.Native.Nat.{bit_and}
use kronosnet.Base.{
  ℕ, zero, suc, ◌+◌, ◌*◌, ◌^◌, Bool, true, false, not, ◌&&◌, ◌||◌, Option, none, some, List, [],
  ◌∷◌, ltb, leb, ◌==◌, if◌then◌else◌,
}

-- struct sockaddr_storage: the family, the port, and the 32-bit words from byte 4 on in host order.
-- Word 0 is the address of AF_INET or the flow info of AF_INET6, whose address is words 1 to 4 and
-- whose scope is word 5.
pub record SockAddr : Type 0 where
  pub family : ℕ
  pub port : ℕ
  pub word : ℕ → ℕ

abbrev pub af_inet : ℕ
af_inet = 2

-- `sockaddr_len`, as a number of words after the port
unfoldable pub sockaddr_words : SockAddr → ℕ
sockaddr_words ss = if ss.family == af_inet then 3 else 6

unfoldable pub copy_sockaddr : SockAddr → SockAddr
copy_sockaddr ss = record ss { word = λ i. if ltb i (sockaddr_words ss) then ss.word i else 0 }

pub data CheckType : Type 0 where
  address : CheckType
  mask : CheckType
  range : CheckType

abbrev pub same_type : CheckType → CheckType → Bool
same_type CheckType.address CheckType.address = true
same_type CheckType.mask CheckType.mask = true
same_type CheckType.range CheckType.range = true
same_type a b = false

-- struct ip_acl_match_entry; `accept` is whether acceptreject is CHECK_ACCEPT
pub record Entry : Type 0 where
  pub type : CheckType
  pub accept : Bool
  pub addr1 : SockAddr
  pub addr2 : SockAddr

unfoldable pub ip_matches_v4 : SockAddr → Entry → Bool
ip_matches_v4 check e = elim e.type [
  | CheckType.address ↦ check.word 0 == e.addr1.word 0
  | CheckType.mask ↦ bit_and (check.word 0) (e.addr2.word 0) == e.addr1.word 0
  | CheckType.range ↦ leb (e.addr1.word 0) (check.word 0) && leb (check.word 0) (e.addr2.word 0)
]

-- the halves of an IPv6 address
unfoldable pub addr_high : SockAddr → ℕ
addr_high ss = ss.word 1 * 2 ^ 32 + ss.word 2

unfoldable pub addr_low : SockAddr → ℕ
addr_low ss = ss.word 3 * 2 ^ 32 + ss.word 4

-- `ip6addr_cmp(a, b)`: whether it is 1, 0 or -1
pub data Cmp : Type 0 where
  above : Cmp
  equal : Cmp
  below : Cmp

unfoldable pub ip6addr_cmp : SockAddr → SockAddr → Cmp
ip6addr_cmp a b =
    if ltb (addr_high b) (addr_high a)
    then Cmp.above
    else (if ltb (addr_high a) (addr_high b)
        then Cmp.below
        else (if ltb (addr_low b) (addr_low a)
            then Cmp.above
            else (if ltb (addr_low a) (addr_low b) then Cmp.below else Cmp.equal)))

abbrev pub at_least : Cmp → Bool
at_least Cmp.below = false
at_least c = true

abbrev pub at_most : Cmp → Bool
at_most Cmp.above = false
at_most c = true

-- `n` words from index `i` on, as memcmp compares them
unfoldable pub same_words : ℕ → ℕ → SockAddr → SockAddr → Bool
same_words zero i a b = true
same_words (suc n) i a b = a.word i == b.word i && same_words n (i + 1) a b

-- the loop of the mask test, with `n` words left, from the last one down
unfoldable pub masked_words : ℕ → SockAddr → Entry → Bool
masked_words zero check e = true
masked_words (suc n) check e =
    let rest = masked_words n check e in
    if bit_and (check.word (suc n)) (e.addr2.word (suc n)) == e.addr1.word (suc n)
    then rest
    else false

unfoldable pub ip_matches_v6 : SockAddr → Entry → Bool
ip_matches_v6 check e = elim e.type [
  | CheckType.address ↦ same_words 4 1 check e.addr1
  | CheckType.mask ↦ masked_words 4 check e
  | CheckType.range ↦ at_least (ip6addr_cmp check e.addr1) && at_most (ip6addr_cmp check e.addr2)
]

-- `match_fn`
unfoldable pub matches : SockAddr → Entry → Bool
matches check e = if check.family == af_inet then ip_matches_v4 check e else ip_matches_v6 check e

unfoldable pub validate : List Entry → SockAddr → Bool
validate [] check = false
validate (e ∷ rest) check = if matches check e then e.accept else validate rest check

unfoldable pub rmall : List Entry → List Entry
rmall [] = []
rmall (e ∷ rest) = rmall rest

-- memcmp of the first `sockaddr_len(ss)` bytes of two addresses
unfoldable pub same_sockaddr : SockAddr → SockAddr → SockAddr → Bool
same_sockaddr ss a b =
    a.family == b.family && a.port == b.port && same_words (sockaddr_words ss) 0 a b

-- the arguments that name an entry; `ss2` may be NULL
pub record Rule : Type 0 where
  pub ss1 : SockAddr
  pub ss2 : Option SockAddr
  pub type : CheckType
  pub accept : Bool

-- the condition in the loop of `ipcheck_findmatch`
unfoldable pub is_entry : Rule → Entry → Bool
is_entry r e =
    same_sockaddr r.ss1 e.addr1 r.ss1
    && (same_type e.type CheckType.address
        || not (same_type e.type CheckType.address)
          && elim r.ss2 [ none ↦ false | some ss2 ↦ same_sockaddr r.ss1 e.addr2 ss2 ])
    && same_type e.type r.type
    && (if e.accept then r.accept else not r.accept)

unfoldable pub findmatch : Rule → List Entry → Option ℕ
findmatch r [] = none
findmatch r (e ∷ rest) =
    if is_entry r e then some 0 else elim (findmatch r rest) [ none ↦ none | some i ↦ some (suc i) ]

-- 0, or -1 with an errno
pub data Outcome : Type 0 where
  done : Outcome
  error : ℕ → Outcome

abbrev pub enoent : ℕ
enoent = 2

abbrev pub enomem : ℕ
enomem = 12

abbrev pub eexist : ℕ
eexist = 17

-- the loop of `ipcheck_rmip`, which unlinks the entry at a position
unfoldable pub unlink : ℕ → List Entry → List Entry
unlink i [] = []
unlink zero (e ∷ rest) = rest
unlink (suc i) (e ∷ rest) = e ∷ unlink i rest

unfoldable pub rmip : List Entry → Rule → Outcome × List Entry
rmip list r = elim (findmatch r list) [
  | none ↦ (Outcome.error enoent, list)
  | some i ↦ (Outcome.done, unlink i list)
]

-- `junk` is what malloc leaves in `addr2` if there is no `ss2`.
unfoldable pub new_entry : Rule → SockAddr → Entry
new_entry r junk = record {
  type = r.type;
  accept = r.accept;
  addr1 = copy_sockaddr r.ss1;
  addr2 = elim r.ss2 [ none ↦ junk | some ss2 ↦ copy_sockaddr ss2 ];
}

-- The index of an insertion, `none` for a negative one.
abbrev pub is_at : Option ℕ → ℕ → Bool
is_at none i = false
is_at (some k) i = i == k

-- The walk of `ipcheck_addip` from entry `h` with `rest` after it, and the insertion after the entry
-- where it stops.
unfoldable pub insert_walk : Option ℕ → ℕ → Entry → Entry → List Entry → List Entry
insert_walk index i new h [] = h ∷ new ∷ []
insert_walk index i new h (e ∷ rest) =
    let walked = insert_walk index (i + 1) new e rest in
    if is_at index i then h ∷ e ∷ new ∷ rest else h ∷ walked

unfoldable pub insert : Option ℕ → Entry → List Entry → List Entry
insert index new [] = new ∷ []
insert index new (h ∷ rest) =
    if is_at index 0 then new ∷ h ∷ rest else insert_walk index 0 new h rest

-- `ipcheck_addip`; `granted` is whether malloc returns memory.
unfoldable pub addip : List Entry → Option ℕ → Rule → SockAddr → Bool → Outcome × List Entry
addip list index r junk granted = elim (findmatch r list) [
  | some i ↦ (Outcome.error eexist, list)
  | none ↦
      if granted
      then (Outcome.done, insert index (new_entry r junk) list)
      else (Outcome.error enomem, list)
]
