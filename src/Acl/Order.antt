-- ===== src/Acl/Order.antt =====
-- The tests of one entry (libknet/links_acl_ip.c:ip_matches_v4, ip_matches_v6, ip6addr_cmp) in terms
-- of addresses as 32-bit and 128-bit numbers.
use Prim.Native.Nat.{bit_and}
use kronosnet.Base.{
  ℕ, ◌+◌, ◌*◌, ◌^◌, ◌≤◌, ◌<◌, ◌≡◌, ◌↔◌, inl, inr, true, ◌==◌, arith, Bool-cases, if◌then◌else◌,
}
use kronosnet.Acl.{
  SockAddr, addr_high, addr_low, ip6addr_cmp, at_least, at_most, same_words, masked_words, Entry,
  CheckType, af_inet, matches, ip_matches_v4, ip_matches_v6,
}

-- 32-bit words
abbrev pub IsAddr : SockAddr → Type 0
IsAddr ss = (i : ℕ) → ss.word i < 2 ^ 32

-- the address of an AF_INET6 as a number
abbrev pub number : SockAddr → ℕ
number ss = ((ss.word 1 * 2 ^ 32 + ss.word 2) * 2 ^ 32 + ss.word 3) * 2 ^ 32 + ss.word 4

module _ (a b : SockAddr) (ha : IsAddr a) (hb : IsAddr b) where
  ip6addr_cmp-at_least : (at_least (ip6addr_cmp a b) ≡ true) ↔ (number b ≤ number a)
  unfolding ip6addr_cmp addr_high addr_low
  ip6addr_cmp-at_least = ground (arith, ha 1, ha 2, ha 3, ha 4, hb 1, hb 2, hb 3, hb 4)

  ip6addr_cmp-at_most : (at_most (ip6addr_cmp a b) ≡ true) ↔ (number a ≤ number b)
  unfolding ip6addr_cmp addr_high addr_low
  ip6addr_cmp-at_most = ground (arith, ha 1, ha 2, ha 3, ha 4, hb 1, hb 2, hb 3, hb 4)

  same_words-number : (same_words 4 1 a b ≡ true) ↔ (number a ≡ number b)
  unfolding same_words
  same_words-number = ground (arith, ha 1, ha 2, ha 3, ha 4, hb 1, hb 2, hb 3, hb 4)

-- word `i` of an address lies under a mask
abbrev pub Masked : SockAddr → Entry → ℕ → Type 0
Masked check e i = bit_and (check.word i) (e.addr2.word i) ≡ e.addr1.word i

-- What an entry is documented to match: its address, the network of its mask, or its range.
abbrev pub Matches4 : SockAddr → Entry → CheckType → Type 0
Matches4 check e CheckType.address = check.word 0 ≡ e.addr1.word 0
Matches4 check e CheckType.mask = Masked check e 0
Matches4 check e CheckType.range = (e.addr1.word 0 ≤ check.word 0) × (check.word 0 ≤ e.addr2.word 0)

abbrev pub Matches6 : SockAddr → Entry → CheckType → Type 0
Matches6 check e CheckType.address = number check ≡ number e.addr1
Matches6 check e CheckType.mask =
    Masked check e 1 × Masked check e 2 × Masked check e 3 × Masked check e 4
Matches6 check e CheckType.range = (number e.addr1 ≤ number check) × (number check ≤ number e.addr2)

abbrev pub Matches : SockAddr → Entry → Type 0
Matches check e =
    if check.family == af_inet then Matches4 check e e.type else Matches6 check e e.type

ip_matches_v4_iff :
    (check : SockAddr) (e : Entry) (t : CheckType)
    → (ip_matches_v4 check (record e { type = t }) ≡ true) ↔ Matches4 check e t
unfolding ip_matches_v4
ip_matches_v4_iff check e CheckType.address = ground arith
ip_matches_v4_iff check e CheckType.mask = ground arith
ip_matches_v4_iff check e CheckType.range = ground arith

module _ (check : SockAddr) (e : Entry) (hc : IsAddr check) (h1 : IsAddr e.addr1)
    (h2 : IsAddr e.addr2) where
  ip_matches_v6_iff :
      (t : CheckType) → (ip_matches_v6 check (record e { type = t }) ≡ true) ↔ Matches6 check e t
  unfolding ip_matches_v6 masked_words
  ip_matches_v6_iff CheckType.address = same_words-number check e.addr1 hc h1
  ip_matches_v6_iff CheckType.mask = ground arith
  ip_matches_v6_iff CheckType.range =
      ground
        (arith, ip6addr_cmp-at_least check e.addr1 hc h1, ip6addr_cmp-at_most check e.addr2 hc h2)

  pub matches_iff : (matches check e ≡ true) ↔ Matches check e
  unfolding matches
  matches_iff = elim (Bool-cases (check.family == af_inet)) [
    | inl v4 ↦ rw v4 (ip_matches_v4_iff check e e.type)
    | inr v6 ↦ rw v6 (ip_matches_v6_iff e.type)
  ]
