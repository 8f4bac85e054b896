-- ===== src/Acl/Tests.antt =====
-- The theorems on access lists at concrete inputs, and runs of the code.
use kronosnet.Base.{
  ℕ, ◌≡◌, refl, true, false, none, some, List, [], ◌∷◌, Bool, Option, ◌+◌, ◌<◌, ◌^◌, if◌then◌else◌,
  ◌==◌, inl, arith,
}
use kronosnet.Acl.Order.{IsAddr}
use kronosnet.Acl.{
  findmatch, is_entry, same_sockaddr, same_words, sockaddr_words, copy_sockaddr, insert,
  ip_matches_v4, ip_matches_v6, ip6addr_cmp, addr_high, addr_low, SockAddr, Entry, Rule, CheckType,
  Outcome, validate, addip, rmip, new_entry, matches, eexist, rmall,
}
use kronosnet.Acl.Spec.{AreAddrs, Decides, validate-Decides}
use kronosnet.Acl.Edit.{rmip-addip}

-- 10.0.0.`n`, port 0
abbrev host_addr : ℕ → SockAddr
host_addr n = record { family = 2; port = 0; word = λ i. if i == 0 then 167772160 + n else 0 }

-- fd00::`n`
abbrev v6_addr : ℕ → SockAddr
v6_addr n = record {
  family = 10;
  port = 0;
  word = λ i. if i == 1 then 4244635648 else (if i == 4 then n else 0);
}

abbrev reject_one : Rule
reject_one = record { ss1 = host_addr 1; ss2 = none; type = CheckType.address; accept = false }

abbrev accept_few : Rule
accept_few = record {
  ss1 = host_addr 0;
  ss2 = some (host_addr 9);
  type = CheckType.range;
  accept = true;
}

abbrev accept_v6 : Rule
accept_v6 = record {
  ss1 = v6_addr 2;
  ss2 = some (v6_addr 7);
  type = CheckType.range;
  accept = true;
}

abbrev junk : SockAddr
junk = record { family = 7; port = 7; word = λ _. 7 }

abbrev one_entry : List Entry
one_entry = new_entry accept_few junk ∷ []

abbrev two_entries : List Entry
two_entries = new_entry reject_one junk ∷ one_entry

abbrev one_v6 : List Entry
one_v6 = new_entry accept_v6 junk ∷ []

v6_addr-IsAddr : (n : ℕ) → n < 2 ^ 32 → IsAddr (v6_addr n)
v6_addr-IsAddr n h i = ground arith

new_entry-AreAddrs : AreAddrs (new_entry accept_v6 junk)
unfolding new_entry copy_sockaddr sockaddr_words
new_entry-AreAddrs = ((λ i. ground arith), (λ i. ground arith))

validate-Decides_example : Decides (v6_addr 5) one_v6 (validate one_v6 (v6_addr 5))
validate-Decides_example =
    validate-Decides (v6_addr 5) one_v6 (v6_addr-IsAddr 5 (omega arith)) (new_entry-AreAddrs, tt)

added : addip one_entry (some 0) reject_one junk true ≡ (Outcome.done, two_entries)
unfolding addip findmatch is_entry same_sockaddr same_words sockaddr_words new_entry copy_sockaddr
    insert
added = refl

rmip-addip_example :
    (rmip two_entries reject_one ≡ (Outcome.done, one_entry))
    × ((again : Option ℕ) (junk' : SockAddr) (granted : Bool)
        → addip two_entries again reject_one junk' granted ≡ (Outcome.error eexist, two_entries))
rmip-addip_example = rmip-addip one_entry two_entries (some 0) reject_one junk (inl refl) added

validate_run :
    (validate two_entries (host_addr 1) ≡ false)
    × (validate two_entries (host_addr 2) ≡ true)
    × (validate two_entries (host_addr 10) ≡ false)
    × (validate one_v6 (v6_addr 7) ≡ true)
    × (validate one_v6 (v6_addr 8) ≡ false)
unfolding validate matches ip_matches_v4 ip_matches_v6 ip6addr_cmp addr_high addr_low new_entry
    copy_sockaddr sockaddr_words
validate_run = (refl, refl, refl, refl, refl)

rmall_run : rmall two_entries ≡ []
unfolding rmall
rmall_run = refl
