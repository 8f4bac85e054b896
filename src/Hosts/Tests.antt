-- ===== src/Hosts/Tests.antt =====
-- The theorems on the hosts at concrete inputs, and runs of the code.
use kronosnet.Base.{◌≡◌, refl, true, List, [], ◌∷◌, arith}
use kronosnet.Samples.{node}
use kronosnet.Hosts.{eexist, ebusy, host_add, is_configured, host_remove, get_host_list}
use kronosnet.Hosts.Listed.{
  IsListed, HostCall, host_calls, host_calls-IsListed, host_remove-host_add,
}

node-IsListed : IsListed node
unfolding get_host_list
node-IsListed = record { distinct = (refl, tt); listed = λ id. ground arith; told = refl }

abbrev test_calls : List HostCall
test_calls = HostCall.add 5 0 true ∷ HostCall.add 5 0 true ∷ HostCall.remove 2 0 ∷ []

host_calls-IsListed_example : IsListed (host_calls node test_calls)
host_calls-IsListed_example = host_calls-IsListed node test_calls node-IsListed

host_remove-host_add_example :
    (host_remove (host_add node 5 0 true).1 5 0 ≡ (0, node))
    × (host_add (host_add node 5 0 true).1 5 0 true ≡ (eexist, (host_add node 5 0 true).1))
host_remove-host_add_example = host_remove-host_add node 5 node-IsListed refl

-- The links of host 2 are configured.
host_remove_run : (host_remove node 2 0).0 ≡ ebusy
unfolding host_remove is_configured
host_remove_run = refl
