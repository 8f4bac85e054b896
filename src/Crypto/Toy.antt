-- ===== src/Crypto/Toy.antt =====
-- A cipher for the tests, and nodes with keys.
use kronosnet.Base.{
  ℕ, ◌≡◌, true, false, Option, none, some, List, [], ◌∷◌, arith, ◌==◌, if◌then◌else◌,
}
use kronosnet.State.{CryptoInstance, Handle}
use kronosnet.Samples.{node}
use kronosnet.Crypto.{Ops}
use kronosnet.Crypto.Rekey.{IsCipher}

-- A cipher that sends the key in front.
abbrev pub toy_decrypt : CryptoInstance → List ℕ → Option (List ℕ)
toy_decrypt inst [] = none
toy_decrypt inst (k ∷ m) = if k == inst.key then some m else none

abbrev pub toy_ops : Ops
toy_ops = record { crypt = λ inst m. some (inst.key ∷ m); decrypt = toy_decrypt }

toy_ops-opens :
    (i j : CryptoInstance) (m c : List ℕ)
    → some (i.key ∷ m) ≡ some c
    → (i.key == j.key) ≡ true
    → toy_decrypt j c ≡ some m
toy_ops-opens i j m [] e same = ground arith
toy_ops-opens i j m (k ∷ c) e same = ground arith

toy_ops-rejects :
    (i j : CryptoInstance) (m c : List ℕ)
    → some (i.key ∷ m) ≡ some c
    → (i.key == j.key) ≡ false
    → toy_decrypt j c ≡ none
toy_ops-rejects i j m [] e other = ground arith
toy_ops-rejects i j m (k ∷ c) e other = ground arith

pub toy_ops-IsCipher : IsCipher toy_ops
toy_ops-IsCipher = record { opens = toy_ops-opens; rejects = toy_ops-rejects }

abbrev pub instance_of : ℕ → CryptoInstance
instance_of key = record {
  model = 0;
  key = key;
  sec_block_size = 16;
  sec_hash_size = 32;
  sec_salt_size = 16;
}

-- a node without encryption, one that uses key 5, and one that uses key 4 and has loaded key 5
abbrev pub clear_node : Handle
clear_node = record node { sec_block_size = 0; sec_hash_size = 0; sec_salt_size = 0 }

abbrev pub sender : Handle
sender = record clear_node {
  crypto_in_use_config = 1;
  crypto_instance = λ n. if n == 1 then some (instance_of 5) else none;
}

abbrev pub receiver : Handle
receiver = record clear_node {
  crypto_instance =
      λ n. if n == 1 then some (instance_of 4) else (if n == 2 then some (instance_of 5) else none);
}
