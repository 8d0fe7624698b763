-- ===== src/Address/Tests.antt =====
-- The theorems on addresses at the P2WPKH address of BIP 173.
use simplepool.Prelude.{ℕ, ◌≤◌, ◌≡◌, some, List, length}
use simplepool.Address.Script.{coinbase_address_network}
use simplepool.Address.Shapes.{IsStandard, Names, address_to_script-IsStandard, network_of_script}
use simplepool.Window.Tests.{no_hash, alice, alice_script, alice_resolves}

address_to_script-IsStandard_example : IsStandard alice_script × (length alice_script ≤ 64)
address_to_script-IsStandard_example =
    address_to_script-IsStandard no_hash alice 64 alice_script alice_resolves

network_of_script_example :
    (net : List ℕ) × (coinbase_address_network no_hash alice ≡ some net) × Names alice net
network_of_script_example = network_of_script no_hash alice 64 alice_script alice_resolves
