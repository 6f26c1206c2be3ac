-- ===== src/Config.antt =====
-- config/config.go: the chain's constants and its default configuration.
use chainlang.Prelude.{ℕ, ◌*◌, List, [], ◌∷◌, ◌++◌, Bytes, replicate}

abbrev pub decimals : ℕ
decimals = 6

abbrev pub total_supply : ℕ
total_supply = 21_000_000_000 * 1_000_000

abbrev pub min_fee : ℕ
min_fee = 100

abbrev pub max_block_size : ℕ
max_block_size = 1_000_000

abbrev pub block_time_target_seconds : ℕ
block_time_target_seconds = 4

abbrev pub min_stake : ℕ
min_stake = 5_000_000 * 1_000_000

-- A Go map from address text to amount. The list is the order in which one `range` over the map
-- yields the entries.
abbrev pub GenesisAllocation : Type 0
GenesisAllocation = List (Bytes × ℕ)

pub record ValidatorGenesis : Type 0 where
  pub address : Bytes
  pub stake : ℕ

pub record ChainConfig : Type 0 where
  pub total_supply_units : ℕ
  pub decimal_places : ℕ
  pub least_fee : ℕ
  pub least_stake : ℕ
  pub block_size_limit : ℕ
  pub genesis : GenesisAllocation
  pub genesis_validators : List ValidatorGenesis

-- 39 digits `0` and a last digit, in ASCII
abbrev pub well_known_address_hex : ℕ → Bytes
well_known_address_hex digit = replicate 39 48 ++ digit ∷ []

abbrev pub treasury_addr_hex : Bytes
treasury_addr_hex = well_known_address_hex 49

abbrev pub staking_addr_hex : Bytes
staking_addr_hex = well_known_address_hex 50

abbrev pub distribution_addr_hex : Bytes
distribution_addr_hex = well_known_address_hex 51

unfoldable pub default_chain_config : ChainConfig
default_chain_config = record {
  total_supply_units = total_supply;
  decimal_places = decimals;
  least_fee = min_fee;
  least_stake = min_stake;
  block_size_limit = max_block_size;
  genesis =
      (treasury_addr_hex, 10_000_000_000 * 1_000_000)
      ∷ (staking_addr_hex, 5_000_000_000 * 1_000_000)
      ∷ (distribution_addr_hex, 6_000_000_000 * 1_000_000)
      ∷ [];
  genesis_validators = [];
}

-- `P2PConfig`, which no code reads.
pub record P2pConfig : Type 0 where
  pub listen_addr : Bytes
  pub seeds : List Bytes
  pub max_peers : ℕ

-- ":3030"
abbrev default_p2p_config : P2pConfig
default_p2p_config = record {
  listen_addr = b':' ∷ b'3' ∷ b'0' ∷ b'3' ∷ b'0' ∷ [];
  seeds = [];
  max_peers = 50;
}
