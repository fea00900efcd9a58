-- ===== src/Types/ChainConfig.antt =====
-- packages/types/src/chain_config.rs: the configs of the chains, by namespace. A gas price (an f32) is
-- its bit pattern.
use wavs.Prelude.{
  ℕ, Option, none, some, List, [], ◌++◌, map, Bytes, bytes, bytes_eq, bytes_lt, ◌==◌, if◌then◌else◌,
}
use wavs.Prelude.Map.{Map, get, insert_by}
use wavs.Prelude.Result.{Result, ok, err}
use wavs.Types.Chain.{ChainKey}

pub record CosmosChainConfig : Type 0 where
  pub chain_id : Bytes
  pub bech32_prefix : Bytes
  pub rpc_endpoint : Option Bytes
  pub grpc_endpoint : Option Bytes
  pub gas_price : ℕ
  pub gas_denom : Bytes
  pub faucet_endpoint : Option Bytes

pub record EvmChainConfig : Type 0 where
  pub chain_id : Bytes
  pub ws_endpoints : List Bytes
  pub http_endpoint : Option Bytes
  pub faucet_endpoint : Option Bytes
  pub ws_priority_endpoint_index : Option ℕ

pub data AnyChainConfig : Type 0 where
  cosmos : CosmosChainConfig → AnyChainConfig
  evm : EvmChainConfig → AnyChainConfig

pub record CosmosChainConfigBuilder : Type 0 where
  pub bech32_prefix : Bytes
  pub rpc_endpoint : Option Bytes
  pub grpc_endpoint : Option Bytes
  pub gas_price : ℕ
  pub gas_denom : Bytes
  pub faucet_endpoint : Option Bytes

pub record EvmChainConfigBuilder : Type 0 where
  pub ws_endpoints : List Bytes
  pub http_endpoint : Option Bytes
  pub faucet_endpoint : Option Bytes
  pub ws_priority_endpoint_index : Option ℕ

abbrev pub cosmos_build : CosmosChainConfigBuilder → Bytes → CosmosChainConfig
cosmos_build c id = record {
  chain_id = id;
  bech32_prefix = c.bech32_prefix;
  rpc_endpoint = c.rpc_endpoint;
  grpc_endpoint = c.grpc_endpoint;
  gas_price = c.gas_price;
  gas_denom = c.gas_denom;
  faucet_endpoint = c.faucet_endpoint;
}

abbrev pub evm_build : EvmChainConfigBuilder → Bytes → EvmChainConfig
evm_build c id = record {
  chain_id = id;
  ws_endpoints = c.ws_endpoints;
  http_endpoint = c.http_endpoint;
  faucet_endpoint = c.faucet_endpoint;
  ws_priority_endpoint_index = c.ws_priority_endpoint_index;
}

-- The builders that `add_chain` makes.
abbrev pub cosmos_builder : CosmosChainConfig → CosmosChainConfigBuilder
cosmos_builder c = record {
  bech32_prefix = c.bech32_prefix;
  rpc_endpoint = c.rpc_endpoint;
  grpc_endpoint = c.grpc_endpoint;
  gas_price = c.gas_price;
  gas_denom = c.gas_denom;
  faucet_endpoint = c.faucet_endpoint;
}

abbrev pub evm_builder : EvmChainConfig → EvmChainConfigBuilder
evm_builder c = record {
  ws_endpoints = c.ws_endpoints;
  http_endpoint = c.http_endpoint;
  faucet_endpoint = c.faucet_endpoint;
  ws_priority_endpoint_index = c.ws_priority_endpoint_index;
}

abbrev pub cosmos_namespace : Bytes
cosmos_namespace = bytes "cosmos"

abbrev pub evm_namespace : Bytes
evm_namespace = bytes "evm"

abbrev pub dev_namespace : Bytes
dev_namespace = bytes "dev"

abbrev pub cosmos_key : CosmosChainConfig → ChainKey
cosmos_key c = record { namespace = cosmos_namespace; id = c.chain_id }

abbrev pub evm_key : EvmChainConfig → ChainKey
evm_key c = record { namespace = evm_namespace; id = c.chain_id }

abbrev pub config_key : AnyChainConfig → ChainKey
config_key (cosmos c) = cosmos_key c
config_key (evm c) = evm_key c

unfoldable pub chain_id : AnyChainConfig → Bytes
chain_id (cosmos c) = c.chain_id
chain_id (evm c) = c.chain_id

pub data ChainConfigError : Type 0 where
  expected_evm_chain expected_cosmos_chain : ChainConfigError
  duplicate_chain : ChainKey → ChainConfigError
  invalid_namespace_for_cosmos : Bytes → ChainConfigError
  invalid_namespace_for_evm : Bytes → ChainConfigError
  invalid_namespace : Bytes → ChainConfigError
  id_mismatch : Bytes → Bytes → ChainConfigError

unfoldable pub to_cosmos_config : AnyChainConfig → Result ChainConfigError CosmosChainConfig
to_cosmos_config (cosmos c) = ok c
to_cosmos_config (evm c) = err expected_cosmos_chain

unfoldable pub to_evm_config : AnyChainConfig → Result ChainConfigError EvmChainConfig
to_evm_config (evm c) = ok c
to_evm_config (cosmos c) = err expected_evm_chain

pub record ChainConfigs : Type 0 where
  pub cosmos_chains : Map Bytes CosmosChainConfigBuilder
  pub evm_chains : Map Bytes EvmChainConfigBuilder
  pub dev_chains : Map Bytes AnyChainConfig

abbrev pub built_cosmos : Bytes → Option CosmosChainConfigBuilder → Option AnyChainConfig
built_cosmos id none = none
built_cosmos id (some c) = some (cosmos (cosmos_build c id))

abbrev pub built_evm : Bytes → Option EvmChainConfigBuilder → Option AnyChainConfig
built_evm id none = none
built_evm id (some c) = some (evm (evm_build c id))

unfoldable pub get_chain : ChainConfigs → ChainKey → Option AnyChainConfig
get_chain configs key =
    if key.namespace == cosmos_namespace
    then built_cosmos key.id (get configs.cosmos_chains key.id)
    else if key.namespace == evm_namespace
    then built_evm key.id (get configs.evm_chains key.id)
    else if key.namespace == dev_namespace
    then get configs.dev_chains key.id
    else none

abbrev pub keys_in : {V : Type 0} → Bytes → Map Bytes V → List ChainKey
keys_in namespace m = map (λ e. record { namespace = namespace; id = e.0 }) m

unfoldable pub all_chain_keys : ChainConfigs → List ChainKey
all_chain_keys configs =
    keys_in evm_namespace configs.evm_chains
    ++ (keys_in cosmos_namespace configs.cosmos_chains ++ keys_in dev_namespace configs.dev_chains)

unfoldable pub chain_keys : ChainConfigs → Bytes → List ChainKey
chain_keys configs namespace =
    if namespace == cosmos_namespace
    then keys_in namespace configs.cosmos_chains
    else if namespace == evm_namespace
    then keys_in namespace configs.evm_chains
    else if namespace == dev_namespace
    then keys_in namespace configs.dev_chains
    else []

abbrev pub add_evm : ChainConfigs → ChainKey → AnyChainConfig → Result ChainConfigError ChainConfigs
add_evm configs key (cosmos c) = err (invalid_namespace_for_evm key.namespace)
add_evm configs key (evm c) =
    if c.chain_id == key.id
    then ok (record configs {
      evm_chains = insert_by bytes_lt key.id (evm_builder c) configs.evm_chains;
    })
    else err (id_mismatch key.id c.chain_id)

abbrev pub add_cosmos :
    ChainConfigs → ChainKey → AnyChainConfig → Result ChainConfigError ChainConfigs
add_cosmos configs key (evm c) = err (invalid_namespace_for_cosmos key.namespace)
add_cosmos configs key (cosmos c) =
    if c.chain_id == key.id
    then ok (record configs {
      cosmos_chains = insert_by bytes_lt key.id (cosmos_builder c) configs.cosmos_chains;
    })
    else err (id_mismatch key.id c.chain_id)

abbrev pub add_new :
    ChainConfigs
    → ChainKey
    → AnyChainConfig
    → Option AnyChainConfig
    → Result ChainConfigError ChainConfigs
add_new configs key config (some old) = err (duplicate_chain key)
add_new configs key config none =
    if key.namespace == dev_namespace
    then ok (record configs { dev_chains = insert_by bytes_lt key.id config configs.dev_chains })
    else if key.namespace == evm_namespace
    then add_evm configs key config
    else if key.namespace == cosmos_namespace
    then add_cosmos configs key config
    else err (invalid_namespace key.namespace)

unfoldable pub add_chain :
    ChainConfigs → ChainKey → AnyChainConfig → Result ChainConfigError ChainConfigs
unfolding get_chain
add_chain configs key config = add_new configs key config (get_chain configs key)
