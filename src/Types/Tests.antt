-- ===== src/Types/Tests.antt =====
-- Examples of a chain key with its text, and of chain configs.
use wavs.Prelude.{
  ◌≡◌, ◌⊎◌, ◌&&◌, ◌==◌, refl, true, false, none, some, [], bytes, bytes_eq, ℕ_discrete,
  if◌then◌else◌,
}
use wavs.Prelude.Result.{ok, err}
use wavs.Types.Chain.{
  ChainKey, chain_key_eq, is_namespace, is_id, new, validate, to_string, namespace_char, id_char,
  all_chars,
}
use wavs.Types.ChainConfig.{
  ChainConfigs, ChainConfigError, add_chain, get_chain, evm, EvmChainConfig,
}
use wavs.Types.ChainConfigs.{is_free, fits, add_chain_lem}
use wavs.Types.ChainText.{new-to_string}

abbrev mainnet : ChainKey
mainnet = record { namespace = bytes "evm"; id = bytes "1" }

evm_is_namespace : is_namespace mainnet.namespace ≡ true
unfolding is_namespace all_chars namespace_char ℕ_discrete
evm_is_namespace = refl

one_is_id : is_id mainnet.id ≡ true
unfolding is_id all_chars id_char ℕ_discrete
one_is_id = refl

new-to_string_example :
    (new (to_string mainnet) ≡ ok mainnet) × (validate (to_string mainnet) ≡ ok tt)
new-to_string_example = new-to_string mainnet evm_is_namespace one_is_id

parsed_mainnet : new (bytes "evm:1") ≡ ok mainnet
unfolding to_string
parsed_mainnet = (new-to_string mainnet evm_is_namespace one_is_id).0

abbrev endpoint : EvmChainConfig
endpoint = record {
  chain_id = bytes "1";
  ws_endpoints = [];
  http_endpoint = none;
  faucet_endpoint = none;
  ws_priority_endpoint_index = none;
}

abbrev no_chains : ChainConfigs
no_chains = record { cosmos_chains = []; evm_chains = []; dev_chains = [] }

add_chain_lem_example :
    ((configs : ChainConfigs) × (add_chain no_chains mainnet (evm endpoint) ≡ ok configs)
      × (is_free (get_chain no_chains mainnet) ≡ true)
      × (fits mainnet (evm endpoint) ≡ true)
      × ((k : ChainKey)
          → get_chain configs k
            ≡ (if mainnet == k then some (evm endpoint) else get_chain no_chains k)))
    ⊎ ((e : ChainConfigError) × (add_chain no_chains mainnet (evm endpoint) ≡ err e)
        × ((is_free (get_chain no_chains mainnet) && fits mainnet (evm endpoint)) ≡ false))
add_chain_lem_example = add_chain_lem no_chains mainnet (evm endpoint)
