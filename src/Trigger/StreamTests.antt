-- ===== src/Trigger/StreamTests.antt =====
-- Examples of the streams of the watcher: a chain that does not start at first.
use wavs.Prelude.{
  ◌≡◌, refl, true, false, some, none, [], ◌∷◌, bytes, bytes_eq, Bytes-discrete, ℕ_discrete,
}
use wavs.Prelude.Map.{get}
use wavs.Types.Chain.{ChainKey, chain_key_eq}
use wavs.Types.ChainConfig.{ChainConfigs, get_chain, evm, EvmChainConfig}
use wavs.Scheduler.Block.{block_interval_state}
use wavs.Trigger.Commands.{start_listening_chain}
use wavs.Trigger.Streams.{Watcher, running, chain_state, connected, command, start_watcher, Attempt}
use wavs.Trigger.Listening.{begun, done, IsListening, Reaches-IsListening}
use wavs.Trigger.Restart
use wavs.Trigger.Restart.{Runs, goes_on, all_start, command-connects}

abbrev endpoint : EvmChainConfig
endpoint = record {
  chain_id = bytes "1";
  ws_endpoints = bytes "ws" ∷ [];
  http_endpoint = none;
  faucet_endpoint = none;
  ws_priority_endpoint_index = none;
}

abbrev configs : ChainConfigs
configs = record {
  cosmos_chains = [];
  evm_chains = [];
  dev_chains = (bytes "1", evm endpoint) ∷ [];
}

abbrev dev : ChainKey
dev = record { namespace = bytes "dev"; id = bytes "1" }

its_config : get_chain configs dev ≡ some (evm endpoint)
unfolding get_chain get Bytes-discrete ℕ_discrete
its_config = refl

-- The first attempt starts no stream.
abbrev offline : Attempt
offline = record { client = true; first_stream = false; second_stream = false }

abbrev after_failure : Watcher
after_failure = (command start_watcher configs true offline (start_listening_chain dev)).0

failed_once :
    command start_watcher configs true offline (start_listening_chain dev)
    ≡ (after_failure, running)
unfolding command get_chain get Bytes-discrete ℕ_discrete
failed_once = refl

Reaches-IsListening_example : IsListening after_failure
Reaches-IsListening_example = Reaches-IsListening after_failure (
    done start_watcher after_failure configs true offline (start_listening_chain dev)
      (begun start_watcher refl) refl)

command-connects_example :
    let (w', flow) = command after_failure configs true all_start (start_listening_chain dev) in
    (flow ≡ running) × (chain_state w' dev ≡ connected)
command-connects_example =
    command-connects after_failure configs dev (evm endpoint)
      (goes_on start_watcher after_failure configs true offline (start_listening_chain dev)
        (Restart.begun start_watcher refl) failed_once)
      its_config refl
