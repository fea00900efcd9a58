-- ===== src/Trigger/Streams.antt =====
-- `start_watcher` of trigger.rs: the local commands, and the streams that they start. Whether a client
-- or a stream starts is the network's answer, an `Attempt`. A command runs to its end before the next.
use wavs.Prelude.{
  Bool, true, Option, none, some, List, [], ◌∷◌, ◌++◌, Bytes, bytes_eq, if◌then◌else◌,
}
use wavs.Prelude.Map.{Map, get, insert}
use wavs.Types.Chain.{ChainKey, chain_key_eq}
use wavs.Types.ChainConfig.{AnyChainConfig, ChainConfigs, cosmos, evm, get_chain}
use wavs.Trigger.Commands.{
  TriggerCommand, kill, start_listening_chain, start_listening_cron, watch_evm_blocks,
  watch_evm_contract_events, start_listening_at_proto, start_listening_hypercore, manual_trigger,
}

pub data StreamStartState : Type 0 where
  waiting connecting connected : StreamStartState

-- What a stream listens to.
pub data Source : Type 0 where
  cron_source : Source
  at_proto_source : Source
  feed_source : Bytes → Source
  cosmos_source : ChainKey → Source
  evm_events : ChainKey → Source
  evm_blocks : ChainKey → Source

-- What a controller of `EvmTriggerStreams` was told.
pub data ControllerCall : Type 0 where
  enable_logs : List Bytes → List Bytes → ControllerCall
  toggle_block_height : Bool → ControllerCall

pub record Attempt : Type 0 where
  pub client : Bool
  pub first_stream : Bool
  pub second_stream : Bool

pub record Watcher : Type 0 where
  pub streams : List Source
  pub chain_states : Map ChainKey StreamStartState
  pub cron_state : StreamStartState
  pub at_proto_state : StreamStartState
  pub feed_states : Map Bytes StreamStartState
  pub controllers : Map ChainKey (List ControllerCall)

-- The loop goes on, ends, or returns an error.
pub data Flow : Type 0 where
  running stopped : Flow
  climb_error : Flow
  missing_websocket : ChainKey → Flow

abbrev pub start_watcher : Watcher
start_watcher = record {
  streams = [];
  chain_states = [];
  cron_state = waiting;
  at_proto_state = waiting;
  feed_states = [];
  controllers = [];
}

abbrev pub or_waiting : Option StreamStartState → StreamStartState
or_waiting none = waiting
or_waiting (some s) = s

abbrev pub chain_state : Watcher → ChainKey → StreamStartState
chain_state w chain = or_waiting (get w.chain_states chain)

abbrev pub feed_state : Watcher → Bytes → StreamStartState
feed_state w feed = or_waiting (get w.feed_states feed)

abbrev pub set_chain : ChainKey → StreamStartState → Watcher → Watcher
set_chain chain s w = record w { chain_states = insert chain s w.chain_states }

abbrev pub set_feed : Bytes → StreamStartState → Watcher → Watcher
set_feed feed s w = record w { feed_states = insert feed s w.feed_states }

-- `StartListeningCron`.
unfoldable pub start_cron : Watcher → Bool → StreamStartState → Watcher
start_cron w starts waiting =
    if starts
    then record w { streams = cron_source ∷ w.streams; cron_state = connected }
    else record w { cron_state = waiting }
start_cron w starts connecting = w
start_cron w starts connected = w

unfoldable pub start_at_proto : Watcher → Bool → StreamStartState → Watcher
start_at_proto w starts waiting =
    if starts
    then record w { streams = at_proto_source ∷ w.streams; at_proto_state = connected }
    else record w { at_proto_state = waiting }
start_at_proto w starts connecting = w
start_at_proto w starts connected = w

unfoldable pub start_feed : Watcher → Bool → Bytes → StreamStartState → Watcher
start_feed w starts feed waiting =
    let w1 = set_feed feed connecting w in
    if starts
    then set_feed feed connected (record w1 { streams = feed_source feed ∷ w1.streams })
    else set_feed feed waiting w1
start_feed w starts feed connecting = w
start_feed w starts feed connected = w

abbrev pub started_cosmos : Watcher → Attempt → ChainKey → Watcher × Flow
started_cosmos w a chain =
    if a.client
    then (
      if a.first_stream
          then set_chain chain connected (record w { streams = cosmos_source chain ∷ w.streams })
          else set_chain chain waiting w,
      running,
    )
    else (w, climb_error)

abbrev pub started_evm : Watcher → Attempt → ChainKey → List Bytes → Watcher × Flow
started_evm w a chain [] = (w, missing_websocket chain)
started_evm w a chain (endpoint ∷ endpoints) =
    if a.first_stream
    then (
      if a.second_stream
          then set_chain chain connected (record w {
            streams = evm_blocks chain ∷ evm_events chain ∷ w.streams;
            controllers = insert chain [] w.controllers;
          })
          else set_chain chain waiting w,
      running,
    )
    else (set_chain chain waiting w, running)

abbrev pub started_chain : Watcher → Attempt → ChainKey → Option AnyChainConfig → Watcher × Flow
started_chain w a chain none = (set_chain chain waiting w, running)
started_chain w a chain (some (cosmos c)) = started_cosmos w a chain
started_chain w a chain (some (evm c)) = started_evm w a chain c.ws_endpoints

-- `StartListeningChain`.
unfoldable pub start_chain :
    Watcher → ChainConfigs → Attempt → ChainKey → StreamStartState → Watcher × Flow
unfolding get_chain
start_chain w configs a chain waiting =
    started_chain (set_chain chain connecting w) a chain (get_chain configs chain)
start_chain w configs a chain connecting = (w, running)
start_chain w configs a chain connected = (w, running)

-- A controller that is not there is an error that is only logged.
abbrev pub told : Watcher → ChainKey → ControllerCall → Option (List ControllerCall) → Watcher
told w chain call none = w
told w chain call (some calls) = record w {
  controllers = insert chain (calls ++ call ∷ []) w.controllers;
}

unfoldable pub tell : Watcher → ChainKey → ControllerCall → Watcher
tell w chain call = told w chain call (get w.controllers chain)

-- The `match command`; `networking` is false where `disable_networking` is set.
unfoldable pub command : Watcher → ChainConfigs → Bool → Attempt → TriggerCommand → Watcher × Flow
unfolding start_cron start_at_proto start_feed start_chain tell
command w configs networking a kill = (w, stopped)
command w configs networking a start_listening_cron =
    (if networking then start_cron w a.first_stream w.cron_state else w, running)
command w configs networking a start_listening_at_proto =
    (if networking then start_at_proto w a.first_stream w.at_proto_state else w, running)
command w configs networking a (start_listening_hypercore feed) =
    (if networking then start_feed w a.first_stream feed (feed_state w feed) else w, running)
command w configs networking a (start_listening_chain chain) =
    if networking then start_chain w configs a chain (chain_state w chain) else (w, running)
command w configs networking a (watch_evm_contract_events chain addresses hashes) =
    (tell w chain (enable_logs addresses hashes), running)
command w configs networking a (watch_evm_blocks chain) =
    (tell w chain (toggle_block_height true), running)
command w configs networking a (manual_trigger action) = (w, running)
