-- ===== src/Trigger/Restart.antt =====
-- The states of the chains in `start_watcher`, after streams that started and streams that failed.
use wavs.Prelude.{
  ◌≡◌, refl, sym, subst, Bool, true, false, Option, none, some, List, [], ◌∷◌, Bytes, bytes_eq,
  ◌==◌, if-both, arith, Bool-cases, inl, inr, eq_refl,
}
use wavs.Prelude.Map.{get, insert, get-insert}
use wavs.Types.Chain.{ChainKey, chain_key_eq}
use wavs.Types.ChainConfig.{AnyChainConfig, ChainConfigs, cosmos, evm, get_chain}
use wavs.Trigger.Commands.{
  TriggerCommand, kill, start_listening_chain, start_listening_cron, watch_evm_blocks,
  watch_evm_contract_events, start_listening_at_proto, start_listening_hypercore, manual_trigger,
}
use wavs.Trigger.Listening.{with_cosmos, with_evm}
use wavs.Trigger.Streams.{
  StreamStartState, waiting, connecting, connected, cosmos_source, evm_events, evm_blocks,
  ControllerCall, Attempt, Watcher, Flow, running, stopped, climb_error, missing_websocket,
  start_watcher, or_waiting, chain_state, set_chain, start_cron, start_at_proto, start_feed,
  started_evm, started_chain, start_chain, told, tell, command, enable_logs, toggle_block_height,
}

abbrev pub settled : StreamStartState → Bool
settled waiting = true
settled connecting = false
settled connected = true

-- No chain is left half started.
abbrev IsSettled : Watcher → Type 0
IsSettled w = (c : ChainKey) → settled (chain_state w c) ≡ true

abbrev Settles : Watcher × Flow → Type 0
Settles (w, running) = IsSettled w
Settles (w, stopped) = Unit
Settles (w, climb_error) = Unit
Settles (w, missing_websocket chain) = Unit

-- All but one chain.
abbrev SettledBut : Watcher → ChainKey → Type 0
SettledBut w chain = (c : ChainKey) → (chain == c) ≡ false → settled (chain_state w c) ≡ true

set-IsSettled :
    (w : Watcher) (chain : ChainKey) (s : StreamStartState)
    → settled s ≡ true
    → SettledBut w chain
    → IsSettled (set_chain chain s w)
set-IsSettled w chain s e h c = elim (Bool-cases (chain == c)) [
  | inl same ↦ ground (arith, get-insert chain c s w.chain_states, same, e)
  | inr other ↦ ground (arith, get-insert chain c s w.chain_states, other, h c other)
]

started-Settles :
    (w : Watcher) (a : Attempt) (chain : ChainKey) (o : Option AnyChainConfig)
    → SettledBut w chain
    → Settles (started_chain w a chain o)
started-Settles w a chain none h = set-IsSettled w chain waiting refl h
started-Settles w a chain (some (cosmos c)) h =
    if-both Settles a.client _ _
      (if-both IsSettled a.first_stream (with_cosmos w chain) (set_chain chain waiting w)
        (set-IsSettled (record w { streams = cosmos_source chain ∷ w.streams }) chain connected refl
          h)
        (set-IsSettled w chain waiting refl h))
      tt
started-Settles w a chain (some (evm c)) h = by_endpoints c.ws_endpoints
  where
    by_endpoints : (l : List Bytes) → Settles (started_evm w a chain l)
    by_endpoints [] = tt
    by_endpoints (x ∷ l) =
        if-both Settles a.first_stream _ _
          (if-both IsSettled a.second_stream (with_evm w chain) (set_chain chain waiting w)
            (set-IsSettled
              (record w {
                streams = evm_blocks chain ∷ evm_events chain ∷ w.streams;
                controllers = insert chain [] w.controllers;
              })
              chain connected refl h)
            (set-IsSettled w chain waiting refl h))
          (set-IsSettled w chain waiting refl h)

chain-Settles :
    (w : Watcher) (configs : ChainConfigs) (a : Attempt) (chain : ChainKey) (s : StreamStartState)
    → IsSettled w
    → Settles (start_chain w configs a chain s)
unfolding start_chain
chain-Settles w configs a chain connecting h = h
chain-Settles w configs a chain connected h = h
chain-Settles w configs a chain waiting h =
    started-Settles (set_chain chain connecting w) a chain (get_chain configs chain)
      (λ c other. ground (arith, get-insert chain c connecting w.chain_states, other, h c))

told-IsSettled :
    (w : Watcher) (chain : ChainKey) (call : ControllerCall) (o : Option (List ControllerCall))
    → IsSettled w
    → IsSettled (told w chain call o)
told-IsSettled w chain call none h = h
told-IsSettled w chain call (some calls) h = h

-- The commands for other streams leave the chains alone.
cron-chains :
    (w : Watcher) (b : Bool) (s : StreamStartState)
    → (start_cron w b s).chain_states ≡ w.chain_states
unfolding start_cron
cron-chains w true waiting = refl
cron-chains w false waiting = refl
cron-chains w b connecting = refl
cron-chains w b connected = refl

at_proto-chains :
    (w : Watcher) (b : Bool) (s : StreamStartState)
    → (start_at_proto w b s).chain_states ≡ w.chain_states
unfolding start_at_proto
at_proto-chains w true waiting = refl
at_proto-chains w false waiting = refl
at_proto-chains w b connecting = refl
at_proto-chains w b connected = refl

feed-chains :
    (w : Watcher) (b : Bool) (feed : Bytes) (s : StreamStartState)
    → (start_feed w b feed s).chain_states ≡ w.chain_states
unfolding start_feed
feed-chains w true feed waiting = refl
feed-chains w false feed waiting = refl
feed-chains w b feed connecting = refl
feed-chains w b feed connected = refl

same-IsSettled : (w w' : Watcher) → w'.chain_states ≡ w.chain_states → IsSettled w → IsSettled w'
same-IsSettled w w' e h c = subst (λ m. settled (or_waiting (get m c)) ≡ true) (sym e) (h c)

command-Settles :
    (w : Watcher) (configs : ChainConfigs) (networking : Bool) (a : Attempt) (c : TriggerCommand)
    → IsSettled w
    → Settles (command w configs networking a c)
unfolding command tell
command-Settles w configs n a kill h = tt
command-Settles w configs n a start_listening_cron h =
    if-both IsSettled n _ _
      (same-IsSettled w (start_cron w a.first_stream w.cron_state)
        (cron-chains w a.first_stream w.cron_state) h)
      h
command-Settles w configs n a start_listening_at_proto h =
    if-both IsSettled n _ _
      (same-IsSettled w (start_at_proto w a.first_stream w.at_proto_state)
        (at_proto-chains w a.first_stream w.at_proto_state) h)
      h
command-Settles w configs n a (start_listening_hypercore feed) h =
    if-both IsSettled n _ _
      (same-IsSettled w (start_feed w a.first_stream feed (or_waiting (get w.feed_states feed)))
        (feed-chains w a.first_stream feed (or_waiting (get w.feed_states feed))) h)
      h
command-Settles w configs n a (start_listening_chain chain) h =
    if-both Settles n _ _ (chain-Settles w configs a chain (chain_state w chain) h) h
command-Settles w configs n a (watch_evm_contract_events chain addresses hashes) h =
    told-IsSettled w chain (enable_logs addresses hashes) (get w.controllers chain) h
command-Settles w configs n a (watch_evm_blocks chain) h =
    told-IsSettled w chain (toggle_block_height true) (get w.controllers chain) h
command-Settles w configs n a (manual_trigger action) h = h

-- The watchers that still run after local commands.
pub data Runs : Watcher → Type 0 where
  begun : (w : Watcher) → w ≡ start_watcher → Runs w
  goes_on :
      (w w' : Watcher) (configs : ChainConfigs) (networking : Bool) (a : Attempt)
      (c : TriggerCommand)
      → Runs w
      → command w configs networking a c ≡ (w', running)
      → Runs w'

Runs-IsSettled : (w : Watcher) → Runs w → IsSettled w
unfolding get
Runs-IsSettled _ (begun w e) = subst IsSettled (sym e) (λ c. refl)
Runs-IsSettled _ (goes_on w w' configs n a c r e) =
    subst Settles e (command-Settles w configs n a c (Runs-IsSettled w r))

-- An EVM chain needs an endpoint.
abbrev pub has_endpoint : AnyChainConfig → Bool
has_endpoint (cosmos c) = true
has_endpoint (evm c) = elim c.ws_endpoints [ [] ↦ false | x ∷ l ↦ true ]

abbrev pub all_start : Attempt
all_start = record { client = true; first_stream = true; second_stream = true }

started-connects :
    (w : Watcher) (chain : ChainKey) (config : AnyChainConfig)
    → has_endpoint config ≡ true
    → let (w', flow) = started_chain w all_start chain (some config) in
      (flow ≡ running) × (chain_state w' chain ≡ connected)
started-connects w chain (cosmos c) h =
    (refl, ground (arith, get-insert chain chain connected w.chain_states, eq_refl chain))
started-connects w chain (evm c) h = by_endpoints c.ws_endpoints h
  where
    by_endpoints :
        (l : List Bytes)
        → elim l [ [] ↦ false | x ∷ l' ↦ true ] ≡ true
        → let (w', flow) = started_evm w all_start chain l in
          (flow ≡ running) × (chain_state w' chain ≡ connected)
    by_endpoints [] h' = absurd (ground arith)
    by_endpoints (x ∷ l) h' =
        (refl, ground (arith, get-insert chain chain connected w.chain_states, eq_refl chain))

connects :
    (w : Watcher) (configs : ChainConfigs) (chain : ChainKey) (config : AnyChainConfig)
    (s : StreamStartState)
    → chain_state w chain ≡ s
    → settled s ≡ true
    → get_chain configs chain ≡ some config
    → has_endpoint config ≡ true
    → let (w', flow) = start_chain w configs all_start chain s in
      (flow ≡ running) × (chain_state w' chain ≡ connected)
unfolding start_chain
connects w configs chain config connecting e h g n = absurd (ground arith)
connects w configs chain config connected e h g n = (refl, e)
connects w configs chain config waiting e h g n =
    rw g (started-connects (set_chain chain connecting w) chain config n)

-- While the watcher runs, whatever failed before: with networking, a command to listen to a chain that
-- has a config, with an endpoint if it is EVM, leaves it running and connected to the chain, provided
-- that the client and the streams start this time.
pub command-connects :
    (w : Watcher) (configs : ChainConfigs) (chain : ChainKey) (config : AnyChainConfig)
    → Runs w
    → get_chain configs chain ≡ some config
    → has_endpoint config ≡ true
    → let (w', flow) = command w configs true all_start (start_listening_chain chain) in
      (flow ≡ running) × (chain_state w' chain ≡ connected)
unfolding command
command-connects w configs chain config r g n =
    connects w configs chain config (chain_state w chain) refl (Runs-IsSettled w r chain) g n
