-- ===== src/Trigger/Listening.antt =====
-- The streams of `start_watcher`: how often each source is listened to, beside its state.
pub mod Sources
pub use Sources.{IsListening, with_cosmos, with_evm, count, on}
use Sources.{
  feed-IsListening, cron-IsListening, at_proto-IsListening, unset-IsListening, started-IsListening,
}
use wavs.Prelude.{
  ℕ, suc, ◌+◌, ◌≡◌, refl, sym, ap, subst, Bool, true, false, Option, none, some, List, [], ◌∷◌,
  ◌++◌, Bytes, bytes_eq, ◌==◌, if◌then◌else◌, if-both, arith, eq_refl,
}
use wavs.Prelude.Map.{get, insert, get-insert}
use wavs.Types.Chain.{ChainKey, chain_key_eq}
use wavs.Types.ChainConfig.{AnyChainConfig, ChainConfigs, cosmos, evm, get_chain}
use wavs.Trigger.Commands.{
  TriggerCommand, kill, start_listening_chain, start_listening_cron, watch_evm_blocks,
  watch_evm_contract_events, start_listening_at_proto, start_listening_hypercore, manual_trigger,
}
use wavs.Trigger.Streams.{
  StreamStartState, waiting, connecting, connected, Source, cron_source, at_proto_source,
  feed_source, cosmos_source, evm_events, evm_blocks, ControllerCall, Attempt, Watcher, Flow,
  start_watcher, chain_state, feed_state, set_chain, start_cron, start_at_proto, start_feed,
  started_evm, started_chain, start_chain, told, tell, command, enable_logs, toggle_block_height,
}

chain-IsListening :
    (w : Watcher) (configs : ChainConfigs) (a : Attempt) (chain : ChainKey) (s : StreamStartState)
    → chain_state w chain ≡ s
    → IsListening w
    → IsListening (start_chain w configs a chain s).0
unfolding start_chain
chain-IsListening w configs a chain connecting e h = h
chain-IsListening w configs a chain connected e h = h
chain-IsListening w configs a chain waiting e h =
    started-IsListening (set_chain chain connecting w) a chain (get_chain configs chain)
      (ground (arith, get-insert chain chain connecting w.chain_states, eq_refl chain))
      (unset-IsListening w chain connecting (ap on e) refl h)

told-IsListening :
    (w : Watcher) (chain : ChainKey) (call : ControllerCall) (o : Option (List ControllerCall))
    → get w.controllers chain ≡ o
    → IsListening w
    → IsListening (told w chain call o)
told-IsListening w chain call none e h = h
told-IsListening w chain call (some calls) e h = record {
  cron_once = h.cron_once;
  at_proto_once = h.at_proto_once;
  feed_once = h.feed_once;
  chain_once = h.chain_once;
  paired = h.paired;
  controlled = λ c. ground (
    arith,
    get-insert chain c (calls ++ call ∷ []) w.controllers,
    h.controlled c,
    h.controlled chain,
    e,
  );
}

command-IsListening :
    (w : Watcher) (configs : ChainConfigs) (networking : Bool) (a : Attempt) (c : TriggerCommand)
    → IsListening w
    → IsListening (command w configs networking a c).0
unfolding command tell
command-IsListening w configs n a kill h = h
command-IsListening w configs n a start_listening_cron h =
    if-both IsListening n _ _ (cron-IsListening w a.first_stream w.cron_state refl h) h
command-IsListening w configs n a start_listening_at_proto h =
    if-both IsListening n _ _ (at_proto-IsListening w a.first_stream w.at_proto_state refl h) h
command-IsListening w configs n a (start_listening_hypercore feed) h =
    if-both IsListening n _ _ (feed-IsListening w a.first_stream feed (feed_state w feed) refl h) h
command-IsListening w configs n a (start_listening_chain chain) h =
    if-both (λ (x : Watcher × Flow). IsListening x.0) n _ _
      (chain-IsListening w configs a chain (chain_state w chain) refl h) h
command-IsListening w configs n a (watch_evm_contract_events chain addresses hashes) h =
    told-IsListening w chain (enable_logs addresses hashes) (get w.controllers chain) refl h
command-IsListening w configs n a (watch_evm_blocks chain) h =
    told-IsListening w chain (toggle_block_height true) (get w.controllers chain) refl h
command-IsListening w configs n a (manual_trigger action) h = h

-- The watchers that local commands reach, each with its own answers of the network.
pub data Reaches : Watcher → Type 0 where
  begun : (w : Watcher) → w ≡ start_watcher → Reaches w
  done :
      (w w' : Watcher) (configs : ChainConfigs) (networking : Bool) (a : Attempt)
      (c : TriggerCommand)
      → Reaches w
      → w' ≡ (command w configs networking a c).0
      → Reaches w'

begun-IsListening : IsListening start_watcher
unfolding get
begun-IsListening = record {
  cron_once = refl;
  at_proto_once = refl;
  feed_once = λ f. refl;
  chain_once = λ c. refl;
  paired = λ c. refl;
  controlled = λ c. refl;
}

-- After any local commands, whatever starts or fails, each source is listened to once if its state is
-- `connected` and not at all otherwise: the clock, AT Protocol, each feed, and each chain, either by one
-- Cosmos stream or by an EVM pair, which alone has a controller.
pub Reaches-IsListening : (w : Watcher) → Reaches w → IsListening w
Reaches-IsListening _ (begun w e) = subst IsListening (sym e) begun-IsListening
Reaches-IsListening _ (done w w' configs networking a c r e) =
    subst IsListening (sym e)
      (command-IsListening w configs networking a c (Reaches-IsListening w r))
