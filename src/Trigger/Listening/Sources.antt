-- ===== src/Trigger/Listening/Sources.antt =====
-- How often each source of `start_watcher` is listened to, and what starting one does to it.
use wavs.Prelude.{
  ℕ, suc, ◌+◌, ◌≡◌, refl, Bool, true, false, Option, none, some, List, [], ◌∷◌, Bytes, bytes_eq,
  ◌==◌, if◌then◌else◌, if-both, arith,
}
use wavs.Prelude.Map.{get, insert, get-insert}
use wavs.Types.Chain.{ChainKey, chain_key_eq}
use wavs.Types.ChainConfig.{AnyChainConfig, cosmos, evm}
use wavs.Trigger.Streams.{
  StreamStartState, waiting, connecting, connected, Source, cron_source, at_proto_source,
  feed_source, cosmos_source, evm_events, evm_blocks, ControllerCall, Attempt, Watcher, Flow,
  chain_state, feed_state, set_chain, start_cron, start_at_proto, start_feed, started_evm,
  started_chain,
}

abbrev pub is_source : Source → Source → Bool
is_source cron_source cron_source = true
is_source at_proto_source at_proto_source = true
is_source (feed_source f) (feed_source g) = f == g
is_source (cosmos_source c) (cosmos_source d) = c == d
is_source (evm_events c) (evm_events d) = c == d
is_source (evm_blocks c) (evm_blocks d) = c == d
is_source _ _ = false

-- How often a source is listened to.
abbrev pub count : Source → List Source → ℕ
count s [] = 0
count s (x ∷ xs) = if is_source x s then suc (count s xs) else count s xs

abbrev pub on : StreamStartState → ℕ
on waiting = 0
on connecting = 0
on connected = 1

abbrev pub controls : Option (List ControllerCall) → ℕ
controls none = 0
controls (some calls) = 1

-- A source is listened to once if its state is `connected`, else not at all; a chain by one stream of
-- Cosmos or one pair of EVM streams, and a pair has a controller.
pub record IsListening (w : Watcher) : Type 0 where
  pub cron_once : count cron_source w.streams ≡ on w.cron_state
  pub at_proto_once : count at_proto_source w.streams ≡ on w.at_proto_state
  pub feed_once : (f : Bytes) → count (feed_source f) w.streams ≡ on (feed_state w f)
  pub chain_once :
      (c : ChainKey)
      → count (cosmos_source c) w.streams + count (evm_events c) w.streams ≡ on (chain_state w c)
  pub paired : (c : ChainKey) → count (evm_blocks c) w.streams ≡ count (evm_events c) w.streams
  pub controlled : (c : ChainKey) → controls (get w.controllers c) ≡ count (evm_events c) w.streams

pub feed-IsListening :
    (w : Watcher) (starts : Bool) (feed : Bytes) (s : StreamStartState)
    → feed_state w feed ≡ s
    → IsListening w
    → IsListening (start_feed w starts feed s)
unfolding start_feed
feed-IsListening w starts feed connecting e h = h
feed-IsListening w starts feed connected e h = h
feed-IsListening w true feed waiting e h = record {
  cron_once = h.cron_once;
  at_proto_once = h.at_proto_once;
  feed_once = λ f. ground (
    arith,
    get-insert feed f connected (insert feed connecting w.feed_states),
    get-insert feed f connecting w.feed_states,
    h.feed_once f,
    h.feed_once feed,
    e,
  );
  chain_once = h.chain_once;
  paired = h.paired;
  controlled = h.controlled;
}
feed-IsListening w false feed waiting e h = record {
  cron_once = h.cron_once;
  at_proto_once = h.at_proto_once;
  feed_once = λ f. ground (
    arith,
    get-insert feed f waiting (insert feed connecting w.feed_states),
    get-insert feed f connecting w.feed_states,
    h.feed_once f,
    h.feed_once feed,
    e,
  );
  chain_once = h.chain_once;
  paired = h.paired;
  controlled = h.controlled;
}

pub cron-IsListening :
    (w : Watcher) (starts : Bool) (s : StreamStartState)
    → w.cron_state ≡ s
    → IsListening w
    → IsListening (start_cron w starts s)
unfolding start_cron
cron-IsListening w starts connecting e h = h
cron-IsListening w starts connected e h = h
cron-IsListening w true waiting e h = record {
  cron_once = ground (arith, h.cron_once, e);
  at_proto_once = h.at_proto_once;
  feed_once = h.feed_once;
  chain_once = h.chain_once;
  paired = h.paired;
  controlled = h.controlled;
}
cron-IsListening w false waiting e h = record {
  cron_once = ground (arith, h.cron_once, e);
  at_proto_once = h.at_proto_once;
  feed_once = h.feed_once;
  chain_once = h.chain_once;
  paired = h.paired;
  controlled = h.controlled;
}

pub at_proto-IsListening :
    (w : Watcher) (starts : Bool) (s : StreamStartState)
    → w.at_proto_state ≡ s
    → IsListening w
    → IsListening (start_at_proto w starts s)
unfolding start_at_proto
at_proto-IsListening w starts connecting e h = h
at_proto-IsListening w starts connected e h = h
at_proto-IsListening w true waiting e h = record {
  cron_once = h.cron_once;
  at_proto_once = ground (arith, h.at_proto_once, e);
  feed_once = h.feed_once;
  chain_once = h.chain_once;
  paired = h.paired;
  controlled = h.controlled;
}
at_proto-IsListening w false waiting e h = record {
  cron_once = h.cron_once;
  at_proto_once = ground (arith, h.at_proto_once, e);
  feed_once = h.feed_once;
  chain_once = h.chain_once;
  paired = h.paired;
  controlled = h.controlled;
}

-- A chain that is not connected may be set to any state that is not.
pub unset-IsListening :
    (w : Watcher) (chain : ChainKey) (s : StreamStartState)
    → on (chain_state w chain) ≡ 0
    → on s ≡ 0
    → IsListening w
    → IsListening (set_chain chain s w)
unset-IsListening w chain s e z h = record {
  cron_once = h.cron_once;
  at_proto_once = h.at_proto_once;
  feed_once = h.feed_once;
  chain_once =
      λ c. ground (arith, get-insert chain c s w.chain_states, h.chain_once c, h.chain_once chain);
  paired = h.paired;
  controlled = h.controlled;
}

abbrev pub with_cosmos : Watcher → ChainKey → Watcher
with_cosmos w chain =
    set_chain chain connected (record w { streams = cosmos_source chain ∷ w.streams })

abbrev pub with_evm : Watcher → ChainKey → Watcher
with_evm w chain = set_chain chain connected (record w {
  streams = evm_blocks chain ∷ evm_events chain ∷ w.streams;
  controllers = insert chain [] w.controllers;
})

cosmos-IsListening :
    (w : Watcher) (chain : ChainKey)
    → on (chain_state w chain) ≡ 0
    → IsListening w
    → IsListening (with_cosmos w chain)
cosmos-IsListening w chain e h = record {
  cron_once = h.cron_once;
  at_proto_once = h.at_proto_once;
  feed_once = h.feed_once;
  chain_once = λ c.
      ground
        (arith, get-insert chain c connected w.chain_states, h.chain_once c, h.chain_once chain);
  paired = h.paired;
  controlled = h.controlled;
}

evm-IsListening :
    (w : Watcher) (chain : ChainKey)
    → on (chain_state w chain) ≡ 0
    → IsListening w
    → IsListening (with_evm w chain)
evm-IsListening w chain e h = record {
  cron_once = h.cron_once;
  at_proto_once = h.at_proto_once;
  feed_once = h.feed_once;
  chain_once = λ c.
      ground
        (arith, get-insert chain c connected w.chain_states, h.chain_once c, h.chain_once chain);
  paired = λ c. ground (arith, h.paired c);
  controlled = λ c. ground (
    arith,
    get-insert chain c [] w.controllers,
    h.controlled c,
    h.controlled chain,
    h.chain_once chain,
    h.chain_once c,
  );
}

pub started-IsListening :
    (w : Watcher) (a : Attempt) (chain : ChainKey) (o : Option AnyChainConfig)
    → on (chain_state w chain) ≡ 0
    → IsListening w
    → IsListening (started_chain w a chain o).0
started-IsListening w a chain none e h = unset-IsListening w chain waiting e refl h
started-IsListening w a chain (some (cosmos c)) e h =
    if-both (λ (x : Watcher × Flow). IsListening x.0) a.client _ _
      (if-both IsListening a.first_stream _ _ (cosmos-IsListening w chain e h)
        (unset-IsListening w chain waiting e refl h))
      h
started-IsListening w a chain (some (evm c)) e h = by_endpoints c.ws_endpoints
  where
    by_endpoints : (l : List Bytes) → IsListening (started_evm w a chain l).0
    by_endpoints [] = h
    by_endpoints (x ∷ l) =
        if-both (λ (x : Watcher × Flow). IsListening x.0) a.first_stream _ _
          (if-both IsListening a.second_stream _ _ (evm-IsListening w chain e h)
            (unset-IsListening w chain waiting e refl h))
          (unset-IsListening w chain waiting e refl h)
