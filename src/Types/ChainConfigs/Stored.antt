-- ===== src/Types/ChainConfigs/Stored.antt =====
-- What `add_chain` stores in each of the three maps, and what `get_chain` then gives.
use wavs.Prelude.{
  ◌≡◌, refl, sym, ap, ◌∙◌, Bool, true, false, Option, none, some, Bytes, bytes_eq, bytes_lt, ◌==◌,
  if◌then◌else◌, arith, Bool-cases, inl, inr, eq_iff, eq_sym, ◌&&◌,
}
use wavs.Prelude.Map.{insert_by, get-insert_by}
use wavs.Prelude.Result.{Result, ok, err}
use wavs.Types.Chain.{ChainKey, chain_key_eq}
use wavs.Types.ChainConfig.{
  AnyChainConfig, CosmosChainConfig, EvmChainConfig, ChainConfigs, ChainConfigError, cosmos, evm,
  get_chain, cosmos_namespace, evm_namespace, dev_namespace, config_key, cosmos_build, evm_build,
  cosmos_builder, evm_builder, add_evm, add_cosmos,
}

-- A config may stand under a key of its own namespace and id, and any under a key of `dev`.
abbrev pub fits : ChainKey → AnyChainConfig → Bool
fits key config = if key.namespace == dev_namespace then true else key == config_key config

abbrev pub is_free : Option AnyChainConfig → Bool
is_free none = true
is_free (some config) = false

-- Two keys are the same by their namespaces and ids.
pub key_parts : (key k : ChainKey) → (key == k) ≡ (key.namespace == k.namespace && key.id == k.id)
key_parts key k = elim (Bool-cases (key == k)) [
  | inl same ↦
      let e : key ≡ k = (eq_iff key k).0 same in
      let n : (key.namespace == k.namespace) ≡ true =
        (eq_iff key.namespace k.namespace).1 (ap (λ (x : ChainKey). x.namespace) e) in
      let i : (key.id == k.id) ≡ true = (eq_iff key.id k.id).1 (ap (λ (x : ChainKey). x.id) e) in
      rw (same, n, i) refl
  | inr apart ↦ elim (Bool-cases (key.namespace == k.namespace)) [
    | inr other ↦ rw (apart, other) refl
    | inl n ↦ elim (Bool-cases (key.id == k.id)) [
      | inr other ↦ rw (apart, n, other) refl
      | inl i ↦
          let e : key ≡ k = λ j. record {
            namespace = (eq_iff key.namespace k.namespace).0 n j;
            id = (eq_iff key.id k.id).0 i j;
          } in
          absurd (ground (arith, apart, (eq_iff key k).1 e))
    ]
  ]
]

in_namespace :
    (key k : ChainKey) (n : Bytes)
    → key.namespace ≡ n
    → (key == k) ≡ (k.namespace == n && key.id == k.id)
in_namespace key k n e =
    key_parts key k
    ∙ ap (λ b. b && key.id == k.id) (ap (λ x. x == k.namespace) e ∙ eq_sym n k.namespace)

-- The chain at hand has the config, and every other has what it had.
abbrev pub HasAdded :
    ChainConfigs → ChainKey → AnyChainConfig → Result ChainConfigError ChainConfigs → Type 0
HasAdded configs key config (err e) = fits key config ≡ false
HasAdded configs key config (ok configs') =
    (fits key config ≡ true)
    × ((k : ChainKey)
        → get_chain configs' k ≡ (if key == k then some config else get_chain configs k))

pub dev-HasAdded :
    (configs : ChainConfigs) (key : ChainKey) (config : AnyChainConfig)
    → (key.namespace == dev_namespace) ≡ true
    → HasAdded configs key config
        (ok (record configs { dev_chains = insert_by bytes_lt key.id config configs.dev_chains }))
unfolding get_chain
dev-HasAdded configs key config dev = (
  rw dev refl,
  λ k. ground (
    arith,
    in_namespace key k dev_namespace ((eq_iff key.namespace dev_namespace).0 dev),
    get-insert_by bytes_lt key.id k.id config configs.dev_chains,
    eq_iff k.namespace dev_namespace,
    eq_iff k.namespace evm_namespace,
    eq_iff k.namespace cosmos_namespace,
  ),
)

evm_rebuilt :
    (c : EvmChainConfig) (i : Bytes) → c.chain_id ≡ i → evm (evm_build (evm_builder c) i) ≡ evm c
evm_rebuilt c i e = ap (λ j. evm (evm_build (evm_builder c) j)) (sym e)

evm_stored-HasAdded :
    (configs : ChainConfigs) (key : ChainKey) (c : EvmChainConfig)
    → (key.namespace == evm_namespace) ≡ true
    → (c.chain_id == key.id) ≡ true
    → HasAdded configs key (evm c) (
        ok (record configs {
          evm_chains = insert_by bytes_lt key.id (evm_builder c) configs.evm_chains;
        }))
unfolding get_chain
evm_stored-HasAdded configs key c n same = (
  ground (
    arith,
    key_parts key (config_key (evm c)),
    eq_iff key.namespace dev_namespace,
    eq_iff key.namespace evm_namespace,
    eq_sym c.chain_id key.id,
  ),
  λ k. ground (
    arith,
    in_namespace key k evm_namespace ((eq_iff key.namespace evm_namespace).0 n),
    get-insert_by bytes_lt key.id k.id (evm_builder c) configs.evm_chains,
    evm_rebuilt c k.id,
    eq_iff c.chain_id key.id,
    eq_iff key.id k.id,
    eq_iff k.namespace dev_namespace,
    eq_iff k.namespace evm_namespace,
    eq_iff k.namespace cosmos_namespace,
  ),
)

pub evm-HasAdded :
    (configs : ChainConfigs) (key : ChainKey) (config : AnyChainConfig)
    → (key.namespace == evm_namespace) ≡ true
    → HasAdded configs key config (add_evm configs key config)
evm-HasAdded configs key (cosmos c) n = ground (
  arith,
  key_parts key (config_key (cosmos c)),
  eq_iff key.namespace dev_namespace,
  eq_iff key.namespace evm_namespace,
  eq_iff key.namespace cosmos_namespace,
)
evm-HasAdded configs key (evm c) n = elim (Bool-cases (c.chain_id == key.id)) [
  | inl same ↦ rw same (evm_stored-HasAdded configs key c n same)
  | inr apart ↦ rw apart (
      ground (
        arith,
        key_parts key (config_key (evm c)),
        eq_iff key.namespace dev_namespace,
        eq_iff key.namespace evm_namespace,
        eq_sym c.chain_id key.id,
      ))
]

cosmos_rebuilt :
    (c : CosmosChainConfig) (i : Bytes)
    → c.chain_id ≡ i
    → cosmos (cosmos_build (cosmos_builder c) i) ≡ cosmos c
cosmos_rebuilt c i e = ap (λ j. cosmos (cosmos_build (cosmos_builder c) j)) (sym e)

cosmos_stored-HasAdded :
    (configs : ChainConfigs) (key : ChainKey) (c : CosmosChainConfig)
    → (key.namespace == cosmos_namespace) ≡ true
    → (c.chain_id == key.id) ≡ true
    → HasAdded configs key (cosmos c) (
        ok (record configs {
          cosmos_chains = insert_by bytes_lt key.id (cosmos_builder c) configs.cosmos_chains;
        }))
unfolding get_chain
cosmos_stored-HasAdded configs key c n same = (
  ground (
    arith,
    key_parts key (config_key (cosmos c)),
    eq_iff key.namespace dev_namespace,
    eq_iff key.namespace cosmos_namespace,
    eq_sym c.chain_id key.id,
  ),
  λ k. ground (
    arith,
    in_namespace key k cosmos_namespace ((eq_iff key.namespace cosmos_namespace).0 n),
    get-insert_by bytes_lt key.id k.id (cosmos_builder c) configs.cosmos_chains,
    cosmos_rebuilt c k.id,
    eq_iff c.chain_id key.id,
    eq_iff key.id k.id,
    eq_iff k.namespace dev_namespace,
    eq_iff k.namespace evm_namespace,
    eq_iff k.namespace cosmos_namespace,
  ),
)

pub cosmos-HasAdded :
    (configs : ChainConfigs) (key : ChainKey) (config : AnyChainConfig)
    → (key.namespace == cosmos_namespace) ≡ true
    → HasAdded configs key config (add_cosmos configs key config)
cosmos-HasAdded configs key (evm c) n = ground (
  arith,
  key_parts key (config_key (evm c)),
  eq_iff key.namespace dev_namespace,
  eq_iff key.namespace cosmos_namespace,
  eq_iff key.namespace evm_namespace,
)
cosmos-HasAdded configs key (cosmos c) n = elim (Bool-cases (c.chain_id == key.id)) [
  | inl same ↦ rw same (cosmos_stored-HasAdded configs key c n same)
  | inr apart ↦ rw apart (
      ground (
        arith,
        key_parts key (config_key (cosmos c)),
        eq_iff key.namespace dev_namespace,
        eq_iff key.namespace cosmos_namespace,
        eq_sym c.chain_id key.id,
      ))
]
