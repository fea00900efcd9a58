-- ===== src/Types/ChainConfigs.antt =====
-- What `add_chain` of chain_config.rs adds, and when it refuses.
pub mod Stored
pub use Stored.{fits, is_free}
use Stored.{key_parts, HasAdded, dev-HasAdded, evm-HasAdded, cosmos-HasAdded}
use wavs.Prelude.{
  ◌≡◌, refl, sym, ap, ◌∙◌, Bool, true, false, Option, none, some, Bytes, bytes_eq, bytes_lt, ◌==◌,
  if◌then◌else◌, arith, Bool-cases, inl, inr, ◌⊎◌, eq_iff, eq_sym, ◌&&◌,
}
use wavs.Prelude.Map.{insert_by, get-insert_by}
use wavs.Prelude.Result.{Result, ok, err}
use wavs.Types.Chain.{ChainKey, chain_key_eq}
use wavs.Types.ChainConfig.{
  AnyChainConfig, CosmosChainConfig, EvmChainConfig, ChainConfigs, ChainConfigError, cosmos, evm,
  get_chain, add_chain, cosmos_namespace, evm_namespace, dev_namespace, config_key, cosmos_build,
  evm_build, cosmos_builder, evm_builder, duplicate_chain, add_new, add_evm, add_cosmos,
}

new-HasAdded :
    (configs : ChainConfigs) (key : ChainKey) (config : AnyChainConfig)
    → HasAdded configs key config (add_new configs key config none)
new-HasAdded configs key config = elim (Bool-cases (key.namespace == dev_namespace)) [
  | inl d ↦ rw d (dev-HasAdded configs key config d)
  | inr nd ↦ elim (Bool-cases (key.namespace == evm_namespace)) [
    | inl e ↦ rw (nd, e) (evm-HasAdded configs key config e)
    | inr ne ↦ elim (Bool-cases (key.namespace == cosmos_namespace)) [
      | inl c ↦ rw (nd, ne, c) (cosmos-HasAdded configs key config c)
      | inr nc ↦ rw (nd, ne, nc) (foreign config nd ne nc)
    ]
  ]
]
  where
    foreign :
        (config : AnyChainConfig)
        → (key.namespace == dev_namespace) ≡ false
        → (key.namespace == evm_namespace) ≡ false
        → (key.namespace == cosmos_namespace) ≡ false
        → fits key config ≡ false
    foreign (cosmos c) nd ne nc = ground (arith, key_parts key (config_key (cosmos c)))
    foreign (evm c) nd ne nc = ground (arith, key_parts key (config_key (evm c)))

-- What `add_chain` may do.
abbrev Added :
    ChainConfigs → ChainKey → AnyChainConfig → Result ChainConfigError ChainConfigs → Type 0
Added configs key config r =
    (configs' : ChainConfigs) × (r ≡ ok configs')
    × (is_free (get_chain configs key) ≡ true)
    × (fits key config ≡ true)
    × ((k : ChainKey)
        → get_chain configs' k ≡ (if key == k then some config else get_chain configs k))

abbrev Refused :
    ChainConfigs → ChainKey → AnyChainConfig → Result ChainConfigError ChainConfigs → Type 0
Refused configs key config r =
    (e : ChainConfigError) × (r ≡ err e)
    × ((is_free (get_chain configs key) && fits key config) ≡ false)

free_outcome :
    (configs : ChainConfigs) (key : ChainKey) (config : AnyChainConfig)
    (r : Result ChainConfigError ChainConfigs)
    → get_chain configs key ≡ none
    → HasAdded configs key config r
    → Added configs key config r ⊎ Refused configs key config r
free_outcome configs key config (ok configs') e h = inl (configs', refl, rw e refl, h.0, h.1)
free_outcome configs key config (err x) e h = inr (x, refl, rw e h)

outcome :
    (configs : ChainConfigs) (key : ChainKey) (config : AnyChainConfig) (o : Option AnyChainConfig)
    → get_chain configs key ≡ o
    → Added configs key config (add_new configs key config o)
      ⊎ Refused configs key config (add_new configs key config o)
outcome configs key config none e =
    free_outcome configs key config _ e (new-HasAdded configs key config)
outcome configs key config (some old) e = inr (duplicate_chain key, refl, rw e refl)

-- `add_chain` either succeeds, for a key that had no config and that fits the config, and then the key has
-- the config and every other key what it had; or it fails, and then one of the two was missing.
pub add_chain_lem :
    (configs : ChainConfigs) (key : ChainKey) (config : AnyChainConfig)
    → ((configs' : ChainConfigs) × (add_chain configs key config ≡ ok configs')
        × (is_free (get_chain configs key) ≡ true)
        × (fits key config ≡ true)
        × ((k : ChainKey)
            → get_chain configs' k ≡ (if key == k then some config else get_chain configs k)))
      ⊎ ((e : ChainConfigError) × (add_chain configs key config ≡ err e)
          × ((is_free (get_chain configs key) && fits key config) ≡ false))
unfolding add_chain
add_chain_lem configs key config = outcome configs key config (get_chain configs key) refl
