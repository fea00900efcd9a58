-- ===== src/Types/Service.antt =====
-- packages/types/src/service.rs: services, workflows and triggers. Addresses and hashes are their
-- bytes; `ServiceId::hash` (SHA-256) is a parameter.
use wavs.Prelude.{ℕ, Bool, Option, List, ◌++◌, Bytes, bytes}
use wavs.Prelude.Result.{Result, ok, ◌>>=◌}
use wavs.Prelude.Map.{Map}
use wavs.Types.Chain.{ChainKey, to_string}

abbrev pub ServiceId : Type 0
ServiceId = Bytes

abbrev pub WorkflowId : Type 0
WorkflowId = Bytes

abbrev pub ComponentDigest : Type 0
ComponentDigest = Bytes

pub data ServiceStatus : Type 0 where
  active paused : ServiceStatus

pub data ServiceManager : Type 0 where
  evm cosmos : ChainKey → Bytes → ServiceManager

unfoldable pub manager_chain : ServiceManager → ChainKey
manager_chain (evm chain address) = chain
manager_chain (cosmos chain address) = chain

-- `ServiceManager::address`, a `layer_climb::Address` of either kind.
pub data Address : Type 0 where
  evm cosmos : Bytes → Address

unfoldable pub manager_address : ServiceManager → Address
manager_address (evm chain address) = evm address
manager_address (cosmos chain address) = cosmos address

-- The bytes that `From<&ServiceManager> for ServiceId` hashes.
unfoldable pub manager_bytes : ServiceManager → Bytes
unfolding to_string
manager_bytes (evm chain address) = bytes "evm" ++ (to_string chain ++ address)
manager_bytes (cosmos chain address) = bytes "cosmos" ++ (to_string chain ++ address)

pub data AtProtoAction : Type 0 where
  create update delete : AtProtoAction

pub data Trigger : Type 0 where
  cosmos_contract_event : Bytes → ChainKey → Bytes → Trigger
  evm_contract_event : Bytes → ChainKey → Bytes → Trigger
  block_interval : ChainKey → ℕ → Option ℕ → Option ℕ → Trigger
  cron : Bytes → Option ℕ → Option ℕ → Trigger
  at_proto_event : Bytes → Option Bytes → Option AtProtoAction → Trigger
  hypercore_append : Bytes → Trigger
  manual : Trigger

pub record TriggerConfig : Type 0 where
  pub service_id : ServiceId
  pub workflow_id : WorkflowId
  pub trigger : Trigger

pub data SignatureAlgorithm : Type 0 where
  secp256k1 : SignatureAlgorithm

pub data SignaturePrefix : Type 0 where
  eip191 : SignaturePrefix

pub record SignatureKind : Type 0 where
  pub algorithm : SignatureAlgorithm
  pub prefix : Option SignaturePrefix

pub record Registry : Type 0 where
  pub digest : ComponentDigest
  pub domain : Option Bytes
  pub version : Option Bytes
  pub package_ref : Bytes

pub data ComponentSource : Type 0 where
  download : Bytes → ComponentDigest → ComponentSource
  registry : Registry → ComponentSource
  digest : ComponentDigest → ComponentSource

unfoldable pub source_digest : ComponentSource → ComponentDigest
source_digest (download uri d) = d
source_digest (registry r) = r.digest
source_digest (digest d) = d

pub data AllowedHostPermission : Type 0 where
  all_hosts : AllowedHostPermission
  only : List Bytes → AllowedHostPermission
  no_hosts : AllowedHostPermission

pub record Permissions : Type 0 where
  pub allowed_http_hosts : AllowedHostPermission
  pub file_system : Bool
  pub raw_sockets : Bool
  pub dns_resolution : Bool

pub record Component : Type 0 where
  pub source : ComponentSource
  pub permissions : Permissions
  pub fuel_limit : Option ℕ
  pub time_limit_seconds : Option ℕ
  pub config : Map Bytes Bytes
  pub env_keys : List Bytes

pub data Submit : Type 0 where
  no_submit : Submit
  aggregator : Component → SignatureKind → Submit

pub record Workflow : Type 0 where
  pub trigger : Trigger
  pub component : Component
  pub submit : Submit

pub record Service : Type 0 where
  pub name : Bytes
  pub workflows : Map WorkflowId Workflow
  pub status : ServiceStatus
  pub manager : ServiceManager

-- `Service::id`, from the hash of the manager's bytes.
unfoldable pub id : (Bytes → ServiceId) → Service → ServiceId
id hash service = hash (manager_bytes service.manager)

-- `Service::hash`: the digest of the service's JSON, whose encoding may fail.
unfoldable pub service_hash :
    (Service → Result Bytes Bytes) → (Bytes → Bytes) → Service → Result Bytes Bytes
service_hash to_json digest_of service = do json ← to_json service; ok (digest_of json)
