-- ===== src/Samples.antt =====
-- Concrete crates, chains and services for the examples of several modules.
use wavs.Prelude.{ℕ, ◌+◌, false, none, some, List, [], ◌∷◌, Bytes, bytes, nat_eq}
use wavs.Prelude.Result.{ok}
use wavs.Types.Chain.{ChainKey}
use wavs.Types.Service.{
  Service, ServiceId, Address, active, evm, Trigger, Workflow, Component, digest, no_hosts,
  aggregator, secp256k1, eip191,
}
use wavs.Types.Submission.{SigningCrate}
use wavs.Scheduler.Cron.{CronCrate, at}
use wavs.Lookup.Maps.{BiMapCrate}
use wavs.Trigger.Events.{EventCrate}
use wavs.Submission.Event.{EventCrates}
use wavs.Submission.Manager.{KeyCrate}
use wavs.Dispatcher.Operations.{Crates}

-- A schedule that comes every ten seconds.
abbrev pub ten_cron : CronCrate
ten_cron = record {
  Schedule = Unit {0};
  ScheduleIterator = ℕ;
  parse = λ text. ok tt;
  after_owned = λ schedule now. now;
  next = λ last. (at (last + 10), last + 10);
}

-- For `bimap` a list whose first pair answers.
abbrev pub list_managers : BiMapCrate
list_managers = record {
  BiMap = List (ServiceId × Address);
  empty = [];
  insert = λ id address m. (id, address) ∷ m;
  remove_by_left = λ id m. m;
  get_by_right = λ m address. elim m [ [] ↦ none | p ∷ rest ↦ some p.0 ];
}

-- A text is a URI if it is not empty.
abbrev pub plain_events : EventCrate
plain_events = record {
  service_uri_updated = 255 ∷ [];
  decode_log_data = λ d. some d;
  uri_string = λ text. elim text [ [] ↦ none | c ∷ s ↦ some (c ∷ s) ];
  is_service_uri_updated = λ e. false;
  service_uri_key = bytes "service_uri";
}

-- A key is its index, and signs by its address.
abbrev pub index_keys : KeyCrate
index_keys = record {
  PrivateKeySigner = ℕ;
  make_signer = λ index. ok index;
  sign_hash = λ signer hash. ok (signer ∷ []);
  address = λ signer. signer ∷ [];
}

abbrev pub plain_signing : SigningCrate
plain_signing = record {
  Signature = Bytes;
  from_raw = λ raw. ok raw;
  recover_address_from_prehash = λ signature hash. ok signature;
  keccak256 = λ raw. raw;
  eip191_hash_message = λ raw. 25 ∷ raw;
  abi_encode = λ envelope. envelope.payload;
}

abbrev pub plain_ids : EventCrates
plain_ids = record {
  ripemd160 = λ raw. raw;
  encode_trigger = λ d. ok [];
  encode_at_proto = λ repo collection rkey action cid json rev op_index. ok rkey;
}

abbrev pub crates : Crates
crates = record {
  cron = ten_cron;
  bimap = list_managers;
  events = plain_events;
  keys = index_keys;
  hash = λ raw. raw;
  to_json = λ service. ok service.name;
  digest_of = λ raw. raw;
}

abbrev pub ethereum : ChainKey
ethereum = record { namespace = bytes "evm"; id = bytes "1" }

abbrev pub echo_component : Component
echo_component = record {
  source = digest (1 ∷ []);
  permissions = record {
    allowed_http_hosts = no_hosts;
    file_system = false;
    raw_sockets = false;
    dns_resolution = false;
  };
  fuel_limit = none;
  time_limit_seconds = none;
  config = [];
  env_keys = [];
}

abbrev pub workflow_of : Trigger → Workflow
workflow_of t = record {
  trigger = t;
  component = echo_component;
  submit = aggregator echo_component (record { algorithm = secp256k1; prefix = some eip191 });
}

-- A service with one workflow.
abbrev pub service_of : Trigger → Service
service_of t = record {
  name = bytes "echo";
  workflows = (bytes "w", workflow_of t) ∷ [];
  status = active;
  manager = evm ethereum (5 ∷ []);
}
