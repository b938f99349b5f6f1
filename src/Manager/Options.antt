-- ===== src/Manager/Options.antt =====
-- pkg/manager/manager.go: the options of a manager, their defaults, and `AndFrom`, which takes from a
-- configuration (pkg/config/v1alpha1/types.go) what is not set. A pointer is an Option, an interface
-- or function that may be nil is an Option of a type `V` of such values; a duration is an integer.
pub mod Precedence
pub mod Defaulting
mod Examples
use controller_runtime.Prelude.{
  ℕ, ◌*◌, String, ◌==◌, string_eq, int_eq, ℤ, pos, ◌≡◌, refl, ◌⊎◌, inl, inr, Bool, true, false, not,
  ◌&&◌, Option, none, some, List, [], ◌∷◌, arith, if◌then◌else◌, Bool-cases, Option-cases,
}
use controller_runtime.Prelude.Fallible.{Fallible, ok, err}

-- `v1alpha1.ControllerConfigurationSpec`
pub record ControllerSpec : Type 0 where
  pub group_kind_concurrency : List (String × ℤ)
  pub cache_sync_timeout : Option ℤ

-- of `Options` what the functions below read or write
pub record Options (V : Type 0) : Type 0 where
  pub logger : Option V
  pub sync_period : Option ℤ
  pub leader_election : Bool
  pub leader_election_resource_lock : String
  pub leader_election_namespace : String
  pub leader_election_id : String
  pub lease_duration : Option ℤ
  pub renew_deadline : Option ℤ
  pub retry_period : Option ℤ
  pub namespace : String
  pub metrics_bind_address : String
  pub health_probe_bind_address : String
  pub readiness_endpoint_name : String
  pub liveness_endpoint_name : String
  pub port : ℤ
  pub host : String
  pub cert_dir : String
  pub event_broadcaster : Option V
  pub graceful_shutdown_timeout : Option ℤ
  pub controller : ControllerSpec
  pub make_broadcaster : Option V
  pub new_recorder_provider : Option V
  pub new_resource_lock : Option V
  pub new_metrics_listener : Option V
  pub new_health_probe_listener : Option V

-- `LeaderElectionConfiguration` of component-base
pub record LeaderElectionConfiguration : Type 0 where
  pub leader_elect : Option Bool
  pub lease_duration : ℤ
  pub renew_deadline : ℤ
  pub retry_period : ℤ
  pub resource_lock : String
  pub resource_name : String
  pub resource_namespace : String

-- `ControllerManagerConfigurationSpec`
pub record ConfigurationSpec : Type 0 where
  pub sync_period : Option ℤ
  pub leader_election : Option LeaderElectionConfiguration
  pub cache_namespace : String
  pub graceful_shutdown_timeout : Option ℤ
  pub controller : Option ControllerSpec
  pub metrics_bind_address : String
  pub health_probe_bind_address : String
  pub readiness_endpoint_name : String
  pub liveness_endpoint_name : String
  pub webhook_port : Option ℤ
  pub webhook_host : String
  pub webhook_cert_dir : String

-- `if dst == "" && src != "" { dst = src }`, and so for pointers, and for durations, where zero
-- is none
abbrev pub take_string : String → String → String
take_string dst src = if (dst == "") && not (src == "") then src else dst

abbrev pub take_pointer : {A : Type 0} → Option A → Option A → Option A
take_pointer none src = src
take_pointer (some dst) src = some dst

abbrev pub take_duration : Option ℤ → ℤ → Option ℤ
take_duration none src = if src == pos 0 then none else some src
take_duration (some dst) src = some dst

abbrev pub take_map : List (String × ℤ) → List (String × ℤ) → List (String × ℤ)
take_map [] src = src
take_map dst src = dst

-- `if o.Port == 0 && newObj.Webhook.Port != nil`
abbrev pub take_port : ℤ → Option ℤ → ℤ
take_port dst none = dst
take_port dst (some src) = if dst == pos 0 then src else dst

abbrev pub take_election : Bool → Option Bool → Bool
take_election dst none = dst
take_election dst (some src) = if not dst then src else dst

abbrev pub take_controller : ControllerSpec → Option ControllerSpec → ControllerSpec
take_controller dst none = dst
take_controller dst (some src) = record {
  group_kind_concurrency = take_map dst.group_kind_concurrency src.group_kind_concurrency;
  cache_sync_timeout = take_pointer dst.cache_sync_timeout src.cache_sync_timeout;
}

-- what a call of `AndFrom` does: it returns, with an error or without, or it dereferences nil
pub data Loaded (V Err : Type 0) : Type 0 where
  loaded : Options V → Loaded V Err
  failed : Options V → Err → Loaded V Err
  panicked : Loaded V Err

module _ {V : Type 0} where
  unfoldable pub take_leader_election : Options V → LeaderElectionConfiguration → Options V
  take_leader_election o c = record o {
    leader_election = take_election o.leader_election c.leader_elect;
    leader_election_resource_lock = take_string o.leader_election_resource_lock c.resource_lock;
    leader_election_namespace = take_string o.leader_election_namespace c.resource_namespace;
    leader_election_id = take_string o.leader_election_id c.resource_name;
    lease_duration = take_duration o.lease_duration c.lease_duration;
    renew_deadline = take_duration o.renew_deadline c.renew_deadline;
    retry_period = take_duration o.retry_period c.retry_period;
  }

  -- `none` where `obj.LeaderElection` is nil and is dereferenced
  unfoldable pub set_leader_election_config :
      Options V → Option LeaderElectionConfiguration → Option (Options V)
  set_leader_election_config o none = none
  set_leader_election_config o (some c) = some (take_leader_election o c)

  -- the rest of `AndFrom`, from `o.SyncPeriod` on
  unfoldable pub take_rest : Options V → ConfigurationSpec → Options V
  take_rest o c = record o {
    sync_period = take_pointer o.sync_period c.sync_period;
    namespace = take_string o.namespace c.cache_namespace;
    metrics_bind_address = take_string o.metrics_bind_address c.metrics_bind_address;
    health_probe_bind_address = take_string o.health_probe_bind_address c.health_probe_bind_address;
    readiness_endpoint_name = take_string o.readiness_endpoint_name c.readiness_endpoint_name;
    liveness_endpoint_name = take_string o.liveness_endpoint_name c.liveness_endpoint_name;
    port = take_port o.port c.webhook_port;
    host = take_string o.host c.webhook_host;
    cert_dir = take_string o.cert_dir c.webhook_cert_dir;
    controller = take_controller o.controller c.controller;
  }

  -- `inject_scheme` is what `InjectScheme` of the loader returns, `none` where it has no such method
  -- or returns nil; `complete` is what its `Complete` returns
  unfoldable pub and_from :
      {Err : Type 0} → Options V → Option Err → Fallible Err ConfigurationSpec → Loaded V Err
  unfolding set_leader_election_config take_rest
  and_from o (some e) complete = failed o e
  and_from o none (err e) = failed o e
  and_from o none (ok c) = elim (set_leader_election_config o c.leader_election) [
    | none ↦ panicked
    | some o' ↦ loaded (take_rest o' c)
  ]

-- `if o.X == nil { o.X = d }`
abbrev pub or_default : {A : Type 0} → Option A → A → A
or_default none d = d
or_default (some a) d = a

abbrev pub name_or : String → String → String
name_or name d = if name == "" then d else name

-- the values that `setOptionsDefaults` puts in, `broadcaster` of the event broadcaster that is set
pub record Defaults (V : Type 0) : Type 0 where
  pub logger : V
  pub recorder_provider : V
  pub resource_lock : V
  pub metrics_listener : V
  pub health_probe_listener : V
  pub fresh_broadcaster : V
  pub broadcaster : V → V

-- nanoseconds
abbrev pub seconds : ℕ → ℤ
seconds n = pos (n * 1000000000)

module _ {V : Type 0} (d : Defaults V) where
  abbrev pub broadcaster_of : Option V → V
  broadcaster_of none = d.fresh_broadcaster
  broadcaster_of (some b) = d.broadcaster b

  unfoldable pub set_options_defaults : Options V → Options V
  set_options_defaults o = record o {
    logger = some (or_default o.logger d.logger);
    lease_duration = some (or_default o.lease_duration (seconds 15));
    renew_deadline = some (or_default o.renew_deadline (seconds 10));
    retry_period = some (or_default o.retry_period (seconds 2));
    readiness_endpoint_name = name_or o.readiness_endpoint_name "/readyz";
    liveness_endpoint_name = name_or o.liveness_endpoint_name "/healthz";
    graceful_shutdown_timeout = some (or_default o.graceful_shutdown_timeout (seconds 30));
    make_broadcaster = some (broadcaster_of o.event_broadcaster);
    new_recorder_provider = some (or_default o.new_recorder_provider d.recorder_provider);
    new_resource_lock = some (or_default o.new_resource_lock d.resource_lock);
    new_metrics_listener = some (or_default o.new_metrics_listener d.metrics_listener);
    new_health_probe_listener =
        some (or_default o.new_health_probe_listener d.health_probe_listener);
  }
