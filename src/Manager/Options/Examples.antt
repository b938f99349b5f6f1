-- ===== src/Manager/Options/Examples.antt =====
-- Options of a manager and a configuration file: concrete cases.
use controller_runtime.Prelude.{String, ◌≡◌, refl, pos, true, false, none, some, []}
use controller_runtime.Prelude.Fallible.{ok}
use controller_runtime.Manager.Options.{
  Options, ControllerSpec, LeaderElectionConfiguration, ConfigurationSpec, loaded, panicked,
  and_from, seconds, set_leader_election_config,
}
use controller_runtime.Manager.Options.Precedence.{AllTaken, and_from_lem}

abbrev no_settings : ControllerSpec
no_settings = record { group_kind_concurrency = []; cache_sync_timeout = none }

abbrev flags : Options String
flags = record {
  logger = none;
  sync_period = none;
  leader_election = true;
  leader_election_resource_lock = "";
  leader_election_namespace = "";
  leader_election_id = "mine";
  lease_duration = none;
  renew_deadline = none;
  retry_period = none;
  namespace = "";
  metrics_bind_address = ":9090";
  health_probe_bind_address = "";
  readiness_endpoint_name = "";
  liveness_endpoint_name = "";
  port = pos 0;
  host = "";
  cert_dir = "";
  event_broadcaster = none;
  graceful_shutdown_timeout = none;
  controller = no_settings;
  make_broadcaster = none;
  new_recorder_provider = none;
  new_resource_lock = none;
  new_metrics_listener = none;
  new_health_probe_listener = none;
}

abbrev election_section : LeaderElectionConfiguration
election_section = record {
  leader_elect = some false;
  lease_duration = seconds 20;
  renew_deadline = pos 0;
  retry_period = pos 0;
  resource_lock = "leases";
  resource_name = "theirs";
  resource_namespace = "";
}

abbrev file : ConfigurationSpec
file = record {
  sync_period = none;
  leader_election = some election_section;
  cache_namespace = "shop";
  graceful_shutdown_timeout = some (pos 0);
  controller = none;
  metrics_bind_address = ":8080";
  health_probe_bind_address = "";
  readiness_endpoint_name = "/ready";
  liveness_endpoint_name = "";
  webhook_port = some (pos 9443);
  webhook_host = "";
  webhook_cert_dir = "";
}

and_from_lem_example :
    (n : Options String) × (and_from {Err = String} flags none (ok file) ≡ loaded n)
    × AllTaken flags election_section file n
    × (n.graceful_shutdown_timeout ≡ none)
    × (and_from {Err = String} n none (ok file) ≡ loaded n)
and_from_lem_example = and_from_lem flags election_section file refl

-- a configuration without that section
no_section :
    and_from {Err = String} flags none (ok (record file { leader_election = none })) ≡ panicked
unfolding and_from set_leader_election_config
no_section = refl
