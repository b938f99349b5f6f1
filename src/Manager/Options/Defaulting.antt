-- ===== src/Manager/Options/Defaulting.antt =====
-- What `setOptionsDefaults` of pkg/manager/manager.go guarantees to `New`.
use controller_runtime.Prelude.{
  String, string_eq, ◌≡◌, ◌≢◌, refl, Option, none, some, arith, beq-cases,
}
use controller_runtime.Manager.Options.{
  Options, Defaults, set_options_defaults, or_default, name_or, seconds,
}
use controller_runtime.Manager.Options.Precedence.{Takes}

Takes-or_default :
    {A : Type 0} (dst : Option A) (d : A) → Takes none dst (some d) (some (or_default dst d))
unfolding Takes
Takes-or_default none d = (λ ne. absurd (ne refl), λ e. refl)
Takes-or_default (some a) d = (λ ne. refl, λ e. cc)

Takes-name_or : (name d : String) → Takes "" name d (name_or name d)
unfolding Takes
Takes-name_or name d = ground (arith, beq-cases name "")

name_or-twice : (name d : String) → name_or (name_or name d) d ≡ name_or name d
name_or-twice name d = ground (arith, beq-cases name "")

module _ {V : Type 0} (d : Defaults V) where
  -- After `setOptionsDefaults` none of the pointers and functions that `New` uses without a test is nil,
  -- and neither endpoint name is empty: each is what was set, and the default where nothing was. To
  -- fill in the defaults again changes nothing.
  pub set_options_defaults_lem :
      (o : Options V)
      → let n = set_options_defaults d o in
        Takes none o.lease_duration (some (seconds 15)) n.lease_duration
        × Takes none o.renew_deadline (some (seconds 10)) n.renew_deadline
        × Takes none o.retry_period (some (seconds 2)) n.retry_period
        × Takes none o.graceful_shutdown_timeout (some (seconds 30)) n.graceful_shutdown_timeout
        × Takes none o.logger (some d.logger) n.logger
        × Takes none o.new_recorder_provider (some d.recorder_provider) n.new_recorder_provider
        × Takes none o.new_resource_lock (some d.resource_lock) n.new_resource_lock
        × Takes none o.new_metrics_listener (some d.metrics_listener) n.new_metrics_listener
        × Takes none o.new_health_probe_listener
            (some d.health_probe_listener)
            n.new_health_probe_listener
        × Takes "" o.readiness_endpoint_name "/readyz" n.readiness_endpoint_name
        × Takes "" o.liveness_endpoint_name "/healthz" n.liveness_endpoint_name
        × (n.make_broadcaster ≢ none)
        × (set_options_defaults d n ≡ n)
  unfolding set_options_defaults
  set_options_defaults_lem o = (
    Takes-or_default o.lease_duration (seconds 15),
    Takes-or_default o.renew_deadline (seconds 10),
    Takes-or_default o.retry_period (seconds 2),
    Takes-or_default o.graceful_shutdown_timeout (seconds 30),
    Takes-or_default o.logger d.logger,
    Takes-or_default o.new_recorder_provider d.recorder_provider,
    Takes-or_default o.new_resource_lock d.resource_lock,
    Takes-or_default o.new_metrics_listener d.metrics_listener,
    Takes-or_default o.new_health_probe_listener d.health_probe_listener,
    Takes-name_or o.readiness_endpoint_name "/readyz",
    Takes-name_or o.liveness_endpoint_name "/healthz",
    (λ e. cc),
    simp (name_or-twice),
  )
