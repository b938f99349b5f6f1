-- ===== src/Manager/Options/Precedence.antt =====
-- What wins of the options and the configuration of pkg/manager/manager.go.
use controller_runtime.Prelude.{
  String, ◌==◌, string_eq, int_eq, ℤ, pos, ◌≡◌, ◌≢◌, refl, ap, Bool, true, false, Option, none,
  some, List, [], ◌∷◌, arith, if◌then◌else◌, beq-cases,
}
use controller_runtime.Prelude.Fallible.{ok}
use controller_runtime.Manager.Options.{
  ControllerSpec, Options, LeaderElectionConfiguration, ConfigurationSpec, take_string,
  take_pointer, take_duration, take_map, take_port, take_election, take_controller, loaded,
  set_leader_election_config, take_leader_election, take_rest, and_from,
}

-- `new` is what was set, and `src` if that was `unset`
unfoldable pub Takes : {A : Type 0} → (unset dst src new : A) → Type 0
Takes unset dst src new = (dst ≢ unset → new ≡ dst) × (dst ≡ unset → new ≡ src)

Takes-take_string : (dst src : String) → Takes "" dst src (take_string dst src)
unfolding Takes
Takes-take_string dst src = ground (arith, beq-cases dst "", beq-cases src "")

Takes-take_pointer : {A : Type 0} (dst src : Option A) → Takes none dst src (take_pointer dst src)
unfolding Takes
Takes-take_pointer none src = (λ ne. absurd (ne refl), λ e. refl)
Takes-take_pointer (some dst) src = (λ ne. refl, λ e. cc)

abbrev pub duration_of : ℤ → Option ℤ
duration_of src = if src == pos 0 then none else some src

Takes-take_duration :
    (dst : Option ℤ) (src : ℤ) → Takes none dst (duration_of src) (take_duration dst src)
unfolding Takes
Takes-take_duration none src = (λ ne. absurd (ne refl), λ e. refl)
Takes-take_duration (some dst) src = (λ ne. refl, λ e. cc)

Takes-take_map : (dst src : List (String × ℤ)) → Takes [] dst src (take_map dst src)
unfolding Takes
Takes-take_map [] src = (λ ne. absurd (ne refl), λ e. refl)
Takes-take_map (d ∷ ds) src = (λ ne. refl, λ e. cc)

abbrev pub port_of : Option ℤ → ℤ
port_of none = pos 0
port_of (some port) = port

Takes-take_port : (dst : ℤ) (src : Option ℤ) → Takes (pos 0) dst (port_of src) (take_port dst src)
unfolding Takes
Takes-take_port dst none = ground (arith, beq-cases dst (pos 0))
Takes-take_port dst (some src) = ground (arith, beq-cases dst (pos 0))

abbrev pub elect_of : Option Bool → Bool
elect_of none = false
elect_of (some elect) = elect

Takes-take_election :
    (dst : Bool) (src : Option Bool) → Takes false dst (elect_of src) (take_election dst src)
unfolding Takes
Takes-take_election true none = (λ ne. refl, λ e. cc)
Takes-take_election true (some src) = (λ ne. refl, λ e. cc)
Takes-take_election false none = (λ ne. refl, λ e. refl)
Takes-take_election false (some src) = (λ ne. absurd (ne refl), λ e. refl)

abbrev pub spec_of : Option ControllerSpec → ControllerSpec
spec_of none = record { group_kind_concurrency = []; cache_sync_timeout = none }
spec_of (some spec) = spec

-- each option, against what the configuration has for it
unfoldable pub AllTaken :
    {V : Type 0} → Options V → LeaderElectionConfiguration → ConfigurationSpec → Options V → Type 0
AllTaken o le c n =
    Takes false o.leader_election (elect_of le.leader_elect) n.leader_election
    × Takes "" o.leader_election_resource_lock le.resource_lock n.leader_election_resource_lock
    × Takes "" o.leader_election_namespace le.resource_namespace n.leader_election_namespace
    × Takes "" o.leader_election_id le.resource_name n.leader_election_id
    × Takes none o.lease_duration (duration_of le.lease_duration) n.lease_duration
    × Takes none o.renew_deadline (duration_of le.renew_deadline) n.renew_deadline
    × Takes none o.retry_period (duration_of le.retry_period) n.retry_period
    × Takes none o.sync_period c.sync_period n.sync_period
    × Takes "" o.namespace c.cache_namespace n.namespace
    × Takes "" o.metrics_bind_address c.metrics_bind_address n.metrics_bind_address
    × Takes "" o.health_probe_bind_address c.health_probe_bind_address n.health_probe_bind_address
    × Takes "" o.readiness_endpoint_name c.readiness_endpoint_name n.readiness_endpoint_name
    × Takes "" o.liveness_endpoint_name c.liveness_endpoint_name n.liveness_endpoint_name
    × Takes (pos 0) o.port (port_of c.webhook_port) n.port
    × Takes "" o.host c.webhook_host n.host
    × Takes "" o.cert_dir c.webhook_cert_dir n.cert_dir
    × Takes [] o.controller.group_kind_concurrency (spec_of c.controller).group_kind_concurrency
        n.controller.group_kind_concurrency
    × Takes none o.controller.cache_sync_timeout (spec_of c.controller).cache_sync_timeout
        n.controller.cache_sync_timeout

Takes-concurrency :
    (dst : ControllerSpec) (src : Option ControllerSpec)
    → Takes [] dst.group_kind_concurrency
        (spec_of src).group_kind_concurrency
        (take_controller dst src).group_kind_concurrency
unfolding Takes
Takes-concurrency dst none = (λ ne. refl, λ e. e)
Takes-concurrency dst (some src) =
    Takes-take_map dst.group_kind_concurrency src.group_kind_concurrency

Takes-cache_sync :
    (dst : ControllerSpec) (src : Option ControllerSpec)
    → Takes none dst.cache_sync_timeout
        (spec_of src).cache_sync_timeout
        (take_controller dst src).cache_sync_timeout
unfolding Takes
Takes-cache_sync dst none = (λ ne. refl, λ e. e)
Takes-cache_sync dst (some src) = Takes-take_pointer dst.cache_sync_timeout src.cache_sync_timeout

module _ {V : Type 0} where
  taken :
      (o : Options V) (le : LeaderElectionConfiguration) (c : ConfigurationSpec)
      → AllTaken o le c (take_rest (take_leader_election o le) c)
  unfolding AllTaken take_leader_election take_rest
  taken o le c = (
    Takes-take_election o.leader_election le.leader_elect,
    Takes-take_string o.leader_election_resource_lock le.resource_lock,
    Takes-take_string o.leader_election_namespace le.resource_namespace,
    Takes-take_string o.leader_election_id le.resource_name,
    Takes-take_duration o.lease_duration le.lease_duration,
    Takes-take_duration o.renew_deadline le.renew_deadline,
    Takes-take_duration o.retry_period le.retry_period,
    Takes-take_pointer o.sync_period c.sync_period,
    Takes-take_string o.namespace c.cache_namespace,
    Takes-take_string o.metrics_bind_address c.metrics_bind_address,
    Takes-take_string o.health_probe_bind_address c.health_probe_bind_address,
    Takes-take_string o.readiness_endpoint_name c.readiness_endpoint_name,
    Takes-take_string o.liveness_endpoint_name c.liveness_endpoint_name,
    Takes-take_port o.port c.webhook_port,
    Takes-take_string o.host c.webhook_host,
    Takes-take_string o.cert_dir c.webhook_cert_dir,
    Takes-concurrency o.controller c.controller,
    Takes-cache_sync o.controller c.controller,
  )

take_string-twice : (dst src : String) → take_string (take_string dst src) src ≡ take_string dst src
take_string-twice dst src = ground (arith, beq-cases dst "", beq-cases src "")

take_pointer-twice :
    {A : Type 0} (dst src : Option A)
    → take_pointer (take_pointer dst src) src ≡ take_pointer dst src
take_pointer-twice none none = refl
take_pointer-twice none (some src) = refl
take_pointer-twice (some dst) src = refl

take_duration-twice :
    (dst : Option ℤ) (src : ℤ) → take_duration (take_duration dst src) src ≡ take_duration dst src
take_duration-twice none src = ground (arith, beq-cases src (pos 0))
take_duration-twice (some dst) src = refl

take_map-twice : (dst src : List (String × ℤ)) → take_map (take_map dst src) src ≡ take_map dst src
take_map-twice [] [] = refl
take_map-twice [] (s ∷ src) = refl
take_map-twice (d ∷ dst) src = refl

take_port-twice : (dst : ℤ) (src : Option ℤ) → take_port (take_port dst src) src ≡ take_port dst src
take_port-twice dst none = refl
take_port-twice dst (some src) = ground (arith, beq-cases dst (pos 0))

take_election-twice :
    (dst : Bool) (src : Option Bool)
    → take_election (take_election dst src) src ≡ take_election dst src
take_election-twice dst none = refl
take_election-twice true (some src) = refl
take_election-twice false (some true) = refl
take_election-twice false (some false) = refl

take_controller-twice :
    (dst : ControllerSpec) (src : Option ControllerSpec)
    → take_controller (take_controller dst src) src ≡ take_controller dst src
take_controller-twice dst none = refl
take_controller-twice dst (some src) =
    rw (take_map-twice dst.group_kind_concurrency src.group_kind_concurrency)
      (rw (take_pointer-twice dst.cache_sync_timeout src.cache_sync_timeout))

module _ {V : Type 0} where
  take-twice :
      (o : Options V) (le : LeaderElectionConfiguration) (c : ConfigurationSpec)
      → let n = take_rest (take_leader_election o le) c in
        take_rest (take_leader_election n le) c ≡ n
  unfolding take_leader_election take_rest
  take-twice o le c = simp (
    take_string-twice, take_pointer-twice, take_duration-twice, take_port-twice,
    take_election-twice, take_controller-twice,
  )

module _ {V Err : Type 0} where
  -- For a configuration that has a section on leader election, `AndFrom` returns no error. Each of the
  -- eighteen options that a configuration can give is then the one that was set, and the
  -- configuration's where none was set; the timeout of the graceful shutdown is what it was, whatever
  -- the configuration has. To take the same configuration again changes nothing.
  pub and_from_lem :
      (o : Options V) (le : LeaderElectionConfiguration) (c : ConfigurationSpec)
      → c.leader_election ≡ some le
      → (n : Options V) × (and_from {Err = Err} o none (ok c) ≡ loaded n)
        × AllTaken o le c n
        × (n.graceful_shutdown_timeout ≡ o.graceful_shutdown_timeout)
        × (and_from {Err = Err} n none (ok c) ≡ loaded n)
  unfolding and_from set_leader_election_config take_leader_election take_rest
  and_from_lem o le c section =
      let n = take_rest (take_leader_election o le) c in
      (n, rw section, taken o le c, refl, rw section (ap loaded (take-twice o le c)))
