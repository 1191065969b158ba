-- ===== src/Crds/Types/Workload.antt =====
-- Security, resources, probes, environment and scheduling types of
-- crates/servarr-crds/src/v1alpha1/types.rs, with `serde_json::Value`.
use servarr_operator.Prelude.{
  String, Bool, Option, none, some, List, ◌==◌, is_blank, is_empty, if◌then◌else◌,
}
use servarr_operator.Prelude.IndexMap.{IndexMap}
use servarr_operator.Prelude.Int.{ℤ, eqz}

-- A JSON value; a number is kept by its decimal text.
mutual
  pub data Value : Type 0 where
    null : Value
    bool : Bool → Value
    number : String → Value
    string : String → Value
    array : Elements → Value
    object : Members → Value

  pub data Members : Type 0 where
    no_members : Members
    member : String → Value → Members → Members

  pub data Elements : Type 0 where
    no_elements : Elements
    element : Value → Elements → Elements

-- `value.get(key)`
abbrev pub get_member : String → Members → Option Value
get_member key no_members = none
get_member key (member name value members) =
    let later = get_member key members in if name == key then some value else later

abbrev pub get : String → Value → Option Value
get key (object members) = get_member key members
get key _ = none

pub data SecurityProfileType : Type 0 where
  linux_server non_root custom : SecurityProfileType

pub record SecurityProfile : Type 0 where
  pub profile_type : SecurityProfileType
  pub user : ℤ
  pub group : ℤ
  pub run_as_non_root : Option Bool
  pub read_only_root_filesystem : Option Bool
  pub allow_privilege_escalation : Option Bool
  pub capabilities_add : List String
  pub capabilities_drop : List String

pub record ResourceList : Type 0 where
  pub cpu : String
  pub memory : String

pub record ResourceRequirements : Type 0 where
  pub limits : ResourceList
  pub requests : ResourceList

pub data ProbeType : Type 0 where
  http tcp exec : ProbeType

pub record ProbeConfig : Type 0 where
  pub probe_type : ProbeType
  pub path : String
  pub command : List String
  pub initial_delay_seconds : ℤ
  pub period_seconds : ℤ
  pub timeout_seconds : ℤ
  pub failure_threshold : ℤ

pub record ProbeSpec : Type 0 where
  pub liveness : ProbeConfig
  pub readiness : ProbeConfig

pub record EnvVar : Type 0 where
  pub name : String
  pub value : String

pub record NodeScheduling : Type 0 where
  pub node_selector : IndexMap String
  pub tolerations : List Value
  pub affinity : Option Value

pub record NetworkPolicyConfig : Type 0 where
  pub allow_same_namespace : Bool
  pub allow_dns : Bool
  pub allow_internet_egress : Bool
  pub denied_cidr_blocks : List String
  pub custom_egress_rules : List Value

pub record GpuSpec : Type 0 where
  pub nvidia : Option ℤ
  pub intel : Option ℤ
  pub amd : Option ℤ

-- A field that is empty or 0 takes the default.
unfoldable pub merge_probe_config : ProbeConfig → ProbeConfig → ProbeConfig
merge_probe_config self defaults = record {
  probe_type = self.probe_type;
  path = if is_blank self.path then defaults.path else self.path;
  command = if is_empty self.command then defaults.command else self.command;
  initial_delay_seconds =
      if eqz self.initial_delay_seconds 0
      then defaults.initial_delay_seconds
      else self.initial_delay_seconds;
  period_seconds =
      if eqz self.period_seconds 0 then defaults.period_seconds else self.period_seconds;
  timeout_seconds =
      if eqz self.timeout_seconds 0 then defaults.timeout_seconds else self.timeout_seconds;
  failure_threshold =
      if eqz self.failure_threshold 0 then defaults.failure_threshold else self.failure_threshold;
}

unfoldable pub merge_probes : ProbeSpec → ProbeSpec → ProbeSpec
unfolding merge_probe_config
merge_probes self defaults = record {
  liveness = merge_probe_config self.liveness defaults.liveness;
  readiness = merge_probe_config self.readiness defaults.readiness;
}
