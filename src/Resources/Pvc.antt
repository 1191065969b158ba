-- ===== src/Resources/Pvc.antt =====
-- The persistent volume claims of an app: `build_all` of crates/servarr-resources/src/pvc.rs, with
-- the names of crates/servarr-resources/src/common.rs. Labels and owner references of the metadata
-- are left out.
use servarr_operator.Prelude.{
  String, Bool, true, false, Option, none, some, List, [], ◌∷◌, ◌++◌, map, filter, is_blank,
  is_none, unwrap_or, ◌⧺◌, Result, ok, err, if◌then◌else◌,
}
use servarr_operator.Crds.AppConfig.{AppConfig, SshMode, SshUser, shell}
use servarr_operator.Crds.Spec.{ServarrAppSpec}
use servarr_operator.Crds.Types.Persistence.{PvcVolume, PersistenceSpec}
use servarr_operator.Crds.Defaults.Collisions.{PersistenceError}
use servarr_operator.Crds.Defaults.Resolve.{resolve_persistence_for_spec}
use servarr_operator.Crds.Defaults.Compiled.{
  AppImageDefaults, AppDefaults, DefaultsError, try_for_app,
}

-- A `ServarrApp` by the parts of it that its claims and its cleanup read.
pub record ServarrApp : Type 0 where
  pub name : Option String
  pub uid : Option String
  pub spec : ServarrAppSpec

abbrev pub app_name : ServarrApp → String
app_name app = unwrap_or app.name "unknown"

unfoldable pub child_name : ServarrApp → String → String
child_name app suffix = if is_blank suffix then app_name app else app_name app ⧺ "-" ⧺ suffix

pub record Pvc : Type 0 where
  pub name : String
  pub access_modes : List String
  pub storage : String
  pub storage_class_name : Option String

unfoldable pub build_one : ServarrApp → PvcVolume → Pvc
unfolding child_name
build_one app vol = record {
  name = child_name app vol.name;
  access_modes = vol.access_mode ∷ [];
  storage = vol.size;
  storage_class_name = if is_blank vol.storage_class then none else some vol.storage_class;
}

unfoldable pub build_ssh_home_pvc : ServarrApp → String → Pvc
unfolding child_name
build_ssh_home_pvc app username = record {
  name = child_name app ("ssh-home-" ⧺ username);
  access_modes = "ReadWriteOnce" ∷ [];
  storage = "10Mi";
  storage_class_name = none;
}

abbrev is_shell : SshMode → Bool
is_shell shell = true
is_shell _ = false

-- The block on the SSH bastion's users.
abbrev ssh_homes : ServarrApp → Option AppConfig → List Pvc
ssh_homes app (some (AppConfig.ssh_bastion sc)) =
    map (λ (u : SshUser). build_ssh_home_pvc app u.name) (filter (λ u. is_shell u.mode) sc.users)
ssh_homes app _ = []

pub data BuildError : Type 0 where
  defaults_error : DefaultsError → BuildError
  persistence_error : PersistenceError → BuildError

abbrev claims_of :
    ServarrApp → Result PersistenceError PersistenceSpec → Result BuildError (List Pvc)
claims_of app (err e) = err (persistence_error e)
claims_of app (ok persistence) = ok (
    map (build_one app) (filter (λ v. is_none v.existing_claim_name) persistence.volumes)
    ++ ssh_homes app app.spec.app_config)

abbrev claims_under : ServarrApp → Result DefaultsError AppDefaults → Result BuildError (List Pvc)
claims_under app (err e) = err (defaults_error e)
claims_under app (ok defaults) =
    claims_of app (resolve_persistence_for_spec defaults.persistence app.spec)

unfoldable pub build_all :
    (String → Option AppImageDefaults) → ServarrApp → Result BuildError (List Pvc)
unfolding build_one build_ssh_home_pvc
build_all image_defaults app = claims_under app (try_for_app image_defaults app.spec.app)
