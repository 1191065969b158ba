-- ===== src/Crds/Stack/Expand.antt =====
-- The injection of NFS mounts and `StackApp::expand` of
-- crates/servarr-crds/src/v1alpha1/media_stack.rs.
pub mod Laws
pub mod Children
pub mod FourK
use servarr_operator.Prelude.{
  String, Bool, true, false, not, ◌&&◌, Option, none, some, List, [], ◌∷◌, is_empty, is_some,
  or_option, ◌⧺◌, Result, ok, err, if◌then◌else◌,
}
use servarr_operator.Crds.AppType.{
  AppType, sonarr, radarr, lidarr, sabnzbd, transmission, plex, jellyfin, maintainerr, ssh_bastion,
  as_str,
}
use servarr_operator.Crds.Spec.{ServarrAppSpec}
use servarr_operator.Crds.Types.Persistence.{NfsMount, PersistenceSpec, merge_with}
use servarr_operator.Crds.Types.Nfs.{NfsServerSpec, server_address, nfs_path}
use servarr_operator.Crds.Stack.{
  StackApp, StackDefaults, Split4kOverrides, child_name, split4k_valid, merge_env, to_servarr_spec,
}

-- The closure `make`.
make : NfsServerSpec → String → String → String → String → NfsMount
unfolding nfs_path
make nfs server name server_path mount_path = record {
  name = name;
  server = server;
  path = nfs_path nfs server_path;
  mount_path = mount_path;
  read_only = false;
}

-- The mounts of the download clients and of the media servers.
abbrev all_media : NfsServerSpec → String → List NfsMount
all_media nfs server =
    make nfs server "movies" nfs.movies_path nfs.movies_path
    ∷ make nfs server "tv" nfs.tv_path nfs.tv_path
    ∷ make nfs server "music" nfs.music_path nfs.music_path
    ∷ make nfs server "movies-4k" nfs.movies_4k_path nfs.movies_4k_path
    ∷ make nfs server "tv-4k" nfs.tv_4k_path nfs.tv_4k_path
    ∷ []

unfoldable pub media_mounts : NfsServerSpec → String → Bool → AppType → List NfsMount
unfolding make
media_mounts nfs server is_4k sonarr =
    make nfs server "tv" (if is_4k then nfs.tv_4k_path else nfs.tv_path) nfs.tv_path ∷ []
media_mounts nfs server is_4k radarr =
    make nfs server "movies" (if is_4k then nfs.movies_4k_path else nfs.movies_path) nfs.movies_path
    ∷ []
media_mounts nfs server is_4k lidarr = make nfs server "music" nfs.music_path nfs.music_path ∷ []
media_mounts nfs server is_4k sabnzbd = all_media nfs server
media_mounts nfs server is_4k transmission = all_media nfs server
media_mounts nfs server is_4k plex = all_media nfs server
media_mounts nfs server is_4k jellyfin = all_media nfs server
media_mounts nfs server is_4k maintainerr =
    make nfs server "movies" nfs.movies_path nfs.movies_path
    ∷ make nfs server "tv" nfs.tv_path nfs.tv_path
    ∷ []
media_mounts nfs server is_4k ssh_bastion =
    make nfs server "movies" nfs.movies_path nfs.movies_path
    ∷ make nfs server "tv" nfs.tv_path nfs.tv_path
    ∷ make nfs server "music" nfs.music_path nfs.music_path
    ∷ []
media_mounts nfs server is_4k _ = []

abbrev under_user : Option PersistenceSpec → PersistenceSpec → PersistenceSpec
under_user none injected = injected
under_user (some user) injected = merge_with user injected

-- The mounts merged below those of the user; nothing happens without mounts.
unfoldable pub add_mounts : List NfsMount → ServarrAppSpec → ServarrAppSpec
add_mounts [] spec = spec
add_mounts (m ∷ ms) spec = record spec {
  persistence = some (
      under_user spec.persistence
        (record { volumes = []; nfs_mounts = m ∷ ms; removed_default_volumes = [] }));
}

abbrev inject_from : Option String → NfsServerSpec → Bool → ServarrAppSpec → ServarrAppSpec
inject_from none nfs is_4k spec = spec
inject_from (some server) nfs is_4k spec = add_mounts (media_mounts nfs server is_4k spec.app) spec

unfoldable pub inject_nfs_mounts :
    ServarrAppSpec → Option NfsServerSpec → Bool → String → String → ServarrAppSpec
unfolding media_mounts add_mounts server_address
inject_nfs_mounts spec none is_4k stack_name stack_namespace = spec
inject_nfs_mounts spec (some nfs) is_4k stack_name stack_namespace =
    inject_from (server_address nfs stack_name stack_namespace) nfs is_4k spec

-- The block on `split4k_overrides`, over the 4K clone; `self` is the app that is cloned.
abbrev override_4k : StackApp → Option Split4kOverrides → StackApp → StackApp
override_4k self none four_k_app = four_k_app
override_4k self (some overrides) four_k_app = record four_k_app {
  image = or_option overrides.image four_k_app.image;
  resources = or_option overrides.resources four_k_app.resources;
  persistence = or_option overrides.persistence four_k_app.persistence;
  env = if is_empty overrides.env then four_k_app.env else merge_env self.env overrides.env;
  service = or_option overrides.service four_k_app.service;
  service_name = or_option overrides.service_name four_k_app.service_name;
  gateway = or_option overrides.gateway four_k_app.gateway;
  admin_credentials = or_option overrides.admin_credentials four_k_app.admin_credentials;
}

unfoldable pub four_k_app : StackApp → StackApp
unfolding merge_env
four_k_app self =
    override_4k self self.split4k_overrides
      (record self { instance_label = some "4k"; split4k = none })

-- `self.split4k == Some(true)`
abbrev pub is_split : Option Bool → Bool
is_split none = false
is_split (some b) = b

unfoldable pub expand :
    StackApp
    → String
    → String
    → Option StackDefaults
    → Option NfsServerSpec
    → Result String (List (String × ServarrAppSpec))
unfolding inject_nfs_mounts four_k_app
expand self stack_name stack_namespace defaults nfs =
    let base : String × ServarrAppSpec = (
      child_name self stack_name,
      inject_nfs_mounts (to_servarr_spec self defaults) nfs false stack_name stack_namespace,
    ) in
    let four_k : String × ServarrAppSpec = (
      stack_name ⧺ "-" ⧺ as_str self.app ⧺ "-4k",
      inject_nfs_mounts (to_servarr_spec (four_k_app self) defaults) nfs true stack_name
          stack_namespace,
    ) in
    if is_split self.split4k && not (split4k_valid self.app)
    then err ("split4k is only valid for Sonarr and Radarr, not " ⧺ as_str self.app)
    else ok (if is_split self.split4k then base ∷ four_k ∷ [] else base ∷ [])
