-- ===== src/Crds/Types/Nfs.antt =====
-- `NfsServerSpec` of crates/servarr-crds/src/v1alpha1/types.rs.
use servarr_operator.Prelude.{
  String, Bool, ◌&&◌, ◌||◌, Option, none, some, ◌==◌, is_blank, is_none, eqb, ◌⧺◌, if◌then◌else◌,
}
use Prim.Native.Char.{code}
use servarr_operator.Crds.Types.Image.{ImageSpec}

pub record NfsServerSpec : Type 0 where
  pub enabled : Bool
  pub storage_size : String
  pub storage_class : Option String
  pub image : Option ImageSpec
  pub movies_path : String
  pub tv_path : String
  pub music_path : String
  pub movies_4k_path : String
  pub tv_4k_path : String
  pub external_server : Option String
  pub external_path : String

unfoldable pub deploy_in_cluster : NfsServerSpec → Bool
deploy_in_cluster nfs = is_none nfs.external_server && nfs.enabled

-- The address by the external server that is configured, if any.
abbrev address_of : Option String → Bool → String → String → Option String
address_of (some ext) enabled stack_name namespace = some ext
address_of none enabled stack_name namespace =
    if enabled then some (stack_name ⧺ "-nfs-server." ⧺ namespace ⧺ ".svc.cluster.local") else none

unfoldable pub server_address : NfsServerSpec → String → String → Option String
server_address nfs stack_name namespace =
    address_of nfs.external_server nfs.enabled stack_name namespace

-- `str::trim_end_matches('/')`: a slash goes if all that follows it went.
unfoldable pub trim_end_slashes : String → String
trim_end_slashes String.[] = ""
trim_end_slashes (String.◌∷◌ c s) =
    let rest = trim_end_slashes s in
    if eqb (code c) b'/' && is_blank rest then "" else String.◌∷◌ c rest

-- The path under the external export root, if there is an external server.
unfoldable pub nfs_path : NfsServerSpec → String → String
unfolding trim_end_slashes
nfs_path nfs media_subpath =
    if is_none nfs.external_server
    then media_subpath
    else let root = trim_end_slashes nfs.external_path in
      if is_blank root || root == "/" then media_subpath else root ⧺ media_subpath
