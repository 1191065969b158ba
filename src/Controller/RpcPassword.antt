-- ===== src/Controller/RpcPassword.antt =====
-- crates/servarr-operator/src/controller/rpc_password.rs: the Secret with Transmission's salted
-- password, with `read_secret_key` of crates/servarr-api/src/k8s.rs.
pub mod Laws
pub mod Settled
use servarr_operator.Prelude.{
  ℕ, ◌-◌, String, Bool, true, false, not, ◌||◌, ◌++◌, Option, none, some, List, [], ◌∷◌, ◌==◌, ◌⧺◌,
  any, eqb, ltb, Result, ok, err, ◌>>=◌, is_some, is_none, strip_prefix, if◌then◌else◌, contains,
}
use servarr_operator.Prelude.Chars.{len_utf8}
use servarr_operator.Prelude.IndexMap.{IndexMap, lookup}
use servarr_operator.Crds.AppType.{AppType, transmission, same_app}
use servarr_operator.Crds.Spec.{ServarrAppSpec}
use servarr_operator.Crds.Types.Sync.{AdminCredentialsSpec}
use servarr_operator.Environment.{OsString, text, raw}
use servarr_operator.Resources.Pvc.{ServarrApp, child_name}
use servarr_operator.Stack.Kube.{KubeError, is_kube_not_found}

-- A `Secret` by the owners' uids and its data, where a value is text or bytes that are no UTF-8.
pub record Secret : Type 0 where
  pub owner_uids : Option (List String)
  pub data_map : Option (IndexMap OsString)

pub data SecretError : Type 0 where
  kube : KubeError → SecretError
  no_data : String → SecretError
  key_not_found invalid_utf8 : String → String → SecretError

pub data RpcError : Type 0 where
  kube_error : KubeError → RpcError
  secret_not_owned : String → RpcError

-- What the API server answers, and the salt that is drawn.
pub record SecretApi : Type 0 where
  pub get : String → Result KubeError Secret
  pub get_opt : String → Result KubeError (Option Secret)
  pub patch : String → Result KubeError (Unit {0})
  pub salt : String

-- A published event, and a patch with the name, the owner's uid and the hash of the Secret.
pub data RpcCall : Type 0 where
  unreadable_event : SecretError → RpcCall
  write_secret : String → Option String → String → RpcCall

abbrev utf8_value : String → String → OsString → Result SecretError String
utf8_value name key (text value) = ok value
utf8_value name key (raw bytes) = err (invalid_utf8 name key)

abbrev key_value : String → String → Option OsString → Result SecretError String
key_value name key none = err (key_not_found name key)
key_value name key (some value) = utf8_value name key value

abbrev data_value : String → String → Option (IndexMap OsString) → Result SecretError String
data_value name key none = err (no_data name)
data_value name key (some data_map) = key_value name key (lookup key data_map)

abbrev secret_value : String → String → Result KubeError Secret → Result SecretError String
secret_value name key (err e) = err (kube e)
secret_value name key (ok secret) = data_value name key secret.data_map

unfoldable pub read_secret_key : SecretApi → String → String → Result SecretError String
unfolding lookup
read_secret_key cluster name key = secret_value name key (cluster.get name)

abbrev owner_matches : Option (List String) → Option String → Bool
owner_matches (some uids) (some uid) = contains uid uids
owner_matches _ _ = false

unfoldable pub is_owned_by : Secret → ServarrApp → Bool
unfolding contains
is_owned_by secret app = owner_matches secret.owner_uids app.uid

-- What an unreadable admin password leads to.
abbrev pub unreadable_password : SecretError → Result RpcError (Option String) × List RpcCall
unreadable_password (kube e) =
    if is_kube_not_found e
    then (ok none, unreadable_event (kube e) ∷ [])
    else (err (kube_error e), [])
unreadable_password other = (ok none, unreadable_event other ∷ [])

abbrev pub password_read :
    Result SecretError String → Result RpcError (Option String) × List RpcCall
password_read (ok password) = (ok (some password), [])
password_read (err e) = unreadable_password e

abbrev pub password_for :
    SecretApi → Option AdminCredentialsSpec → Result RpcError (Option String) × List RpcCall
password_for cluster none = (ok none, [])
password_for cluster (some ac) = password_read (read_secret_key cluster ac.secret_name "password")

unfoldable pub read_admin_password :
    SecretApi → ServarrApp → Result RpcError (Option String) × List RpcCall
unfolding read_secret_key is_kube_not_found
read_admin_password cluster app = password_for cluster app.spec.admin_credentials

-- `existing_hash`
abbrev pub text_of : Option OsString → Option String
text_of (some (text value)) = some value
text_of _ = none

abbrev pub hash_in : Option (IndexMap OsString) → Option String
hash_in none = none
hash_in (some data_map) = text_of (lookup "password" data_map)

abbrev pub stored_hash : Option Secret → Option String
stored_hash none = none
stored_hash (some secret) = hash_in secret.data_map

-- `existing.as_ref().is_some_and(|s| !is_owned_by(s, app))`
abbrev pub foreign : Option Secret → ServarrApp → Bool
foreign none app = false
foreign (some secret) app = not (is_owned_by secret app)

abbrev pub same_hash : Option String → String → Bool
same_hash none hash = false
same_hash (some old) hash = old == hash

abbrev pub patch_result : Result KubeError (Unit {0}) → Result RpcError (Unit {0})
patch_result (ok done) = ok tt
patch_result (err e) = err (kube_error e)

abbrev pub derived_name : ServarrApp → String
derived_name app = child_name app "rpc-password"

-- `str::get(n..)` on bytes: none inside a character and past the end.
unfoldable pub get_from : ℕ → String → Option String
get_from n String.[] = if eqb n 0 then some "" else none
get_from n (String.◌∷◌ c s) =
    let later = get_from (n - len_utf8 c) s in
    if eqb n 0 then some (String.◌∷◌ c s) else if ltb n (len_utf8 c) then none else later

abbrev pub digest_hex_len : ℕ
digest_hex_len = 40

-- `sha1_hex` is the hex text of the SHA-1 of the bytes of a text; two updates of a hasher hash the
-- one text after the other.
module _ (sha1_hex : String → String) where
  unfoldable pub salted : String → String → String
  unfolding ◌⧺◌
  salted password salt = "{" ⧺ (sha1_hex (password ⧺ salt) ⧺ salt)

  abbrev pub matches_from : Option String → String → String → Bool
  matches_from none hash password = false
  matches_from (some salt) hash password = salted password salt == hash

  abbrev pub salt_of : Option String → Option String
  salt_of none = none
  salt_of (some rest) = get_from digest_hex_len rest

  unfoldable pub matches : String → String → Bool
  unfolding strip_prefix get_from salted
  matches hash password = matches_from (salt_of (strip_prefix "{" hash)) hash password

  -- `salt` is what `random_salt` draws.
  unfoldable pub desired_hash : String → Option String → String → String
  unfolding matches
  desired_hash salt none password = salted password salt
  desired_hash salt (some hash) password =
      if matches hash password then hash else salted password salt

  -- With the existing Secret and the admin password at hand.
  unfoldable pub write_hash :
      SecretApi
      → ServarrApp
      → String
      → String
      → Option Secret
      → Result RpcError (Unit {0}) × List RpcCall
  unfolding is_owned_by desired_hash lookup
  write_hash cluster app name password existing =
      let hash = desired_hash cluster.salt (stored_hash existing) password in
      if foreign existing app
      then (err (secret_not_owned name), [])
      else if same_hash (stored_hash existing) hash
      then (ok tt, [])
      else (patch_result (cluster.patch name), write_secret name app.uid hash ∷ [])

  abbrev pub with_existing :
      SecretApi
      → ServarrApp
      → String
      → String
      → Result KubeError (Option Secret)
      → Result RpcError (Unit {0}) × List RpcCall
  with_existing cluster app name password (err e) = (err (kube_error e), [])
  with_existing cluster app name password (ok existing) =
      write_hash cluster app name password existing

  abbrev pub with_password :
      SecretApi
      → ServarrApp
      → Result RpcError (Option String) × List RpcCall
      → Result RpcError (Unit {0}) × List RpcCall
  with_password cluster app (err e, calls) = (err e, calls)
  with_password cluster app (ok none, calls) = (ok tt, calls)
  with_password cluster app (ok (some password), calls) =
      let (result, later) =
        with_existing cluster app (derived_name app) password
          (cluster.get_opt (derived_name app)) in
      (result, calls ++ later)

  unfoldable pub ensure_rpc_password_secret :
      SecretApi → ServarrApp → Result RpcError (Unit {0}) × List RpcCall
  unfolding read_admin_password write_hash same_app child_name
  ensure_rpc_password_secret cluster app =
      let ensured = with_password cluster app (read_admin_password cluster app) in
      if not (same_app app.spec.app transmission) || is_none app.spec.admin_credentials
      then (ok tt, [])
      else ensured
