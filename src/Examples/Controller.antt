-- ===== src/Examples/Controller.antt =====
-- Runs of the event notes, of the drift test and of the salted password.
use servarr_operator.Prelude.{
  err, ℕ, zero, suc, ◌≤◌, String, ◌≡◌, ◌↔◌, ◌⊎◌, refl, Bool, true, false, none, some, [], ◌∷◌, ◌==◌,
  ◌⧺◌, All, ok,
}
use servarr_operator.Prelude.Chars.{byte_len}
use servarr_operator.Prelude.IndexMap.{lookup}
use servarr_operator.Crds.AppType.{transmission}
use servarr_operator.Crds.Types.Workload.{
  Value, bool, number, string, array, object, member, no_members, element, no_elements,
}
use servarr_operator.Environment.{text}
use servarr_operator.Resources.Pvc.{ServarrApp}
use servarr_operator.Controller.Notes.{clamp_event_note}
use servarr_operator.Controller.Notes.Laws.{IsCut, clamp_event_note_lem}
use servarr_operator.Controller.Drift.{json_diff_paths, json_is_subset}
use servarr_operator.Controller.Drift.Laws.{json_diff_paths_iff}
use servarr_operator.Controller.RpcPassword.{
  Secret, SecretApi, write_secret, derived_name, stored_hash, is_owned_by, read_admin_password,
  ensure_rpc_password_secret,
}
use servarr_operator.Controller.RpcPassword.Laws.{
  IsDigest, Guarded, ensure_rpc_password_secret-Guarded,
}
use servarr_operator.Controller.RpcPassword.Settled.{ensure_rpc_password_secret_settled}
use servarr_operator.Prelude.Int.{ℤ, pos, eqz}
use servarr_operator.Controller.Cleanup.{
  SeerrClient, api_response, seerr_remove_server, finish_cleanup,
}
use servarr_operator.Controller.Cleanup.Laws.{Removed, finish_cleanup_iff}
use servarr_operator.Examples.Data.{spec_of}

repeat : ℕ → String → String
repeat zero s = ""
repeat (suc n) s = s ⧺ repeat n s

-- Eight bytes, 150 times.
long_note : String
unfolding repeat
long_note = repeat 150 "app — "

clamp_event_note_example :
    (byte_len (clamp_event_note long_note) ≤ 1024)
    × (((byte_len long_note ≤ 1024) × (clamp_event_note long_note ≡ long_note))
        ⊎ IsCut long_note (clamp_event_note long_note))
clamp_event_note_example = clamp_event_note_lem long_note

abbrev is_zero_number : String → Bool
is_zero_number n = n == "0"

abbrev same_number : String → String → Bool
same_number a b = a == b

abbrev desired_object : Value
desired_object = object (
    member "replicas" (number "1") (
      member "paused" (bool false)
        (member "args" (array (element (string "-v") no_elements)) no_members)))

abbrev actual_object : Value
actual_object = object (
    member "args" (array (element (string "-q") no_elements))
      (member "replicas" (number "1") no_members))

json_diff_paths_example :
    (json_diff_paths is_zero_number same_number desired_object actual_object "" ≡ [])
    ↔ (json_is_subset is_zero_number same_number desired_object actual_object ≡ true)
json_diff_paths_example =
    json_diff_paths_iff is_zero_number same_number desired_object actual_object ""

abbrev sha1_hex : String → String
sha1_hex s = "a94a8fe5ccb19ba61c4c0873d391e987982fbbd3"

sha1_hex-IsDigest : IsDigest sha1_hex
sha1_hex-IsDigest s = refl

abbrev tx_app : ServarrApp
tx_app = record {
  name = some "tx";
  uid = some "uid-tx";
  spec = record (spec_of transmission none none) {
    admin_credentials = some (record { secret_name = "tx-admin" });
  };
}

abbrev admin_secret : Secret
admin_secret = record { owner_uids = none; data_map = some (("password", text "test") ∷ []) }

abbrev first_hash : String
first_hash = "{a94a8fe5ccb19ba61c4c0873d391e987982fbbd3AMbyRHJy"

abbrev written : Secret
written = record {
  owner_uids = some ("uid-tx" ∷ []);
  data_map = some (("password", text first_hash) ∷ []);
}

-- The derived Secret is missing at first; another salt is drawn the second time.
abbrev cluster : SecretApi
cluster = record {
  get = λ name. ok admin_secret;
  get_opt = λ name. ok none;
  patch = λ name. ok tt;
  salt = "AMbyRHJy";
}

abbrev next : SecretApi
next = record {
  get = λ name. ok admin_secret;
  get_opt = λ name. ok (some written);
  patch = λ name. ok tt;
  salt = "0OSwJtOL";
}

first_run :
    (ensure_rpc_password_secret sha1_hex cluster tx_app).1
    ≡ write_secret (derived_name tx_app) tx_app.uid first_hash ∷ []
unfolding ensure_rpc_password_secret
first_run = refl

same_reading : read_admin_password next tx_app ≡ read_admin_password cluster tx_app
unfolding read_admin_password
same_reading = refl

ensure_rpc_password_secret-Guarded_example :
    All
      (Guarded sha1_hex sha1_hex-IsDigest cluster tx_app)
      (ensure_rpc_password_secret sha1_hex cluster tx_app).1
ensure_rpc_password_secret-Guarded_example =
    ensure_rpc_password_secret-Guarded sha1_hex sha1_hex-IsDigest cluster tx_app

owned_run : (is_owned_by written tx_app ≡ true) × (stored_hash (some written) ≡ some first_hash)
unfolding is_owned_by lookup
owned_run = (refl, refl)

ensure_rpc_password_secret_settled_example :
    ensure_rpc_password_secret sha1_hex next tx_app ≡ (ok tt, [])
ensure_rpc_password_secret_settled_example =
    ensure_rpc_password_secret_settled sha1_hex sha1_hex-IsDigest cluster next tx_app first_hash
      written first_run same_reading refl owned_run.0 owned_run.1

-- The app's server is listed, and is gone when it is deleted.
abbrev seerr_client : SeerrClient ℕ
seerr_client = record {
  list = ok (record { hostname = "sonarr"; port = 8989; id = pos 3 } ∷ []);
  delete = λ id. err (api_response 404);
}

abbrev same_port : ℕ → ℤ → Bool
same_port port asked = eqz asked port

finish_cleanup_example :
    (((finish_cleanup (seerr_remove_server same_port seerr_client "sonarr" (pos 8989))).0 ≡ ok tt)
      ↔ Removed same_port seerr_client "sonarr" (pos 8989))
    × (((finish_cleanup (seerr_remove_server same_port seerr_client "sonarr" (pos 8989))).1 ≡ false)
        ↔ Removed same_port seerr_client "sonarr" (pos 8989))
finish_cleanup_example = finish_cleanup_iff same_port seerr_client "sonarr" (pos 8989)
