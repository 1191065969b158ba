-- ===== src/Controller/RpcPassword/Settled.antt =====
-- After a write of the salted password the next reconcile finds nothing to do.
use servarr_operator.Prelude.{
  String, ◌≡◌, refl, ap, ◌∙◌, subst, true, not, ◌||◌, some, List, [], ◌∷◌, ◌++◌, All, Result, ok,
  Bool-cases, inl, inr, eq_refl, is_none,
}
use servarr_operator.Crds.AppType.{transmission, same_app}
use servarr_operator.Resources.Pvc.{ServarrApp}
use servarr_operator.Controller.RpcPassword.{
  Secret, RpcCall, SecretApi, unreadable_event, write_secret, is_owned_by, matches, stored_hash,
  write_hash, derived_name, read_admin_password, ensure_rpc_password_secret,
}
use servarr_operator.Controller.RpcPassword.Laws.{
  IsDigest, desired_hash-kept, Guarded, an_event, a_write, ensure_rpc_password_secret-Guarded,
}

module _ (sha1_hex : String → String) (digest : IsDigest sha1_hex) where
  -- A written hash is one of the admin password.
  abbrev Matched : SecretApi → ServarrApp → RpcCall → Type 0
  Matched cluster app (unreadable_event e) = Unit
  Matched cluster app (write_secret name uid hash) =
      (password : String) × (read_admin_password cluster app ≡ (ok (some password), []))
      × (matches sha1_hex hash password ≡ true)

  Guarded-Matched :
      (cluster : SecretApi) (app : ServarrApp) (call : RpcCall)
      → Guarded sha1_hex digest cluster app call
      → Matched cluster app call
  Guarded-Matched cluster app _ (an_event e) = tt
  Guarded-Matched cluster app _ (a_write password hash existing kind read there mine same new) =
      (password, read, same)

  write_hash-kept :
      (cluster : SecretApi) (app : ServarrApp) (name password hash : String) (secret : Secret)
      → is_owned_by secret app ≡ true
      → stored_hash (some secret) ≡ some hash
      → matches sha1_hex hash password ≡ true
      → write_hash sha1_hex cluster app name password (some secret) ≡ (ok tt, [])
  unfolding write_hash
  write_hash-kept cluster app name password hash secret mine stored same =
      rw
        (
          mine,
          stored,
          desired_hash-kept sha1_hex digest cluster.salt hash password same,
          eq_refl hash,
        )
        refl

  -- After a reconcile that wrote the derived Secret, a reconcile that reads the same admin password
  -- and finds the Secret as it was written, with the app among its owners, succeeds without a call.
  pub ensure_rpc_password_secret_settled :
      (cluster next : SecretApi) (app : ServarrApp) (hash : String) (secret : Secret)
      → (ensure_rpc_password_secret sha1_hex cluster app).1
        ≡ write_secret (derived_name app) app.uid hash ∷ []
      → read_admin_password next app ≡ read_admin_password cluster app
      → next.get_opt (derived_name app) ≡ ok (some secret)
      → is_owned_by secret app ≡ true
      → stored_hash (some secret) ≡ some hash
      → ensure_rpc_password_secret sha1_hex next app ≡ (ok tt, [])
  unfolding ensure_rpc_password_secret
  ensure_rpc_password_secret_settled cluster next app hash secret wrote again found mine stored =
      let guarded =
        subst (All (Guarded sha1_hex digest cluster app)) wrote
          (ensure_rpc_password_secret-Guarded sha1_hex digest cluster app) in
      let (password, read, same) = Guarded-Matched cluster app _ guarded.0 in
      elim (Bool-cases
        (not (same_app app.spec.app transmission) || is_none app.spec.admin_credentials)) [
          | inl skipped ↦ rw skipped refl
          | inr due ↦
              rw (due, again ∙ read, found)
                (ap (λ (o : Result _ _ × List RpcCall). (o.0, [] ++ o.1))
                  (write_hash-kept next app (derived_name app) password hash secret mine stored
                    same))
        ]
