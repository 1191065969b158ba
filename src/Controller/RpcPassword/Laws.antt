-- ===== src/Controller/RpcPassword/Laws.antt =====
-- The salted password: what is written, and when a reconcile writes nothing.
use servarr_operator.Prelude.{
  ℕ, ◌+◌, ◌-◌, ◌≤◌, some_injective, is_none, String, ◌≡◌, ◌≢◌, refl, sym, ap, ◌∙◌, true, false, not,
  ◌||◌, Option, none, some, List, [], ◌⧺◌, arith, eqb, ltb, All, Result, ok, err, Bool-cases, inl,
  inr, eq_refl, eq_iff, strip_prefix, if◌then◌else◌,
}
use Prim.Native.Char.{Char}
use servarr_operator.Prelude.Chars.Laws.{len_utf8-bounds}
use servarr_operator.Prelude.Chars.{len_utf8, byte_len}
use servarr_operator.Crds.AppType.{transmission, same_app}
use servarr_operator.Crds.AppType.Laws.{same_app_iff}
use servarr_operator.Crds.Types.Sync.{AdminCredentialsSpec}
use servarr_operator.Resources.Pvc.{ServarrApp}
use servarr_operator.Stack.Kube.{KubeError, is_kube_not_found}
use servarr_operator.Controller.RpcPassword.{
  password_read, password_for, unreadable_password, read_secret_key, SecretError, kube, no_data,
  key_not_found, invalid_utf8, Secret, RpcError, SecretApi, RpcCall, unreadable_event, write_secret,
  get_from, salted, matches, desired_hash, stored_hash, same_hash, foreign, write_hash,
  with_existing, derived_name, with_password, read_admin_password, ensure_rpc_password_secret,
}

past_tests :
    (n len : ℕ) (whole later : Option String)
    → 1 ≤ len
    → len ≤ n
    → (if eqb n 0 then whole else if ltb n len then none else later) ≡ later
past_tests n len whole later positive small = ground (arith, positive, small)

get_from-past :
    (n : ℕ) (c : Char) (s : String) → get_from (len_utf8 c + n) (String.◌∷◌ c s) ≡ get_from n s
unfolding get_from
get_from-past n c s =
    let back : len_utf8 c + n - len_utf8 c ≡ n = omega arith in
    past_tests (len_utf8 c + n) (len_utf8 c) _ _ (len_utf8-bounds c).0 (omega arith)
    ∙ ap (λ m. get_from m s) back

get_from-zero : (t : String) → get_from 0 t ≡ some t
unfolding get_from
get_from-zero String.[] = refl
get_from-zero (String.◌∷◌ c t) = refl

get_from-append : (s t : String) → get_from (byte_len s) (s ⧺ t) ≡ some t
unfolding ◌⧺◌
get_from-append String.[] t = get_from-zero t
get_from-append (String.◌∷◌ c s) t = get_from-past (byte_len s) c (s ⧺ t) ∙ get_from-append s t

abbrev Reading : Type 0
Reading = Result RpcError (Option String) × List RpcCall

result_of : Reading → Result RpcError (Option String)
result_of reading = reading.0

-- A password is read without an event.
quiet :
    (r : Result SecretError String) (password : String) (calls : List RpcCall)
    → password_read r ≡ (ok (some password), calls)
    → calls ≡ []
unfolding result_of
quiet (ok read) password calls h = sym (ap (λ (o : Reading). o.1) h)
quiet (err (kube e)) password calls h = elim (Bool-cases (is_kube_not_found e)) [
  | inl missing ↦ ground (arith, ap result_of (rw missing at h))
  | inr broken ↦ ground (arith, ap result_of (rw broken at h))
]
quiet (err (no_data name)) password calls h = ground (arith, ap result_of h)
quiet (err (key_not_found name key)) password calls h = ground (arith, ap result_of h)
quiet (err (invalid_utf8 name key)) password calls h = ground (arith, ap result_of h)

same_hash-false : (o : Option String) (hash : String) → same_hash o hash ≡ false → o ≢ some hash
same_hash-false none hash h e = ground (arith, e)
same_hash-false (some old) hash h e = ground (arith, h, (eq_iff old hash).1 (some_injective e))

-- A digest has 40 bytes.
abbrev pub IsDigest : (String → String) → Type 0
IsDigest sha1_hex = (s : String) → byte_len (sha1_hex s) ≡ 40

module _ (sha1_hex : String → String) (digest : IsDigest sha1_hex) where
  pub matches-salted :
      (password salt : String) → matches sha1_hex (salted sha1_hex password salt) password ≡ true
  unfolding matches salted strip_prefix ◌⧺◌
  matches-salted password salt =
      let hex = sha1_hex (password ⧺ salt) in
      let cut : get_from 40 (hex ⧺ salt) ≡ some salt =
        ap (λ n. get_from n (hex ⧺ salt)) (sym (digest (password ⧺ salt)))
        ∙ get_from-append hex salt in
      rw cut (eq_refl (salted sha1_hex password salt))

  desired_hash-matches :
      (salt : String) (existing : Option String) (password : String)
      → matches sha1_hex (desired_hash sha1_hex salt existing password) password ≡ true
  unfolding desired_hash
  desired_hash-matches salt none password = matches-salted password salt
  desired_hash-matches salt (some hash) password =
      elim (Bool-cases (matches sha1_hex hash password)) [
        | inl e ↦ rw e e
        | inr e ↦ rw e (matches-salted password salt)
      ]

  pub desired_hash-kept :
      (salt hash password : String)
      → matches sha1_hex hash password ≡ true
      → desired_hash sha1_hex salt (some hash) password ≡ hash
  unfolding desired_hash
  desired_hash-kept salt hash password h = rw h refl

  -- A write is of the derived Secret, in the app's name, with a hash of the admin password that was
  -- read, where no other owner's Secret has that name and the stored hash is another one.
  pub data Guarded (cluster : SecretApi) (app : ServarrApp) : RpcCall → Type 0 where
    an_event : (e : SecretError) → Guarded cluster app (unreadable_event e)
    a_write :
        (password hash : String) (existing : Option Secret)
        → app.spec.app ≡ transmission
        → read_admin_password cluster app ≡ (ok (some password), [])
        → cluster.get_opt (derived_name app) ≡ ok existing
        → foreign existing app ≡ false
        → matches sha1_hex hash password ≡ true
        → stored_hash existing ≢ some hash
        → Guarded cluster app (write_secret (derived_name app) app.uid hash)

  write_hash-Guarded :
      (cluster : SecretApi) (app : ServarrApp) (password : String) (existing : Option Secret)
      → app.spec.app ≡ transmission
      → read_admin_password cluster app ≡ (ok (some password), [])
      → cluster.get_opt (derived_name app) ≡ ok existing
      → All
          (Guarded cluster app)
          (write_hash sha1_hex cluster app (derived_name app) password existing).1
  unfolding write_hash
  write_hash-Guarded cluster app password existing kind read there =
      let hash = desired_hash sha1_hex cluster.salt (stored_hash existing) password in
      elim (Bool-cases (foreign existing app)) [
        | inl e ↦ rw e tt
        | inr mine ↦ elim (Bool-cases (same_hash (stored_hash existing) hash)) [
          | inl e ↦ rw (mine, e) tt
          | inr differs ↦
              rw (mine, differs)
                (
                  a_write password hash existing kind read there mine
                      (desired_hash-matches cluster.salt (stored_hash existing) password)
                      (same_hash-false (stored_hash existing) hash differs),
                  tt,
                )
        ]
      ]

  kube-Guarded :
      (cluster : SecretApi) (app : ServarrApp) (e : KubeError)
      → All (Guarded cluster app) (unreadable_password (kube e)).1
  kube-Guarded cluster app e = elim (Bool-cases (is_kube_not_found e)) [
    | inl missing ↦ rw missing (an_event (kube e), tt)
    | inr broken ↦ rw broken tt
  ]

  reading-Guarded :
      (cluster : SecretApi) (app : ServarrApp) (r : Result SecretError String)
      → All (Guarded cluster app) (password_read r).1
  reading-Guarded cluster app (ok password) = tt
  reading-Guarded cluster app (err (kube e)) = kube-Guarded cluster app e
  reading-Guarded cluster app (err (no_data name)) = (an_event (no_data name), tt)
  reading-Guarded cluster app (err (key_not_found name key)) =
      (an_event (key_not_found name key), tt)
  reading-Guarded cluster app (err (invalid_utf8 name key)) = (an_event (invalid_utf8 name key), tt)

  password_for-Guarded :
      (cluster : SecretApi) (app : ServarrApp) (o : Option AdminCredentialsSpec)
      → All (Guarded cluster app) (password_for cluster o).1
  password_for-Guarded cluster app none = tt
  password_for-Guarded cluster app (some ac) =
      reading-Guarded cluster app (read_secret_key cluster ac.secret_name "password")

  password_for-quiet :
      (cluster : SecretApi) (o : Option AdminCredentialsSpec) (password : String)
      (calls : List RpcCall)
      → password_for cluster o ≡ (ok (some password), calls)
      → calls ≡ []
  unfolding result_of
  password_for-quiet cluster none password calls h = ground (arith, ap result_of h)
  password_for-quiet cluster (some ac) password calls h =
      quiet (read_secret_key cluster ac.secret_name "password") password calls h

  with_existing-Guarded :
      (cluster : SecretApi) (app : ServarrApp) (password : String)
      (answer : Result KubeError (Option Secret))
      → app.spec.app ≡ transmission
      → read_admin_password cluster app ≡ (ok (some password), [])
      → cluster.get_opt (derived_name app) ≡ answer
      → All
          (Guarded cluster app)
          (with_existing sha1_hex cluster app (derived_name app) password answer).1
  with_existing-Guarded cluster app password (ok existing) kind read there =
      write_hash-Guarded cluster app password existing kind read there
  with_existing-Guarded cluster app password (err e) kind read there = tt

  with_password-Guarded :
      (cluster : SecretApi) (app : ServarrApp)
      → app.spec.app ≡ transmission
      → (reading : Reading) → read_admin_password cluster app ≡ reading
      → All (Guarded cluster app) reading.1
      → All (Guarded cluster app) (with_password sha1_hex cluster app reading).1
  unfolding read_admin_password
  with_password-Guarded cluster app kind (err e, calls) read events = events
  with_password-Guarded cluster app kind (ok none, calls) read events = events
  with_password-Guarded cluster app kind (ok (some password), calls) read events =
      let silent = password_for-quiet cluster app.spec.admin_credentials password calls read in
      let alone : read_admin_password cluster app ≡ (ok (some password), []) =
        read ∙ ap (λ (c : List RpcCall). (ok (some password), c)) silent in
      rw silent (
        with_existing-Guarded cluster app password (cluster.get_opt (derived_name app)) kind alone
          refl)

  -- The calls of a reconcile are guarded: besides events for an unreadable admin password there is
  -- only a write of the app's derived Secret, for a Transmission app whose admin password was read,
  -- where no Secret of another owner has that name; the hash written matches the password, and is
  -- not the stored one.
  pub ensure_rpc_password_secret-Guarded :
      (cluster : SecretApi) (app : ServarrApp)
      → All (Guarded cluster app) (ensure_rpc_password_secret sha1_hex cluster app).1
  unfolding ensure_rpc_password_secret read_admin_password
  ensure_rpc_password_secret-Guarded cluster app =
      elim (Bool-cases
        (not (same_app app.spec.app transmission) || is_none app.spec.admin_credentials)) [
          | inl skipped ↦ rw skipped tt
          | inr due ↦
              let kind = (same_app_iff app.spec.app transmission).0 (ground (arith, due)) in
              rw due (
                with_password-Guarded cluster app kind (read_admin_password cluster app) refl
                  (password_for-Guarded cluster app app.spec.admin_credentials))
        ]
