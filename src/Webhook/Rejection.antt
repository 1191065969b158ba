-- ===== src/Webhook/Rejection.antt =====
-- The error texts of crates/servarr-operator/src/webhook.rs, one constructor for each text with
-- what it interpolates, and the pushes onto the vector of errors.
use servarr_operator.Prelude.{
  String, ◌≡◌, ◌≢◌, ◌↔◌, ◌⊎◌, inl, inr, ap, is_blank, refl, Bool, true, false, not, Option, List,
  [], ◌∷◌, ◌++◌, All, arith, if◌then◌else◌,
}
use servarr_operator.Prelude.Int.{ℤ}
use servarr_operator.Crds.AppType.{AppType}
use servarr_operator.Crds.Defaults.Collisions.{PersistenceError}

pub data Rejection : Type 0 where
  stored_spec_unusable : Rejection
  app_changed : AppType → AppType → Rejection
  instance_changed : Option String → Option String → Rejection
  admin_secret_empty : Rejection
  admin_secret_derived : String → Rejection
  schedule_invalid : String → String → Rejection
  shell_overridden : String → Rejection
  config_mismatch : AppType → Rejection
  port_out_of_range : String → ℤ → Rejection
  cpu_limit_low memory_limit_low : String → String → Rejection
  http_without_hosts tcp_with_hosts : Rejection
  list_failed : String → Rejection
  already_exists : AppType → String → String → Rejection
  no_compiled_defaults : AppType → String → Rejection
  persistence_rejected : PersistenceError → Rejection
  unknown_removed_volume : String → AppType → Rejection
  managed_key : String → Rejection
  retention_zero : Rejection
  indexer_name_invalid : String → Rejection
  authorized_keys_read_only chown_missing : Rejection
  username_invalid allowed_path_invalid shell_path_invalid : String → Rejection

-- `if condition { errors.push(rejection) }`
abbrev pub reject_if : Bool → Rejection → List Rejection
reject_if true rejection = rejection ∷ []
reject_if false rejection = []

-- A loop whose body pushes.
abbrev pub each {ℓ} : {A : Type ℓ} → (A → List Rejection) → List A → List Rejection
each body [] = []
each body (x ∷ xs) = body x ++ each body xs

pub reject_if_iff : (b : Bool) (r : Rejection) → (reject_if b r ≡ []) ↔ (b ≡ false)
reject_if_iff true r = (λ h. ground arith, λ h. ground arith)
reject_if_iff false r = (λ h. refl, λ h. refl)

pub append_iff : (xs ys : List Rejection) → (xs ++ ys ≡ []) ↔ ((xs ≡ []) × (ys ≡ []))
append_iff [] ys = (λ h. (refl, h), λ h. h.1)
append_iff (x ∷ xs) ys = (λ h. ground arith, λ h. ground (arith, h.0))

pub reject_unless_iff : (b : Bool) (r : Rejection) → (reject_if (not b) r ≡ []) ↔ (b ≡ true)
reject_unless_iff true r = (λ h. refl, λ h. refl)
reject_unless_iff false r = (λ h. ground arith, λ h. ground arith)

pub both_iff :
    {P Q : Type 0} (xs ys : List Rejection)
    → (xs ≡ []) ↔ P
    → (ys ≡ []) ↔ Q
    → (xs ++ ys ≡ []) ↔ (P × Q)
both_iff xs ys (only_p, if_p) (only_q, if_q) = (
  λ h. let (first, later) = (append_iff xs ys).0 h in (only_p first, only_q later),
  λ h. (append_iff xs ys).1 (if_p h.0, if_q h.1),
)

-- A loop pushes nothing exactly if its body pushes nothing at each element.
pub each_iff {ℓ} :
    {A : Type ℓ} {P : A → Type 0} (body : A → List Rejection)
    → ((x : A) → (body x ≡ []) ↔ P x)
    → (xs : List A) → (each body xs ≡ []) ↔ All P xs
each_iff body one [] = (λ h. tt, λ h. refl)
each_iff body one (x ∷ xs) = both_iff (body x) (each body xs) (one x) (each_iff body one xs)

-- A check that is run under a condition.
pub guarded_iff :
    {P : Type 0} (b : Bool) (xs : List Rejection)
    → (xs ≡ []) ↔ P
    → ((if b then xs else []) ≡ []) ↔ ((b ≡ false) ⊎ P)
guarded_iff true xs (only, if_p) =
    (λ h. inr (only h), λ h. elim h [ inl e ↦ ground arith | inr p ↦ if_p p ])
guarded_iff false xs (only, if_p) = (λ h. inl refl, λ h. refl)

pub unless_iff :
    {P : Type 0} (b : Bool) (xs : List Rejection)
    → (xs ≡ []) ↔ P
    → ((if b then [] else xs) ≡ []) ↔ ((b ≡ true) ⊎ P)
unless_iff false xs (only, if_p) =
    (λ h. inr (only h), λ h. elim h [ inl e ↦ ground arith | inr p ↦ if_p p ])
unless_iff true xs (only, if_p) = (λ h. inl refl, λ h. refl)

pub blank_iff : (s : String) → (is_blank s ≡ false) ↔ (s ≢ "")
blank_iff String.[] = (λ h. ground arith, λ h. absurd (h refl))
blank_iff (String.◌∷◌ c s) = (λ h e. ground (arith, ap is_blank e), λ h. refl)
