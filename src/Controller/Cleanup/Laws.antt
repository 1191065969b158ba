-- ===== src/Controller/Cleanup/Laws.antt =====
-- When the finalizer of a deleted app may go.
use servarr_operator.Prelude.{
  ℕ, String, ◌≡◌, ◌↔◌, ◌⊎◌, inl, inr, refl, sym, ap, subst, iff_trans, ok-injective, Bool, true,
  false, Option, none, some, List, eqb, arith, Bool-cases, Result, ok, err, ◌>>=◌,
}
use servarr_operator.Prelude.Int.{ℤ}
use servarr_operator.Controller.Cleanup.{
  ApiError, api_response, request_error, invalid_url, invalid_api_key, operation_failed,
  CleanupFailure, terminal, transient, cleanup_severity, SeerrServer, SeerrClient, find_server,
  remove_found, failed, removed_server, cleanup_map_err, cleanup_map_err_transient, CleanupSeverity,
  seerr_remove_server, finish_cleanup,
}

-- A deletion that leaves nothing behind: it succeeded, or the server was gone.
abbrev pub IsGone : Result ApiError (Unit {0}) → Type 0
IsGone answer = (answer ≡ ok tt) ⊎ (answer ≡ err (api_response 404))

is_404 : (status : ℕ) → eqb status 404 ≡ true → status ≡ 404
is_404 status h = ground (arith, h)

status_of : Result ApiError (Unit {0}) → ℕ
status_of (err (api_response status)) = status
status_of _ = 0

response_iff :
    (status : ℕ)
    → ((failed (cleanup_severity (api_response status)) (api_response status)).0 ≡ ok tt)
      ↔ IsGone (err (api_response status))
unfolding status_of
response_iff status = elim (Bool-cases (eqb status 404)) [
  | inl e ↦ rw e (λ h. inr (ap (λ n. err (api_response n)) (is_404 status e)), λ h. refl)
  | inr e ↦ rw e (
    λ h. ground (arith, h),
    λ h. elim h [ inl f ↦ ground (arith, f) | inr f ↦ ground (arith, e, ap status_of f) ],
  )
]

decided :
    (severity : CleanupSeverity) (cause : ApiError)
    → ((failed severity cause).1 ≡ false) ↔ ((failed severity cause).0 ≡ ok tt)
decided terminal cause = (λ h. refl, λ h. refl)
decided transient cause = (λ h. ground arith, λ h. ground arith)

stays :
    (e : ApiError)
    → status_of (err e) ≡ 0
    → (◌≡◌ {A = Result ApiError (Unit {0})} (err e) (ok tt)) ↔ IsGone (err e)
unfolding status_of
stays e h =
    (λ k. ground (arith, k), λ k. elim k [ inl f ↦ f | inr f ↦ ground (arith, h, ap status_of f) ])

-- An event is published exactly with an error.
no_event :
    (outcome : Result CleanupFailure Bool)
    → ((finish_cleanup outcome).1 ≡ false) ↔ ((finish_cleanup outcome).0 ≡ ok tt)
unfolding finish_cleanup
no_event (ok done) = (λ h. refl, λ h. refl)
no_event (err failure) = decided failure.severity failure.cause

delete_iff :
    (answer : Result ApiError (Unit {0}))
    → ((finish_cleanup (removed_server (cleanup_map_err answer))).0 ≡ ok tt) ↔ IsGone answer
unfolding finish_cleanup status_of
delete_iff (ok done) = (λ h. inl refl, λ h. refl)
delete_iff (err (api_response status)) = response_iff status
delete_iff (err request_error) = stays request_error refl
delete_iff (err invalid_url) = stays invalid_url refl
delete_iff (err invalid_api_key) = stays invalid_api_key refl
delete_iff (err operation_failed) = stays operation_failed refl

module _ {F : Type 0} (same_port : F → ℤ → Bool) where
  -- The server that the app has in the list, if there is one, is gone.
  abbrev pub FoundGone : SeerrClient F → Option (SeerrServer F) → Type 0
  FoundGone client none = Unit
  FoundGone client (some registered) = IsGone (client.delete registered.id)

  found_iff :
      (client : SeerrClient F) (o : Option (SeerrServer F))
      → ((finish_cleanup (remove_found same_port client o)).0 ≡ ok tt) ↔ FoundGone client o
  unfolding finish_cleanup
  found_iff client none = (λ h. tt, λ h. refl)
  found_iff client (some registered) = delete_iff (client.delete registered.id)

  -- The listing of the servers succeeded, and the app's server is gone.
  abbrev pub Removed : SeerrClient F → String → ℤ → Type 0
  Removed client app_hostname port =
      (servers : List (SeerrServer F)) × (client.list ≡ ok servers)
      × FoundGone client (find_server same_port app_hostname port servers)

  by_list :
      (client : SeerrClient F) (app_hostname : String) (port : ℤ)
      (answer : Result ApiError (List (SeerrServer F)))
      → ((finish_cleanup (
            cleanup_map_err_transient answer >>= λ existing.
            remove_found same_port client (find_server same_port app_hostname port existing))).0
          ≡ ok tt)
        ↔ ((servers : List (SeerrServer F)) × (answer ≡ ok servers)
            × FoundGone client (find_server same_port app_hostname port servers))
  unfolding finish_cleanup
  by_list client app_hostname port (ok existing) =
      let (only, if_gone) = found_iff client (find_server same_port app_hostname port existing) in
      (
        λ h. (existing, refl, only h),
        λ (servers, same, gone). if_gone (
            subst (λ l. FoundGone client (find_server same_port app_hostname port l))
              (sym (ok-injective same)) gone),
      )
  by_list client app_hostname port (err e) =
      (λ h. ground arith, λ (servers, same, gone). ground arith)

  -- The removal from Seerr of a deleted app ends without an error, which lets its finalizer go,
  -- exactly if the servers were listed and the app's server among them, if there is one, was deleted
  -- or is answered with 404; else, and only then, the event CleanupFailed is published.
  pub finish_cleanup_iff :
      (client : SeerrClient F) (app_hostname : String) (port : ℤ)
      → (((finish_cleanup (seerr_remove_server same_port client app_hostname port)).0 ≡ ok tt)
          ↔ Removed client app_hostname port)
        × (((finish_cleanup (seerr_remove_server same_port client app_hostname port)).1 ≡ false)
            ↔ Removed client app_hostname port)
  unfolding seerr_remove_server
  finish_cleanup_iff client app_hostname port =
      let removal = by_list client app_hostname port client.list in
      (
        removal,
        iff_trans (no_event (seerr_remove_server same_port client app_hostname port)) removal,
      )
