-- ===== src/Crds/Defaults/Compiled/Laws.antt =====
-- Laws of `try_for_app` and `validate_all` of crates/servarr-crds/src/v1alpha1/defaults.rs.
use servarr_operator.Prelude.{String, ◌≡◌, refl, Option, List, [], ◌∷◌, arith, Result, ok, err}
use servarr_operator.Crds.AppType.{AppType, all_apps}
use servarr_operator.Crds.Defaults.Compiled.{
  AppImageDefaults, AppDefaults, DefaultsError, try_for_app, errors_of, collect_errors,
  validate_all,
}

module _ (image_defaults : String → Option AppImageDefaults) where
  -- The app has compiled defaults.
  abbrev pub HasDefaults : AppType → Type 0
  HasDefaults app = (d : AppDefaults) × (try_for_app image_defaults app ≡ ok d)

  ok_of_errors_nil :
      (r : Result DefaultsError AppDefaults) (es : List DefaultsError)
      → errors_of image_defaults r es ≡ []
      → ((d : AppDefaults) × (r ≡ ok d)) × (es ≡ [])
  ok_of_errors_nil (ok d) es h = ((d, refl), h)
  ok_of_errors_nil (err e) es h = cc

  abbrev AllHave : List AppType → Type 0
  AllHave [] = Unit
  AllHave (app ∷ apps) = HasDefaults app × AllHave apps

  AllHave_of_nil : (apps : List AppType) → collect_errors image_defaults apps ≡ [] → AllHave apps
  unfolding collect_errors
  AllHave_of_nil [] h = tt
  AllHave_of_nil (app ∷ apps) h =
      let (here, later) =
        ok_of_errors_nil (try_for_app image_defaults app) (collect_errors image_defaults apps) h in
      (here, AllHave_of_nil apps later)

  no_errors_of_valid :
      validate_all image_defaults ≡ ok tt → collect_errors image_defaults all_apps ≡ []
  unfolding validate_all
  no_errors_of_valid h = ground arith

  -- After the startup check has passed, the defaults of every app type load without an error.
  pub validate_all_sound : validate_all image_defaults ≡ ok tt → (app : AppType) → HasDefaults app
  validate_all_sound valid =
      let have = AllHave_of_nil all_apps (no_errors_of_valid valid) in
      elim [
        | AppType.sonarr ↦ have.0
        | AppType.radarr ↦ have.1.0
        | AppType.lidarr ↦ have.1.1.0
        | AppType.prowlarr ↦ have.1.1.1.0
        | AppType.sabnzbd ↦ have.1.1.1.1.0
        | AppType.transmission ↦ have.1.1.1.1.1.0
        | AppType.tautulli ↦ have.1.1.1.1.1.1.0
        | AppType.seerr ↦ have.1.1.1.1.1.1.1.0
        | AppType.maintainerr ↦ have.1.1.1.1.1.1.1.1.0
        | AppType.jackett ↦ have.1.1.1.1.1.1.1.1.1.0
        | AppType.jellyfin ↦ have.1.1.1.1.1.1.1.1.1.1.0
        | AppType.plex ↦ have.1.1.1.1.1.1.1.1.1.1.1.0
        | AppType.ssh_bastion ↦ have.1.1.1.1.1.1.1.1.1.1.1.1.0
        | AppType.bazarr ↦ have.1.1.1.1.1.1.1.1.1.1.1.1.1.0
        | AppType.subgen ↦ have.1.1.1.1.1.1.1.1.1.1.1.1.1.1.0
        | AppType.unpackerr ↦ have.1.1.1.1.1.1.1.1.1.1.1.1.1.1.1.0
        | AppType.cleanuparr ↦ have.1.1.1.1.1.1.1.1.1.1.1.1.1.1.1.1.0
        | AppType.houndarr ↦ have.1.1.1.1.1.1.1.1.1.1.1.1.1.1.1.1.1.0
      ]
