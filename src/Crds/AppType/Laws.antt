-- ===== src/Crds/AppType/Laws.antt =====
-- The names of the app types tell them apart.
use servarr_operator.Prelude.{
  String, ◌≡◌, ◌↔◌, refl, sym, ap, ◌∙◌, true, Option, none, some, List, [], ◌∷◌, ◌==◌, eq_iff,
  some_injective, if◌then◌else◌,
}
use servarr_operator.Crds.AppType.{AppType, as_str, same_app, all_apps}

-- The app of a name, by search.
find_app : String → List AppType → Option AppType
find_app name [] = none
find_app name (a ∷ apps) =
    let later = find_app name apps in if as_str a == name then some a else later

find_app-as_str : (a : AppType) → find_app (as_str a) all_apps ≡ some a
unfolding find_app as_str
find_app-as_str AppType.sonarr = refl
find_app-as_str AppType.radarr = refl
find_app-as_str AppType.lidarr = refl
find_app-as_str AppType.prowlarr = refl
find_app-as_str AppType.sabnzbd = refl
find_app-as_str AppType.transmission = refl
find_app-as_str AppType.tautulli = refl
find_app-as_str AppType.seerr = refl
find_app-as_str AppType.maintainerr = refl
find_app-as_str AppType.jackett = refl
find_app-as_str AppType.jellyfin = refl
find_app-as_str AppType.plex = refl
find_app-as_str AppType.ssh_bastion = refl
find_app-as_str AppType.bazarr = refl
find_app-as_str AppType.subgen = refl
find_app-as_str AppType.unpackerr = refl
find_app-as_str AppType.cleanuparr = refl
find_app-as_str AppType.houndarr = refl

-- Apps with the same name are the same.
pub as_str-injective : (a b : AppType) → as_str a ≡ as_str b → a ≡ b
as_str-injective a b h =
    some_injective
      (sym (find_app-as_str a) ∙ ap (λ name. find_app name all_apps) h ∙ find_app-as_str b)

pub same_app_iff : (a b : AppType) → (same_app a b ≡ true) ↔ (a ≡ b)
unfolding same_app
same_app_iff a b = (
  λ h. as_str-injective a b ((eq_iff (as_str a) (as_str b)).0 h),
  λ e. (eq_iff (as_str a) (as_str b)).1 (ap as_str e),
)
