-- ===== src/Crds/AppType.antt =====
-- `AppType` of crates/servarr-crds/src/v1alpha1/spec.rs.
pub mod Laws
use servarr_operator.Prelude.{ℕ, String, Bool, List, [], ◌∷◌, ◌==◌}

pub data AppType : Type 0 where
  sonarr radarr lidarr prowlarr sabnzbd transmission tautulli seerr maintainerr : AppType
  jackett jellyfin plex ssh_bastion bazarr subgen unpackerr cleanuparr houndarr : AppType

-- `AppType::ALL`
abbrev pub all_apps : List AppType
all_apps =
    sonarr ∷ radarr ∷ lidarr ∷ prowlarr ∷ sabnzbd ∷ transmission ∷ tautulli ∷ seerr ∷ maintainerr
    ∷ jackett ∷ jellyfin ∷ plex ∷ ssh_bastion ∷ bazarr ∷ subgen ∷ unpackerr ∷ cleanuparr ∷ houndarr
    ∷ []

unfoldable pub as_str : AppType → String
as_str sonarr = "sonarr"
as_str radarr = "radarr"
as_str lidarr = "lidarr"
as_str prowlarr = "prowlarr"
as_str sabnzbd = "sabnzbd"
as_str transmission = "transmission"
as_str tautulli = "tautulli"
as_str seerr = "seerr"
as_str maintainerr = "maintainerr"
as_str jackett = "jackett"
as_str jellyfin = "jellyfin"
as_str plex = "plex"
as_str ssh_bastion = "ssh-bastion"
as_str bazarr = "bazarr"
as_str subgen = "subgen"
as_str unpackerr = "unpackerr"
as_str cleanuparr = "cleanuparr"
as_str houndarr = "houndarr"

-- The startup tier.
unfoldable pub tier : AppType → ℕ
tier plex = 0
tier jellyfin = 0
tier ssh_bastion = 0
tier sabnzbd = 1
tier transmission = 1
tier sonarr = 2
tier radarr = 2
tier lidarr = 2
tier tautulli = 3
tier seerr = 3
tier maintainerr = 3
tier prowlarr = 3
tier jackett = 3
tier bazarr = 3
tier unpackerr = 3
tier cleanuparr = 3
tier houndarr = 3
tier subgen = 3

-- `a == b` on apps, by their names: those of the variants are pairwise different.
unfoldable pub same_app : AppType → AppType → Bool
unfolding as_str
same_app a b = as_str a == as_str b
