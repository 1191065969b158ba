-- ===== src/Webhook/Rules/Laws.antt =====
-- What the rules of the webhook on a single spec accept.
use servarr_operator.Prelude.{
  ◌≤◌, String, ◌≡◌, ◌↔◌, refl, subst, true, Option, none, some, [], All, arith,
}
use servarr_operator.Prelude.Int.{ℤ, pos, negsuc, in_range}
use servarr_operator.Crds.AppType.{AppType}
use servarr_operator.Crds.AppConfig.{AppConfig, PeerPortConfig}
use servarr_operator.Crds.Spec.{ServarrAppSpec}
use servarr_operator.Crds.Types.Gateway.{ServicePort, ServiceSpec}
use servarr_operator.Webhook.Rules.{
  variant_matches, validate_app_config_match, check_config, check_port, check_optional,
  check_service_port, check_service, check_peer, check_peer_port, validate_port_ranges,
}
use servarr_operator.Webhook.Rejection.{
  reject_unless_iff, both_iff, each_iff, config_mismatch, port_out_of_range,
}

-- The app type that a configuration is for.
abbrev pub config_app : AppConfig → AppType
config_app (AppConfig.transmission tc) = AppType.transmission
config_app (AppConfig.sabnzbd sc) = AppType.sabnzbd
config_app (AppConfig.prowlarr pc) = AppType.prowlarr
config_app (AppConfig.ssh_bastion sc) = AppType.ssh_bastion
config_app (AppConfig.seerr sc) = AppType.seerr
config_app AppConfig.lidarr = AppType.lidarr
config_app (AppConfig.unpackerr uc) = AppType.unpackerr

variant-config_app : (c : AppConfig) → variant_matches (config_app c) c ≡ true
variant-config_app (AppConfig.transmission tc) = refl
variant-config_app (AppConfig.sabnzbd sc) = refl
variant-config_app (AppConfig.prowlarr pc) = refl
variant-config_app (AppConfig.ssh_bastion sc) = refl
variant-config_app (AppConfig.seerr sc) = refl
variant-config_app AppConfig.lidarr = refl
variant-config_app (AppConfig.unpackerr uc) = refl

variant_matches-eq :
    (app : AppType) (c : AppConfig) → variant_matches app c ≡ true → config_app c ≡ app
variant_matches-eq AppType.transmission (AppConfig.transmission tc) h = refl
variant_matches-eq AppType.sabnzbd (AppConfig.sabnzbd sc) h = refl
variant_matches-eq AppType.prowlarr (AppConfig.prowlarr pc) h = refl
variant_matches-eq AppType.ssh_bastion (AppConfig.ssh_bastion sc) h = refl
variant_matches-eq AppType.seerr (AppConfig.seerr sc) h = refl
variant_matches-eq AppType.lidarr AppConfig.lidarr h = refl
variant_matches-eq AppType.unpackerr (AppConfig.unpackerr uc) h = refl
variant_matches-eq _ _ h = ground arith

-- The configuration is for the app.
abbrev pub ConfigFits : AppType → Option AppConfig → Type 0
ConfigFits app none = Unit
ConfigFits app (some config) = config_app config ≡ app

check_config_iff :
    (app : AppType) (c : Option AppConfig) → (check_config app c ≡ []) ↔ ConfigFits app c
check_config_iff app none = (λ h. tt, λ h. refl)
check_config_iff app (some c) =
    let (only, if_matches) = reject_unless_iff (variant_matches app c) (config_mismatch app) in
    (
      λ h. variant_matches-eq app c (only h),
      λ h. if_matches (subst (λ a. variant_matches a c ≡ true) h (variant-config_app c)),
    )

pub validate_app_config_match_iff :
    (spec : ServarrAppSpec)
    → (validate_app_config_match spec ≡ []) ↔ ConfigFits spec.app spec.app_config
unfolding validate_app_config_match
validate_app_config_match_iff spec = check_config_iff spec.app spec.app_config

-- A port number of TCP.
abbrev pub IsPort : ℤ → Type 0
IsPort (pos n) = (1 ≤ n) × (n ≤ 65535)
IsPort (negsuc n) = ⊥

abbrev pub IsPortOption : Option ℤ → Type 0
IsPortOption none = Unit
IsPortOption (some port) = IsPort port

in_range_iff : (port : ℤ) → (in_range 1 65535 port ≡ true) ↔ IsPort port
in_range_iff (pos n) = (λ h. (ground arith, ground arith), λ h. ground (arith, h.0, h.1))
in_range_iff (negsuc n) = (λ h. ground arith, λ h. absurd h)

check_port_iff : (port : ℤ) (label : String) → (check_port port label ≡ []) ↔ IsPort port
check_port_iff port label =
    let (only, if_range) =
      reject_unless_iff (in_range 1 65535 port) (port_out_of_range label port) in
    let (to_port, to_range) = in_range_iff port in
    (λ h. to_port (only h), λ h. if_range (to_range h))

check_optional_iff :
    (port : Option ℤ) (label : String) → (check_optional port label ≡ []) ↔ IsPortOption port
check_optional_iff none label = (λ h. tt, λ h. refl)
check_optional_iff (some port) label = check_port_iff port label

-- The ports of a service are port numbers.
abbrev pub PortsFit : ServicePort → Type 0
PortsFit p = IsPort p.port × (IsPortOption p.container_port × IsPortOption p.host_port)

abbrev pub ServiceFits : Option ServiceSpec → Type 0
ServiceFits none = Unit
ServiceFits (some svc) = All PortsFit svc.ports

abbrev pub PeerFits : Option PeerPortConfig → Type 0
PeerFits none = Unit
PeerFits (some peer) = IsPort peer.port

abbrev pub PeerPortFits : Option AppConfig → Type 0
PeerPortFits (some (AppConfig.transmission tc)) = PeerFits tc.peer_port
PeerPortFits _ = Unit

check_service_port_iff : (p : ServicePort) → (check_service_port p ≡ []) ↔ PortsFit p
check_service_port_iff p =
    both_iff _ _ (check_port_iff p.port _)
      (both_iff _ _ (check_optional_iff p.container_port _) (check_optional_iff p.host_port _))

check_service_iff : (o : Option ServiceSpec) → (check_service o ≡ []) ↔ ServiceFits o
check_service_iff none = (λ h. tt, λ h. refl)
check_service_iff (some svc) = each_iff check_service_port check_service_port_iff svc.ports

check_peer_iff : (o : Option PeerPortConfig) → (check_peer o ≡ []) ↔ PeerFits o
check_peer_iff none = (λ h. tt, λ h. refl)
check_peer_iff (some peer) = check_port_iff peer.port _

check_peer_port_iff : (c : Option AppConfig) → (check_peer_port c ≡ []) ↔ PeerPortFits c
check_peer_port_iff (some (AppConfig.transmission tc)) = check_peer_iff tc.peer_port
check_peer_port_iff _ = (λ h. tt, λ h. refl)

pub validate_port_ranges_iff :
    (spec : ServarrAppSpec)
    → (validate_port_ranges spec ≡ []) ↔ (ServiceFits spec.service × PeerPortFits spec.app_config)
unfolding validate_port_ranges
validate_port_ranges_iff spec =
    both_iff _ _ (check_service_iff spec.service) (check_peer_port_iff spec.app_config)
