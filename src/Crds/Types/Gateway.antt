-- ===== src/Crds/Types/Gateway.antt =====
-- Gateway, TLS and Service types of crates/servarr-crds/src/v1alpha1/types.rs.
use servarr_operator.Prelude.{
  String, Bool, false, Option, none, some, List, is_blank, is_empty, or_option, unwrap_or,
  if◌then◌else◌,
}
use servarr_operator.Prelude.Int.{ℤ}
use servarr_operator.Crds.AppType.{AppType, ssh_bastion}

pub data RouteType : Type 0 where
  http tcp : RouteType

pub record GatewayParentRef : Type 0 where
  pub name : String
  pub namespace : String
  pub section_name : String

pub record TlsSpec : Type 0 where
  pub enabled : Bool
  pub cert_issuer : String
  pub secret_name : Option String

pub record GatewaySpec : Type 0 where
  pub enabled : Option Bool
  pub route_type : Option RouteType
  pub parent_refs : List GatewayParentRef
  pub hosts : List String
  pub tls : Option TlsSpec

pub record ServicePort : Type 0 where
  pub name : String
  pub port : ℤ
  pub protocol : String
  pub container_port : Option ℤ
  pub host_port : Option ℤ

pub record ServiceSpec : Type 0 where
  pub service_type : String
  pub ports : List ServicePort

unfoldable pub is_enabled : GatewaySpec → Bool
is_enabled gw = unwrap_or gw.enabled false

-- An SSH bastion is always TCP.
unfoldable pub effective_route_type : GatewaySpec → AppType → RouteType
effective_route_type gw ssh_bastion = tcp
effective_route_type gw _ = unwrap_or gw.route_type http

unfoldable pub merge_tls : TlsSpec → TlsSpec → TlsSpec
merge_tls self defaults = record {
  enabled = self.enabled;
  cert_issuer = if is_blank self.cert_issuer then defaults.cert_issuer else self.cert_issuer;
  secret_name = or_option self.secret_name defaults.secret_name;
}

abbrev merge_tls_options : Option TlsSpec → Option TlsSpec → Option TlsSpec
merge_tls_options (some user) (some default) = some (merge_tls user default)
merge_tls_options (some user) none = some user
merge_tls_options none default = default

-- Per-app fields win when set; hosts are never inherited.
unfoldable pub merge_with : GatewaySpec → GatewaySpec → GatewaySpec
unfolding is_enabled merge_tls
merge_with self defaults = record {
  enabled = some (unwrap_or self.enabled (is_enabled defaults));
  route_type = or_option self.route_type defaults.route_type;
  parent_refs = if is_empty self.parent_refs then defaults.parent_refs else self.parent_refs;
  hosts = self.hosts;
  tls = merge_tls_options self.tls defaults.tls;
}
