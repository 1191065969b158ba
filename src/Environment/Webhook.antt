-- ===== src/Environment/Webhook.antt =====
-- `WebhookConfig::from_env` of crates/servarr-operator/src/webhook.rs.
use servarr_operator.Prelude.{
  ℕ, ◌≤◌, String, ◌≡◌, refl, sym, ap, ◌∙◌, subst, ok-injective, Bool, true, false, Option, none,
  some, List, [], ◌∷◌, ◌++◌, ◌⧺◌, arith, eqb, unwrap_or, Result, ok, err, ◌>>=◌, >>=-eq-ok,
  if◌then◌else◌,
}
use Prim.Native.Char.{code}
use servarr_operator.Prelude.Chars.{trim}
use servarr_operator.Prelude.Decimal.Parse.{parse_unsigned, parse_unsigned-lt}
use servarr_operator.Environment.{
  OsString, text, raw, Environment, EnvError, unusable, var_strict, var_path, readable, read_path,
  is_empty_os,
}

pub record WebhookConfig : Type 0 where
  pub port : ℕ  -- u16
  pub tls_cert : OsString
  pub tls_key : OsString

-- `unwrap_or(Err(..))` on a parsed port: not a u16, or 0.
abbrev check_parsed : Option ℕ → Result EnvError ℕ
check_parsed none = err (unusable "WEBHOOK_PORT" "expected a port number in 1..=65535.")
check_parsed (some port) =
    if eqb port 0
    then err (
        unusable "WEBHOOK_PORT"
          "0 binds a random port that the Service cannot route to; expected a port number in 1..=65535.")
    else ok port

unfoldable pub parse_webhook_port : String → Result EnvError ℕ
unfolding parse_unsigned trim
parse_webhook_port raw_port = check_parsed (parse_unsigned 65536 (trim raw_port))

abbrev default_webhook_port : ℕ
default_webhook_port = 9443

abbrev default_tls_dir : OsString
default_tls_dir = text "/etc/webhook/tls"

-- `Path::join` with a relative file name.
ends_with_slash : String → Bool
ends_with_slash String.[] = true
ends_with_slash (String.◌∷◌ c String.[]) = eqb (code c) b'/'
ends_with_slash (String.◌∷◌ c (String.◌∷◌ d s)) = ends_with_slash (String.◌∷◌ d s)

ends_with_slash_raw : List ℕ → Bool
ends_with_slash_raw [] = true
ends_with_slash_raw (b ∷ []) = eqb b b'/'
ends_with_slash_raw (b ∷ c ∷ bytes) = ends_with_slash_raw (c ∷ bytes)

-- The bytes of an ASCII text.
ascii_bytes : String → List ℕ
ascii_bytes String.[] = []
ascii_bytes (String.◌∷◌ c s) = code c ∷ ascii_bytes s

unfoldable pub join_path : OsString → String → OsString
unfolding ◌⧺◌ ends_with_slash ends_with_slash_raw ascii_bytes
join_path (text dir) file = text (dir ⧺ (if ends_with_slash dir then file else "/" ⧺ file))
join_path (raw dir) file =
    raw (dir ++ (if ends_with_slash_raw dir then ascii_bytes file else b'/' ∷ ascii_bytes file))

abbrev read_port : Option String → Result EnvError ℕ
read_port none = ok default_webhook_port
read_port (some raw_port) = parse_webhook_port raw_port

unfoldable pub from_env : Environment → Result EnvError WebhookConfig
unfolding parse_webhook_port var_strict var_path join_path
from_env env = do
  raw_port ← var_strict env "WEBHOOK_PORT"
  port ← read_port raw_port
  dir ← var_path env "WEBHOOK_TLS_DIR"
  let tls_dir = unwrap_or dir default_tls_dir
  cert ← var_path env "WEBHOOK_TLS_CERT"
  key ← var_path env "WEBHOOK_TLS_KEY"
  ok (record {
    port = port;
    tls_cert = unwrap_or cert (join_path tls_dir "tls.crt");
    tls_key = unwrap_or key (join_path tls_dir "tls.key");
  })

-- A variable that is not set gives the default port; one that is set gives the number it spells.
abbrev pub PortFrom : Option OsString → ℕ → Type 0
PortFrom none port = port ≡ 9443
PortFrom (some (text value)) port = parse_unsigned 65536 (trim value) ≡ some port
PortFrom (some (raw bytes)) port = ⊥

-- A variable that is not set gives the default path; one that is set gives its own value.
abbrev pub PathFrom : Option OsString → OsString → OsString → Type 0
PathFrom none default path = path ≡ default
PathFrom (some value) default path = path ≡ value

abbrev pub IsPort : ℕ → Type 0
IsPort port = (1 ≤ port) × (port ≤ 65535)

not_refused :
    {A : Type 0} {a b : A} (e : EnvError) (t : Bool)
    → ◌≡◌ {A = Result EnvError A} (if t then err e else ok a) (ok b)
    → (t ≡ false) × (a ≡ b)
not_refused e true h = ground arith
not_refused e false h = (refl, ok-injective h)

check_parsed-ok :
    (parsed : Option ℕ) (port : ℕ)
    → check_parsed parsed ≡ ok port
    → (parsed ≡ some port) × (1 ≤ port)
check_parsed-ok none port h = ground arith
check_parsed-ok (some n) port h =
    let (positive, same) = not_refused _ (eqb n 0) h in
    (ap some same, ground (arith, positive, same))

parse_webhook_port-ok :
    (value : String) (port : ℕ)
    → parse_webhook_port value ≡ ok port
    → (parse_unsigned 65536 (trim value) ≡ some port) × IsPort port
unfolding parse_webhook_port
parse_webhook_port-ok value port h =
    let (read, positive) = check_parsed-ok (parse_unsigned 65536 (trim value)) port h in
    let small = parse_unsigned-lt 65536 port (trim value) (omega arith) read in
    (read, (positive, omega (arith, small)))

read_port-ok :
    (o : Option OsString) (found : Option String) (port : ℕ)
    → readable "WEBHOOK_PORT" o ≡ ok found
    → read_port found ≡ ok port
    → PortFrom o port × IsPort port
read_port-ok none found port there h =
    let same : 9443 ≡ port = ok-injective (ap read_port (ok-injective there) ∙ h) in
    (sym same, (omega (arith, same), omega (arith, same)))
read_port-ok (some (text value)) found port there h =
    parse_webhook_port-ok value port (ap read_port (ok-injective there) ∙ h)
read_port-ok (some (raw bytes)) found port there h = ground arith

read_path-ok :
    (key : String) (o found : Option OsString) (default : OsString)
    → read_path key o ≡ ok found
    → PathFrom o default (unwrap_or found default)
read_path-ok key none found default h = ap (λ o. unwrap_or o default) (sym (ok-injective h))
read_path-ok key (some value) found default h =
    ap (λ o. unwrap_or o default) (sym (not_refused _ (is_empty_os value) h).1)

-- What the variables of the environment make of a configuration.
abbrev pub IsConfigured : Environment → WebhookConfig → Type 0
IsConfigured env config =
    (PortFrom (env "WEBHOOK_PORT") config.port × IsPort config.port)
    × ((dir : OsString) × PathFrom (env "WEBHOOK_TLS_DIR") (text "/etc/webhook/tls") dir
        × PathFrom (env "WEBHOOK_TLS_CERT") (join_path dir "tls.crt") config.tls_cert
        × PathFrom (env "WEBHOOK_TLS_KEY") (join_path dir "tls.key") config.tls_key)

-- When the configuration is built, no variable that is set was passed over: the port is the number
-- that WEBHOOK_PORT spells, or 9443 without that variable, and is in 1..=65535; each of the two
-- TLS paths is its variable's value, or else a file of the directory in WEBHOOK_TLS_DIR, or else
-- one of the default directory.
pub from_env_lem :
    (env : Environment) (config : WebhookConfig)
    → from_env env ≡ ok config
    → IsConfigured env config
unfolding from_env var_strict var_path
from_env_lem env config h =
    let (raw_port, port_read, h) = >>=-eq-ok (var_strict env "WEBHOOK_PORT") _ h in
    let (port, port_there, h) = >>=-eq-ok (read_port raw_port) _ h in
    let (dir, dir_read, h) = >>=-eq-ok (var_path env "WEBHOOK_TLS_DIR") _ h in
    let (cert, cert_read, h) = >>=-eq-ok (var_path env "WEBHOOK_TLS_CERT") _ h in
    let (key, key_read, h) = >>=-eq-ok (var_path env "WEBHOOK_TLS_KEY") _ h in
    let tls_dir = unwrap_or dir default_tls_dir in
    subst (IsConfigured env) (ok-injective h) (
      read_port-ok (env "WEBHOOK_PORT") raw_port port port_read port_there,
      (
        tls_dir,
        read_path-ok "WEBHOOK_TLS_DIR" (env "WEBHOOK_TLS_DIR") dir default_tls_dir dir_read,
        read_path-ok "WEBHOOK_TLS_CERT" (env "WEBHOOK_TLS_CERT") cert (join_path tls_dir "tls.crt")
            cert_read,
        read_path-ok "WEBHOOK_TLS_KEY" (env "WEBHOOK_TLS_KEY") key (join_path tls_dir "tls.key")
            key_read,
      ),
    )
