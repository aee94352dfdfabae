-- ===== src/Auth/Gate.antt =====
-- app/backend/auth.py: `make_middleware`, with the exact check of repair services. A request is what
-- the gate reads of it; text operations, IP addresses and URLs are arguments. The comparison of tokens
-- raises on a text that is not ASCII, and so does the parser on a malformed origin: such a request is
-- answered with a server error.
pub mod Access
pub mod Outcomes
use Prim.Native.String.{String}
use text.Mathlib.Text.{◌==◌ as str_eq, starts_with}
use studiohub_mac.Prelude.{
  ℕ, ◌≡◌, ◌≢◌, ◌⊎◌, refl, Bool, true, false, not, ◌&&◌, ◌||◌, Option, none, some, List, [], ◌∷◌,
  arith, if◌then◌else◌, any, is_some, Bool-cases,
}

-- What `ipaddress.ip_address` says of an address, and its canonical text.
pub record Address : Type 0 where
  pub text : String
  pub is_loopback : Bool
  pub is_private : Bool
  pub is_link_local : Bool
  pub is_cgnat : Bool  -- version 4 and in 100.64.0.0/10
  pub is_multicast : Bool
  pub is_unspecified : Bool

-- The operations of the standard library that the gate calls.
pub record Library : Type 0 where
  pub lower : String → String
  pub strip : String → String
  pub after_bearer : String → String  -- auth[7:]
  pub is_ascii : String → Bool
  pub netloc : String → Option String  -- of `urlsplit`; None where it raises
  pub parse_address : String → Option Address  -- without the zone behind "%"

pub record Request : Type 0 where
  pub path : String
  pub method : String
  pub client_host : Option String
  pub authorization : Option String
  pub hub_header : Option String
  pub origin : Option String
  pub host : String
  pub has_forwarded : Bool
  pub has_cookies : Bool
  pub has_query : Bool
  pub hub_cookie : Option String
  pub session_live : Bool  -- `valid_browser_session` of the session cookie

-- The token of this Hub; the fleet's as `peers.current_fleet_token` reads it, and as
-- `peers.fleet_token` does.
pub record Tokens : Type 0 where
  pub hub : String
  pub current_fleet : Option String
  pub fleet : Option String

pub data Refusal : Type 0 where
  fleet_token_unavailable credential_substitute_rejected fleet_token_mismatch : Refusal
  private_source_required source_host_mismatch cross_origin token_required : Refusal
  server_error : Refusal  -- an exception

pub data Verdict : Type 0 where
  pass : Verdict
  pass_with_cookie : Verdict
  refuse : Refusal → Verdict

abbrev pub status_code : Refusal → ℕ
status_code fleet_token_unavailable = 503
status_code fleet_token_mismatch = 401
status_code token_required = 401
status_code server_error = 500
status_code _ = 403

member : String → List String → Bool
member s = any (λ t. str_eq s t)

abbrev pub public_paths : List String
public_paths =
    "/" ∷ "/api/health" ∷ "/api/version" ∷ "/health/live" ∷ "/health/ready" ∷ "/health/capacity"
    ∷ "/api/auth/status" ∷ "/api/auth/login" ∷ "/api/auth/logout" ∷ "/api/hub/enrollment/claim"
    ∷ "/api/hub/enrollment/info" ∷ []

abbrev pub strict_fleet_service_paths : List String
strict_fleet_service_paths =
    "/api/hub/enrollment-repair/apply" ∷ "/api/hub/enrollment-repair-tickets/redeem" ∷ []

unfoldable pub strict_fleet_service_path : String → Bool
unfolding member
strict_fleet_service_path path =
    member path strict_fleet_service_paths
    || (starts_with path "/api/hub/enrollment-repair/status/"
        || starts_with path "/api/hub/service/startup-services/local/")

unfoldable pub is_public : String → Bool
unfolding member
is_public path = member path public_paths

-- `text` is None, or the empty text
abbrev pub present : Option String → Bool
present none = false
present (some s) = not (str_eq s "")

abbrev pub same : Option String → Option String → Bool
same (some a) (some b) = str_eq a b
same _ _ = false

abbrev pub text_of : Option String → String
text_of none = ""
text_of (some s) = s

unfoldable pub is_loopback : Request → Bool
unfolding member
is_loopback r = member (text_of r.client_host) ("127.0.0.1" ∷ "::1" ∷ "localhost" ∷ [])

unfoldable pub allowed : Address → Bool
allowed a =
    (a.is_loopback || (a.is_private || (a.is_link_local || a.is_cgnat)))
    && not (a.is_multicast || a.is_unspecified)

-- The canonical text of a private address.
unfoldable pub private_direct_source : Option Address → Option String
unfolding allowed
private_direct_source none = none
private_direct_source (some a) = if allowed a then some a.text else none

unfoldable pub check_source : Option String → Option (Option String) → Option Refusal
check_source none expected = some private_source_required
check_source (some direct) none = none
check_source (some direct) (some none) = some private_source_required
check_source (some direct) (some (some source)) =
    if str_eq direct source then none else some source_host_mismatch

-- `secrets.compare_digest` raises unless both texts are ASCII.
abbrev pub digest_raises : Library → Option String → Option String → Bool
digest_raises l (some a) (some b) = not (l.is_ascii a && l.is_ascii b)
digest_raises l _ _ = false

-- None is an accepted request. The expected source is given as `_private_direct_source` reads it.
unfoldable pub require_exact_fleet_service_request :
    Library → Tokens → Option (Option String) → Request → Option Refusal
unfolding check_source private_direct_source
require_exact_fleet_service_request l tokens expected r =
    if not (present tokens.current_fleet)
    then some fleet_token_unavailable
    else if r.has_cookies || (is_some r.authorization || (r.has_query || r.has_forwarded))
    then some credential_substitute_rejected
    else if present r.hub_header && digest_raises l r.hub_header tokens.current_fleet
    then some server_error
    else if not (present r.hub_header && same r.hub_header tokens.current_fleet)
    then some fleet_token_mismatch
    else check_source (private_direct_source (l.parse_address (text_of r.client_host))) expected

from_cookie : Library → Option String → Option String
from_cookie l none = none
from_cookie l (some cookie) = if str_eq cookie "" then none else some (l.strip cookie)

from_header : Library → Option String → Option String → Option String
unfolding from_cookie
from_header l none cookie = from_cookie l cookie
from_header l (some header) cookie =
    if str_eq header "" then from_cookie l cookie else some (l.strip header)

unfoldable pub presented_token : Library → Request → Option String
unfolding from_header
presented_token l r =
    let auth = text_of r.authorization in
    if starts_with (l.lower auth) "bearer "
    then some (l.strip (l.after_bearer auth))
    else from_header l r.hub_header r.hub_cookie

unfoldable pub is_write : String → Bool
unfolding member
is_write method = not (member method ("GET" ∷ "HEAD" ∷ "OPTIONS" ∷ []))

-- An origin of another host, or one that names no host.
unfoldable pub foreign_host : Library → String → String → Bool
foreign_host l netloc host =
    str_eq (l.lower netloc) "" || not (str_eq (l.lower netloc) (l.lower host))

unfoldable pub check_host : Library → Request → Option String → Option Refusal
unfolding foreign_host
check_host l r none = some server_error
check_host l r (some netloc) = if foreign_host l netloc r.host then some cross_origin else none

unfoldable pub check_origin : Library → Request → Option Refusal
unfolding is_write check_host
check_origin l r =
    if is_write r.method && present r.origin
    then check_host l r (l.netloc (text_of r.origin))
    else none

-- The Hub's token, and then the fleet's.
unfoldable pub check_token : Library → Tokens → Option String → Verdict
check_token l tokens none = refuse token_required
check_token l tokens (some offered) =
    if digest_raises l (some offered) (some tokens.hub)
    then refuse server_error
    else if str_eq offered tokens.hub
    then pass_with_cookie
    else if present tokens.fleet && digest_raises l (some offered) tokens.fleet
    then refuse server_error
    else if present tokens.fleet && same (some offered) tokens.fleet
    then pass_with_cookie
    else refuse token_required

verdict_of : Option Refusal → Verdict
verdict_of none = pass
verdict_of (some e) = refuse e

unless_refused : Option Refusal → Verdict → Verdict
unless_refused none v = v
unless_refused (some e) v = refuse e

unfoldable pub gate : Library → Tokens → Request → Verdict
unfolding verdict_of unless_refused check_origin is_public is_loopback presented_token check_token
gate l tokens r =
    let rest =
      if is_public r.path || is_loopback r
      then pass
      else if r.session_live
      then pass
      else check_token l tokens (presented_token l r) in
    if strict_fleet_service_path r.path
    then verdict_of (require_exact_fleet_service_request l tokens none r)
    else unless_refused (check_origin l r) rest
