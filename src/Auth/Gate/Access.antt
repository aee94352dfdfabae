-- ===== src/Auth/Gate/Access.antt =====
-- Who passes the gate to a repair service: app/backend/auth.py, `make_middleware`.
use Prim.Native.String.{String}
use text.Mathlib.Text.{◌==◌ as str_eq}
use text.Mathlib.TextEquality.{eq_iff}
use studiohub_mac.Prelude.{
  ◌≡◌, refl, Bool, true, false, not, ◌&&◌, ◌||◌, Option, none, some, arith, is_some, if◌then◌else◌,
}
use studiohub_mac.Auth.Gate.{
  Address, Library, Request, Tokens, Refusal, pass, fleet_token_unavailable,
  credential_substitute_rejected, fleet_token_mismatch, strict_fleet_service_path, digest_raises,
  server_error, present, same, allowed, require_exact_fleet_service_request, private_direct_source,
  check_source, text_of, gate, verdict_of,
}

strict_credential :
    (header current : Option String)
    → (present header && same header current) ≡ true
    → (token : String) × (current ≡ some token) × (header ≡ some token) × (str_eq token "" ≡ false)
strict_credential none current h = cc
strict_credential (some t) none h = ground arith
strict_credential (some t) (some c) h = (t, ground (arith, eq_iff t c), refl, ground arith)

strict_source :
    (o : Option Address)
    → check_source (private_direct_source o) none ≡ none
    → (address : Address) × (o ≡ some address) × (allowed address ≡ true)
unfolding private_direct_source check_source
strict_source none h = cc
strict_source (some a) h = (a, refl, ground arith)

no_text : (o : Option String) → is_some o ≡ false → o ≡ none
no_text none h = refl
no_text (some s) h = cc

pass_none : (o : Option Refusal) → verdict_of o ≡ pass → o ≡ none
unfolding verdict_of
pass_none none h = refl
pass_none (some e) h = cc

strict_ladder :
    (fleet cookies authorization query forwarded raises header : Bool) (rest : Option Refusal)
    → (if not fleet
        then some fleet_token_unavailable
        else if cookies || (authorization || (query || forwarded))
        then some credential_substitute_rejected
        else if raises
        then some server_error
        else if not header
        then some fleet_token_mismatch
        else rest)
      ≡ none
    → (header ≡ true)
      × (cookies ≡ false)
      × (authorization ≡ false)
      × (query ≡ false)
      × (forwarded ≡ false)
      × (rest ≡ none)
strict_ladder fleet cookies authorization query forwarded raises header rest h = ground arith

-- A repair service takes one credential: the current fleet token in its header, from a private
-- address, with no cookie, bearer token, query or forwarded identity beside it. Being on this
-- machine or signed in does not help.
pub gate_strict :
    (l : Library) (tokens : Tokens) (r : Request)
    → strict_fleet_service_path r.path ≡ true
    → gate l tokens r ≡ pass
    → (token : String) × (address : Address) × (tokens.current_fleet ≡ some token)
      × (r.hub_header ≡ some token)
      × (str_eq token "" ≡ false)
      × (r.has_cookies ≡ false)
      × (r.authorization ≡ none)
      × (r.has_query ≡ false)
      × (r.has_forwarded ≡ false)
      × (l.parse_address (text_of r.client_host) ≡ some address)
      × (allowed address ≡ true)
unfolding gate verdict_of require_exact_fleet_service_request
gate_strict l tokens r s h =
    let (header, cookies, auth, query, forwarded, source) =
      strict_ladder (present tokens.current_fleet) r.has_cookies (is_some r.authorization)
        r.has_query r.has_forwarded
        (present r.hub_header && digest_raises l r.hub_header tokens.current_fleet)
        (present r.hub_header && same r.hub_header tokens.current_fleet)
        (check_source (private_direct_source (l.parse_address (text_of r.client_host))) none)
        (pass_none (require_exact_fleet_service_request l tokens none r) (rw s at h)) in
    let (token, current, held, filled) =
      strict_credential r.hub_header tokens.current_fleet header in
    let (address, parsed, fits) = strict_source (l.parse_address (text_of r.client_host)) source in
    (
      token,
      address,
      current,
      held,
      filled,
      cookies,
      no_text r.authorization auth,
      query,
      forwarded,
      parsed,
      fits,
    )
