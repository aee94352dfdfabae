-- ===== src/Auth/Gate/Outcomes.antt =====
-- The outcomes of the gate outside the repair services: app/backend/auth.py, `make_middleware`.
use Prim.Native.String.{String}
use text.Mathlib.Text.{◌==◌ as str_eq}
use studiohub_mac.Prelude.{◌≡◌, ◌⊎◌, Bool, true, false, ◌&&◌, Option, none, some}
use studiohub_mac.Auth.Gate.{
  Library, Request, Tokens, Refusal, Verdict, pass, pass_with_cookie, refuse, cross_origin,
  token_required, is_public, is_loopback, presented_token, is_write, server_error, present, same,
  text_of,
}

-- The token, or the fleet's, that a check of a presented token passed.
abbrev pub IsKnown : Tokens → Option String → Type 0
IsKnown tokens o =
    (o ≡ some tokens.hub) ⊎ ((token : String) × (o ≡ some token) × (tokens.fleet ≡ some token))

-- No token, or neither of the two.
abbrev pub IsUnknown : Tokens → Option String → Type 0
IsUnknown tokens o =
    (o ≡ none)
    ⊎ ((token : String) × (o ≡ some token)
        × (str_eq token tokens.hub ≡ false)
        × ((present tokens.fleet && same (some token) tokens.fleet) ≡ false))

-- A token that cannot be compared: it, the Hub's or the fleet's is not ASCII.
abbrev pub IsIncomparable : Library → Tokens → Option String → Type 0
IsIncomparable l tokens o =
    (token : String) × (o ≡ some token)
    × ((l.is_ascii token ≡ false)
        ⊎ ((l.is_ascii tokens.hub ≡ false)
            ⊎ ((fleet : String) × (tokens.fleet ≡ some fleet) × (l.is_ascii fleet ≡ false))))

abbrev IsChecked : Library → Tokens → Option String → Verdict → Type 0
IsChecked l tokens o v =
    ((v ≡ refuse server_error) × IsIncomparable l tokens o)
    ⊎ (((v ≡ refuse token_required) × IsUnknown tokens o)
        ⊎ ((v ≡ pass_with_cookie) × IsKnown tokens o))

-- A write with an origin.
abbrev pub has_origin : Request → Bool
has_origin r = is_write r.method && present r.origin

-- The origin names no host or another than the request's.
abbrev pub IsForeign : Library → Request → Type 0
IsForeign l r =
    (netloc : String) × (l.netloc (text_of r.origin) ≡ some netloc)
    × ((l.lower netloc ≡ "") ⊎ (str_eq (l.lower netloc) (l.lower r.host) ≡ false))

-- There is nothing to check of the origin, or it names the request's host.
abbrev pub IsOwnOrigin : Library → Request → Type 0
IsOwnOrigin l r =
    (has_origin r ≡ false)
    ⊎ ((netloc : String) × (l.netloc (text_of r.origin) ≡ some netloc)
        × (l.lower netloc ≡ l.lower r.host))

-- Neither the path, nor the machine, nor the session lets the request through.
abbrev pub IsRemote : Request → Type 0
IsRemote r = (is_public r.path ≡ false) × (is_loopback r ≡ false) × (r.session_live ≡ false)

-- The five outcomes outside the repair services.
abbrev pub IsGated : Library → Tokens → Request → Verdict → Type 0
IsGated l tokens r v =
    ((v ≡ refuse cross_origin) × (has_origin r ≡ true) × IsForeign l r)
    ⊎ (((v ≡ refuse server_error)
          × (((has_origin r ≡ true) × (l.netloc (text_of r.origin) ≡ none))
              ⊎ (IsOwnOrigin l r × IsRemote r × IsIncomparable l tokens (presented_token l r))))
        ⊎ (((v ≡ refuse token_required)
              × IsOwnOrigin l r
              × IsRemote r
              × IsUnknown tokens (presented_token l r))
            ⊎ (((v ≡ pass)
                  × IsOwnOrigin l r
                  × ((is_public r.path ≡ true)
                      ⊎ ((is_loopback r ≡ true) ⊎ (r.session_live ≡ true))))
                ⊎ ((v ≡ pass_with_cookie)
                    × IsOwnOrigin l r
                    × IsRemote r
                    × IsKnown tokens (presented_token l r)))))

-- What the check of the origin found.
abbrev IsOriginChecked : Library → Request → Option Refusal → Type 0
IsOriginChecked l r o =
    ((o ≡ some cross_origin) × (has_origin r ≡ true) × IsForeign l r)
    ⊎ (((o ≡ some server_error) × (has_origin r ≡ true) × (l.netloc (text_of r.origin) ≡ none))
        ⊎ ((o ≡ none) × IsOwnOrigin l r))
