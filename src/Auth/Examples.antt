-- ===== src/Auth/Examples.antt =====
-- Concrete runs of the authentication: app/backend/auth.py.
use Prim.Native.String.{String}
use text.Mathlib.Text.{◌==◌ as str_eq}
use studiohub_mac.Prelude.{
  ℕ, ◌++◌, ◌≤◌, ◌<◌, ◌≡◌, ◌≢◌, ◌↔◌, refl, true, false, none, some, List, [], ◌∷◌, arith, All, ◌+◌,
}
use studiohub_mac.Auth.Throttle.{login_allowed, failed_at, lockout}
use studiohub_mac.Auth.Password.{
  Files, Verifier, no_record, default, custom, password_mode, is_ascii, default_password_accepted,
  default_owner_password, install_password_verifier, Crypto, IsLawful, set_owner_password,
  verify_owner_password, filled, controller, unmarked,
}
use studiohub_mac.Auth.Password.Laws.{set_owner_password_lem, default_password_iff}
use studiohub_mac.Auth.Gate.{
  Address, Library, Request, Tokens, pass, refuse, cross_origin, gate, text_of, allowed,
  require_exact_fleet_service_request, strict_fleet_service_path,
}
use studiohub_mac.Auth.Gate.Access.{gate_strict}

abbrev digest : ℕ → ℕ
digest value = value + 1

abbrev five_times : List ℕ
five_times = 1000 ∷ 1001 ∷ 1002 ∷ 1003 ∷ 1004 ∷ []

lockout_example : (login_allowed 9 1010 (failed_at 9 five_times [])).0 ≡ false
lockout_example = lockout 9 1010 five_times [] (omega arith) in_window
  where
    in_window : All (λ now. (now ≤ 1010) × (1010 < now + 900)) five_times
    in_window = omega arith

-- scrypt answers the salt with a mark in front, and bytes are their own text.
abbrev toy : Crypto
toy = record {
  scrypt = λ password salt. some (1 ∷ password);
  hex = λ bytes. bytes;
  from_hex = λ text. some text;
}

some-filled : (bytes : List ℕ) → bytes ≢ [] → filled (some bytes) ≡ true
some-filled [] h = absurd (h refl)
some-filled (x ∷ xs) h = refl

toy-IsLawful : IsLawful toy
toy-IsLawful = record {
  from_hex-hex = λ bytes. refl;
  hex_filled = some-filled;
  scrypt_filled = λ password salt p. cc;
}

abbrev bare : Files
bare = record { password = no_record; sessions = [] }

abbrev owned : Files
owned = record {
  password = record {
    version = some 1;
    salt = some (8 ∷ []);
    digest = some (1 ∷ 7 ∷ []);
    source = unmarked;
  };
  sessions = [];
}

owner_set : set_owner_password toy (8 ∷ []) (7 ∷ []) bare ≡ some owned
unfolding set_owner_password
owner_set = refl

set_owner_password_lem_example :
    (verify_owner_password toy (7 ∷ []) owned ≡ true)
    × (password_mode owned ≡ custom)
    × (owned.sessions ≡ [])
    × (default_password_accepted (some default_owner_password) owned ≡ some false)
    × (install_password_verifier none owned ≡ (false, owned))
set_owner_password_lem_example =
    set_owner_password_lem toy (8 ∷ []) (7 ∷ []) bare owned none (some default_owner_password)
      toy-IsLawful (λ e. cc) owner_set

abbrev eight : List ℕ
eight = 97 ∷ 97 ∷ 97 ∷ 97 ∷ 98 ∷ 98 ∷ 48 ∷ 49 ∷ []

abbrev received : Verifier
received = record {
  version = some 1;
  salt = some (eight ++ eight);
  digest = some ((eight ++ eight) ++ (eight ++ eight));
}

abbrev controlled : Files
controlled = record {
  password = record {
    version = some 1;
    salt = received.salt;
    digest = received.digest;
    source = controller;
  };
  sessions = [];
}

verifier_installed : install_password_verifier (some received) bare ≡ (true, controlled)
unfolding install_password_verifier
verifier_installed = refl

abbrev accented : List ℕ
accented = 233 ∷ []

default_password_iff_example :
    ((default_password_accepted (some accented) bare ≡ some true)
      ↔ ((password_mode bare ≡ default) × (accented ≡ default_owner_password)))
    × ((default_password_accepted (some accented) bare ≡ none)
        ↔ ((password_mode bare ≡ default) × (is_ascii accented ≡ false)))
default_password_iff_example = default_password_iff accented bare

-- A library whose texts are plain, and one private address.
abbrev private_address : Address
private_address = record {
  text = "10.0.0.2";
  is_loopback = false;
  is_private = true;
  is_link_local = false;
  is_cgnat = false;
  is_multicast = false;
  is_unspecified = false;
}

abbrev plain : Library
plain = record {
  lower = λ s. s;
  strip = λ s. s;
  after_bearer = λ s. s;
  is_ascii = λ s. true;
  netloc = λ s. some s;
  parse_address = λ s. some private_address;
}

abbrev tokens : Tokens
tokens = record { hub = "hub"; current_fleet = some "fleet"; fleet = some "fleet" }

abbrev request : Request
request = record {
  path = "/api/hub/batches";
  method = "POST";
  client_host = some "10.0.0.2";
  authorization = none;
  hub_header = some "fleet";
  origin = none;
  host = "hub.local";
  has_forwarded = false;
  has_cookies = false;
  has_query = false;
  hub_cookie = none;
  session_live = false;
}

abbrev foreign : Request
foreign = record request { origin = some "evil.example" }

refused_foreign : gate plain tokens foreign ≡ refuse cross_origin
unfolding gate strict_fleet_service_path
refused_foreign = refl

abbrev repair : Request
repair = record request { path = "/api/hub/enrollment-repair/apply" }

repair_strict : strict_fleet_service_path repair.path ≡ true
unfolding strict_fleet_service_path
repair_strict = refl

repair_passes : gate plain tokens repair ≡ pass
unfolding gate require_exact_fleet_service_request strict_fleet_service_path
repair_passes = refl

gate_strict_example :
    (token : String) × (address : Address) × (tokens.current_fleet ≡ some token)
    × (repair.hub_header ≡ some token)
    × (str_eq token "" ≡ false)
    × (repair.has_cookies ≡ false)
    × (repair.authorization ≡ none)
    × (repair.has_query ≡ false)
    × (repair.has_forwarded ≡ false)
    × (plain.parse_address (text_of repair.client_host) ≡ some address)
    × (allowed address ≡ true)
gate_strict_example = gate_strict plain tokens repair repair_strict repair_passes
