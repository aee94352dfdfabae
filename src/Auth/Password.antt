-- ===== src/Auth/Password.antt =====
-- app/backend/auth.py: the owner password. The state is the password file, with the sessions file
-- beside it; texts are lists of code points, None is a field that is missing or no text.
pub mod Laws
use studiohub_mac.Prelude.{
  ℕ, ◌%◌, ◌<◌, ◌≡◌, ◌≢◌, refl, Bool, true, false, not, ◌&&◌, ◌||◌, Option, none, some, List, [],
  ◌∷◌, ap, ap₂, ◌∙◌, inl, inr, Option-cases, arith, leb, ◌==◌, if◌then◌else◌, length, all,
  Bool-cases, list_eq, list_eq_refl, list_eq_sound, ◌↔◌,
}
use studiohub_mac.Auth.Sessions.{Row, clear_browser_sessions}

pub data Source : Type 0 where
  unmarked controller other : Source

-- The record in the file; an unreadable file is the record with no field.
pub record Stored : Type 0 where
  pub version : Option ℕ
  pub salt : Option (List ℕ)
  pub digest : Option (List ℕ)
  pub source : Source

pub record Files : Type 0 where
  pub password : Stored
  pub sessions : List Row

abbrev pub no_record : Stored
no_record = record { version = none; salt = none; digest = none; source = unmarked }

pub data Mode : Type 0 where
  default custom inherited : Mode

-- DEFAULT_OWNER_PASSWORD, "123456"
abbrev pub default_owner_password : List ℕ
default_owner_password = 49 ∷ 50 ∷ 51 ∷ 52 ∷ 53 ∷ 54 ∷ []

-- `isinstance(field, str) and field`
abbrev pub filled : Option (List ℕ) → Bool
filled none = false
filled (some []) = false
filled (some (c ∷ cs)) = true

unfoldable pub password_configured : Files → Bool
password_configured f = filled f.password.salt && filled f.password.digest

pub mode_of : Source → Mode
mode_of controller = inherited
mode_of _ = custom

unfoldable pub password_mode : Files → Mode
unfolding password_configured mode_of
password_mode f = if password_configured f then mode_of f.password.source else default

abbrev pub is_ascii : List ℕ → Bool
is_ascii = all (λ c. leb c 127)

-- `hmac.compare_digest` of two texts, which raises (None) unless both are ASCII.
unfoldable pub compare_texts : List ℕ → List ℕ → Option Bool
compare_texts a b = if is_ascii a && is_ascii b then some (list_eq a b) else none

-- The argument is None for a password that is not a text, the answer for an exception.
pub default_password_accepted : Option (List ℕ) → Files → Option Bool
unfolding password_configured compare_texts
default_password_accepted none f = some false
default_password_accepted (some password) f =
    if password_configured f then some false else compare_texts password default_owner_password

unfoldable pub is_hex : ℕ → Bool
is_hex c = (leb 48 c && leb c 57) || (leb 97 c && leb c 102)

-- One field of a verifier: an even number of hexadecimal digits within the bounds.
unfoldable pub valid_field : ℕ → ℕ → Option (List ℕ) → Bool
unfolding is_hex
valid_field low high none = false
valid_field low high (some cs) =
    length cs % 2 == 0 && (leb low (length cs) && (leb (length cs) high && all is_hex cs))

-- What a controller sends: the version is 1 or it is not.
pub record Verifier : Type 0 where
  pub version : Option ℕ
  pub salt : Option (List ℕ)
  pub digest : Option (List ℕ)

unfoldable pub is_version_one : Option ℕ → Bool
is_version_one none = false
is_version_one (some v) = v == 1

unfoldable pub valid_verifier : Verifier → Bool
unfolding is_version_one valid_field
valid_verifier v =
    is_version_one v.version && (valid_field 16 256 v.salt && valid_field 32 1024 v.digest)

pub is_custom : Mode → Bool
is_custom custom = true
is_custom _ = false

-- With the source "controller"; None is a value that is no mapping.
unfoldable pub install_password_verifier : Option Verifier → Files → Bool × Files
unfolding valid_verifier password_mode is_custom clear_browser_sessions
install_password_verifier none f = (false, f)
install_password_verifier (some v) f =
    if not (valid_verifier v) || is_custom (password_mode f) then (false, f) else (
      true,
      record {
        password = record {
          version = some 1;
          salt = v.salt;
          digest = v.digest;
          source = controller;
        };
        sessions = clear_browser_sessions f.sessions;
      },
    )

-- What the code uses of hashlib and of bytes: scrypt of a password and a salt, which may refuse, and
-- the hexadecimal text of bytes and back.
pub record Crypto : Type 0 where
  pub scrypt : List ℕ → List ℕ → Option (List ℕ)
  pub hex : List ℕ → List ℕ
  pub from_hex : List ℕ → Option (List ℕ)

pub record IsLawful (c : Crypto) : Type 0 where
  pub from_hex-hex : (bytes : List ℕ) → c.from_hex (c.hex bytes) ≡ some bytes
  pub hex_filled : (bytes : List ℕ) → bytes ≢ [] → filled (some (c.hex bytes)) ≡ true
  pub scrypt_filled : (password salt : List ℕ) → c.scrypt password salt ≢ some []

pub store_password : Crypto → List ℕ → Option (List ℕ) → Files → Option Files
unfolding clear_browser_sessions
store_password c salt none f = none
store_password c salt (some digest) f = some (record {
  password = record {
    version = some 1;
    salt = some (c.hex salt);
    digest = some (c.hex digest);
    source = unmarked;
  };
  sessions = clear_browser_sessions f.sessions;
})

-- With the random salt; None is an exception.
unfoldable pub set_owner_password : Crypto → List ℕ → List ℕ → Files → Option Files
unfolding store_password
set_owner_password c salt password f =
    if leb 1 (length password) && leb (length password) 1024
    then store_password c salt (c.scrypt password salt) f
    else none

pub digest_matches : Option (List ℕ) → List ℕ → Bool
digest_matches none expected = false
digest_matches (some actual) expected = list_eq actual expected

pub decode : Crypto → Option (List ℕ) → Option (List ℕ)
decode c none = none
decode c (some text) = c.from_hex text

pub check_password : Crypto → List ℕ → Option (List ℕ) → Option (List ℕ) → Bool
unfolding digest_matches
check_password c password none expected = false
check_password c password (some salt) none = false
check_password c password (some salt) (some expected) =
    digest_matches (c.scrypt password salt) expected

pub verify_owner_password : Crypto → List ℕ → Files → Bool
unfolding check_password decode
verify_owner_password c password f =
    check_password c password (decode c f.password.salt) (decode c f.password.digest)
