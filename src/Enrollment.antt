-- ===== src/Enrollment.antt =====
-- app/backend/enrollment.py: the enrollment credential of a site. Codes, ids and hashes are numbers; the
-- pattern of a code, its hash and the fresh values of `secrets` are arguments.
pub mod Revoked
pub mod Rotated
pub mod Examples
use studiohub_mac.Prelude.{
  ℕ, ◌+◌, Bool, true, false, not, ◌&&◌, ◌||◌, Option, none, some, List, [], ◌∷◌, ◌++◌, map, leb,
  ◌==◌, if◌then◌else◌, any, is_some,
}

-- What load_settings reads of the site.
pub record Settings : Type 0 where
  pub is_controller : Bool
  pub site_id : ℕ
  pub controller_id : ℕ

-- A row of enrollment_codes; `is_permanent` is its kind.
pub record Code : Type 0 where
  pub id : ℕ
  pub code_hash : ℕ
  pub created_at : ℕ
  pub expires_at : ℕ
  pub used_at : Option ℕ
  pub site_id : ℕ
  pub controller_id : ℕ
  pub is_permanent : Bool
  pub revoked_at : Option ℕ
  pub last_used_at : Option ℕ
  pub use_count : ℕ

-- The code file: the id and the code that it holds.
pub record SavedCode : Type 0 where
  pub id : ℕ
  pub code : ℕ

pub record Store : Type 0 where
  pub codes : List Code
  pub saved : Option SavedCode

abbrev pub empty : Store
empty = record { codes = []; saved = none }

pub data Reply : Type 0 where
  accepted : Reply
  not_controller invalid revoked older_site already_used expired no_fleet_token : Reply
  integrity_error : Reply

-- The permanent credential that is not revoked.
unfoldable pub is_active : Code → Bool
is_active r = r.is_permanent && not (is_some r.revoked_at)

unfoldable pub revoke_row : ℕ → Code → Code
unfolding is_active
revoke_row now r = if is_active r then record r { revoked_at = some now } else r

unfoldable pub new_code : Settings → (id code_hash now : ℕ) → Code
new_code settings id code_hash now = record {
  id = id;
  code_hash = code_hash;
  created_at = now;
  expires_at = 0;
  used_at = none;
  site_id = settings.site_id;
  controller_id = settings.controller_id;
  is_permanent = true;
  revoked_at = none;
  last_used_at = none;
  use_count = 0;
}

-- `create_enrollment_code`: an insert that breaks a key puts the file back.
unfoldable pub create_enrollment_code :
    (ℕ → ℕ) → Settings → (id code now : ℕ) → Store → Store × Reply
unfolding revoke_row new_code
create_enrollment_code hash settings id code now s =
    if not settings.is_controller
    then (s, not_controller)
    else if any (λ r. r.id == id || r.code_hash == hash code) s.codes
    then (s, integrity_error)
    else (
      record {
        codes = map (revoke_row now) s.codes ++ new_code settings id (hash code) now ∷ [];
        saved = some (record { id = id; code = code });
      },
      accepted,
    )

unfoldable pub find_code : ℕ → List Code → Option Code
find_code code_hash [] = none
find_code code_hash (r ∷ rows) =
    if r.code_hash == code_hash then some r else find_code code_hash rows

-- The UPDATE of the row that was found; its id and its hash are unique.
unfoldable pub update_code : ℕ → (Code → Code) → List Code → List Code
update_code code_hash f [] = []
update_code code_hash f (r ∷ rows) =
    if r.code_hash == code_hash then f r ∷ rows else r ∷ update_code code_hash f rows

unfoldable pub used_row : ℕ → Code → Code
used_row now r =
    if r.is_permanent
    then record r { last_used_at = some now; use_count = r.use_count + 1 }
    else record r { used_at = some now }

-- Why a row that was found is not claimed.
unfoldable pub refusal : Settings → Bool → ℕ → Code → Option Reply
refusal settings has_token now r =
    if r.is_permanent && is_some r.revoked_at
    then some revoked
    else if r.is_permanent
        && not (r.site_id == settings.site_id && r.controller_id == settings.controller_id)
    then some older_site
    else if not r.is_permanent && is_some r.used_at
    then some already_used
    else if not r.is_permanent && leb r.expires_at now
    then some expired
    else if not has_token
    then some no_fleet_token
    else none

unfoldable pub claim_row : ℕ → ℕ → Store → Option Reply → Store × Reply
unfolding update_code used_row
claim_row code_hash now s (some e) = (s, e)
claim_row code_hash now s none =
    (record s { codes = update_code code_hash (used_row now) s.codes }, accepted)

unfoldable pub claim_found : Settings → Bool → ℕ → ℕ → Store → Option Code → Store × Reply
unfolding claim_row refusal
claim_found settings has_token code_hash now s none = (s, invalid)
claim_found settings has_token code_hash now s (some r) =
    claim_row code_hash now s (refusal settings has_token now r)

-- `claim_enrollment_code`: whether the Hub has a fleet token is an argument.
unfoldable pub claim_enrollment_code :
    (ℕ → ℕ) → (ℕ → Bool) → Settings → Bool → (code now : ℕ) → Store → Store × Reply
unfolding claim_found
claim_enrollment_code hash valid settings has_token code now s =
    if not settings.is_controller
    then (s, not_controller)
    else if not (valid code)
    then (s, invalid)
    else claim_found settings has_token (hash code) now s (find_code (hash code) s.codes)

-- `revoke_enrollment_credential`, and whether a row was revoked.
unfoldable pub revoke_enrollment_credential : Settings → ℕ → Store → Store × Option Bool
unfolding revoke_row
revoke_enrollment_credential settings now s = if not settings.is_controller then (s, none) else (
  record { codes = map (revoke_row now) s.codes; saved = none },
  some (any is_active s.codes),
)

-- ORDER BY created_at DESC LIMIT 1
unfoldable pub later : Code → Option Code → Option Code
later r none = some r
later r (some q) = if leb q.created_at r.created_at then some r else some q

unfoldable pub active_code : List Code → Option Code
unfolding later is_active
active_code [] = none
active_code (r ∷ rows) = if is_active r then later r (active_code rows) else active_code rows

unfoldable pub revealed : (ℕ → ℕ) → (ℕ → Bool) → Option Code → Option SavedCode → Option ℕ
revealed hash valid (some r) (some f) =
    if f.id == r.id && (valid f.code && hash f.code == r.code_hash) then some f.code else none
revealed hash valid _ _ = none

-- The code that `enrollment_credential_status` reveals on request.
unfoldable pub revealed_code : (ℕ → ℕ) → (ℕ → Bool) → Settings → Store → Option ℕ
unfolding revealed active_code
revealed_code hash valid settings s =
    if settings.is_controller then revealed hash valid (active_code s.codes) s.saved else none

pub data Call : Type 0 where
  creates : (id code : ℕ) → Call
  claims : (has_token : Bool) → (code : ℕ) → Call
  revokes : Call

-- Each call comes with its time and the settings that it reads.
unfoldable pub step : (ℕ → ℕ) → (ℕ → Bool) → Store → ℕ × Settings × Call → Store
step hash valid s (now, settings, creates id code) =
    (create_enrollment_code hash settings id code now s).0
step hash valid s (now, settings, claims has_token code) =
    (claim_enrollment_code hash valid settings has_token code now s).0
step hash valid s (now, settings, revokes) = (revoke_enrollment_credential settings now s).0

unfoldable pub run : (ℕ → ℕ) → (ℕ → Bool) → Store → List (ℕ × Settings × Call) → Store
unfolding step
run hash valid s [] = s
run hash valid s (c ∷ cs) = run hash valid (step hash valid s c) cs
