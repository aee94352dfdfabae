-- ===== src/Admission.antt =====
-- app/backend/workload_policy.py and app/backend/memory_admission.py: the memory floors of a model.
-- Memory is counted in tenths of a gigabyte, so that 3.2 GB is 32; floors are not negative. A value
-- of a catalog that is missing, or no number, is None.
pub mod Laws
mod Examples
use Prim.Native.String.{String}
use text.Mathlib.Text.{◌==◌ as str_eq, starts_with}
use studiohub_mac.Prelude.{
  ℕ, max, Bool, true, false, not, ◌||◌, Option, none, some, List, [], ◌∷◌, ◌++◌, map, if◌then◌else◌,
  any, option_eq, is_some, or_else,
}

-- What the policy reads of a catalog entry; the names are normalized.
pub record Entry : Type 0 where
  pub repo : String
  pub aliases : List String
  pub is_cloud : Bool
  pub min_unified_memory : Option ℕ
  pub min_free_memory : Option ℕ

abbrev pub production_prefixes : List String
production_prefixes = "mlx-community/qwen3-tts-12hz-0.6b-" ∷ "qwen/qwen3-tts-12hz-0.6b-" ∷ []

-- _MIN_MACHINE_MEMORY_GB_BY_REPO_PREFIX, _MIN_FREE_MEMORY_GB_BY_REPO_PREFIX
abbrev pub production_total : ℕ
production_total = 80

abbrev pub production_free : ℕ
production_free = 32

abbrev pub identifiers : String → Entry → List String
identifiers model entry = model ∷ entry.repo ∷ entry.aliases

abbrev values_of : Option ℕ → List ℕ
values_of none = []
values_of (some v) = v ∷ []

unfoldable pub prefix_floors : ℕ → String → List String → List ℕ
prefix_floors floor name [] = []
prefix_floors floor name (p ∷ prefixes) =
    if starts_with name p
    then floor ∷ prefix_floors floor name prefixes
    else prefix_floors floor name prefixes

-- The floor once for each prefix that each identifier starts with.
unfoldable pub name_floors : ℕ → List String → List ℕ
unfolding prefix_floors
name_floors floor [] = []
name_floors floor (name ∷ names) =
    prefix_floors floor name production_prefixes ++ name_floors floor names

-- `max(values) if values else None`
unfoldable pub max_of : List ℕ → Option ℕ
max_of [] = none
max_of (v ∷ values) = some (max v (or_else (max_of values) 0))

pub required_total_memory : String → Entry → Option ℕ
unfolding name_floors max_of
required_total_memory model entry =
    max_of
      (values_of entry.min_unified_memory ++ name_floors production_total (identifiers model entry))

pub required_free_memory : String → Entry → Option ℕ
unfolding name_floors max_of
required_free_memory model entry =
    max_of
      (values_of entry.min_free_memory ++ name_floors production_free (identifiers model entry))

abbrev pub default_min_free_memory : ℕ
default_min_free_memory = 20

pub record Floors : Type 0 where
  pub min_total : Option ℕ
  pub min_free : ℕ

-- The one row of _FLEET_DEFAULTS.
fleet_default : String → Option Floors
fleet_default key =
    if str_eq key "aitrader/flux2-klein-4b-mlx-4bit"
    then some (record { min_total = some 80; min_free = 20 })
    else none

pub record Override : Type 0 where
  pub min_total : ℕ
  pub min_free : ℕ
  pub updated_at : ℕ

-- The overrides by normalized model.
abbrev pub Overrides : Type 0
Overrides = List (String × Override)

unfoldable pub find : String → Overrides → Option Override
find key [] = none
find key ((k, o) ∷ rest) = if str_eq k key then some o else find key rest

put : String → Override → Overrides → Overrides
put key o [] = (key, o) ∷ []
put key o ((k, p) ∷ rest) = if str_eq k key then (key, o) ∷ rest else (k, p) ∷ put key o rest

drop_key : String → Overrides → Overrides
drop_key key [] = []
drop_key key ((k, p) ∷ rest) =
    if str_eq k key then drop_key key rest else (k, p) ∷ drop_key key rest

pub data Origin : Type 0 where
  operator_override fleet catalog : Origin

pub record Policy : Type 0 where
  pub catalog_total : Option ℕ
  pub catalog_free : Option ℕ
  pub default_total : Option ℕ
  pub default_free : ℕ
  pub effective_total : Option ℕ
  pub effective_free : ℕ
  pub origin : Origin
  pub overridden : Bool
  pub updated_at : Option ℕ

-- `model or entry.repo`, normalized
abbrev pub key_of : String → Entry → String
key_of model entry = if str_eq model "" then entry.repo else model

default_floors : Option Floors → Option ℕ → Option ℕ → Floors
default_floors none total free = record {
  min_total = total;
  min_free = max default_min_free_memory (or_else free 0);
}
default_floors (some f) total free = f

-- A floor of the workload policy that differs from the catalog's.
differs : Option ℕ → Option ℕ → Bool
differs none catalog_value = false
differs (some v) catalog_value = not (option_eq (some v) catalog_value)

effective : Option Override → Floors → Floors
effective none f = f
effective (some o) f = record { min_total = some o.min_total; min_free = o.min_free }

origin_of : Option Override → Bool → Origin
origin_of none default = if default then fleet else catalog
origin_of (some o) default = operator_override

updated : Option Override → Option ℕ
updated none = none
updated (some o) = some o.updated_at

pub describe : String → Entry → Overrides → Policy
unfolding default_floors effective origin_of updated differs fleet_default
describe model entry overrides =
    let key = key_of model entry in
    let total = required_total_memory model entry in
    let free = required_free_memory model entry in
    let defaults = default_floors (fleet_default key) total free in
    let override = find key overrides in
    let workload = differs total entry.min_unified_memory || differs free entry.min_free_memory in
    record {
      catalog_total = entry.min_unified_memory;
      catalog_free = entry.min_free_memory;
      default_total = defaults.min_total;
      default_free = defaults.min_free;
      effective_total = (effective override defaults).min_total;
      effective_free = (effective override defaults).min_free;
      origin = origin_of override (is_some (fleet_default key) || workload);
      overridden = is_some override;
      updated_at = updated override;
    }

-- The overrides afterwards and the policy; None is the refusal of an empty model.
unfoldable pub set_override : String → ℕ → ℕ → ℕ → Entry → Overrides → Option (Overrides × Policy)
unfolding put
set_override model total free now entry overrides =
    let row : Override = record { min_total = total; min_free = free; updated_at = now } in
    if str_eq model ""
    then none
    else some (put model row overrides, describe model entry (put model row overrides))

pub reset_override : String → Entry → Overrides → Overrides × Policy
unfolding drop_key
reset_override model entry overrides =
    (drop_key model overrides, describe model entry (drop_key model overrides))
