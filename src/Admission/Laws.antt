-- ===== src/Admission/Laws.antt =====
-- The floors of a model: app/backend/workload_policy.py and app/backend/memory_admission.py.
use Prim.Native.String.{String}
use text.Mathlib.Text.{◌==◌ as str_eq, starts_with}
use text.Mathlib.TextEquality.{eq_iff}
use text.Mathlib.TextPositions.{eq_refl}
use mathlib.Core.Option.{some-injective}
use studiohub_mac.Prelude.{
  ℕ, ◌≤◌, ◌≡◌, refl, true, false, Option, none, some, List, [], ◌∷◌, ◌++◌, arith, any, Bool-cases,
  inl, inr, ◌∙◌, if◌then◌else◌, sym, ap,
}
use studiohub_mac.Admission.{
  Entry, Override, Overrides, Policy, operator_override, production_prefixes, production_total,
  production_free, identifiers, prefix_floors, name_floors, max_of, required_total_memory,
  required_free_memory, default_min_free_memory, default_floors, fleet_default, find, put, drop_key,
  key_of, describe, set_override, reset_override,
}

-- Every value is at most the largest.
abbrev pub IsFloor : ℕ → Option ℕ → Type 0
IsFloor v none = ⊥
IsFloor v (some m) = v ≤ m

max_of-grows :
    (v w : ℕ) (values : List ℕ) → IsFloor v (max_of values) → IsFloor v (max_of (w ∷ values))
unfolding max_of
max_of-grows v w [] h = absurd h
max_of-grows v w (x ∷ values) h = omega arith

max_of-append : (v : ℕ) (xs ys : List ℕ) → IsFloor v (max_of ys) → IsFloor v (max_of (xs ++ ys))
max_of-append v [] ys h = h
max_of-append v (x ∷ xs) ys h = max_of-grows v x (xs ++ ys) (max_of-append v xs ys h)

max_of-head : (v : ℕ) (values : List ℕ) → IsFloor v (max_of (v ∷ values))
unfolding max_of
max_of-head v values = omega arith

prefix_floors-any :
    (floor : ℕ) (name : String) (prefixes : List String) (rest : List ℕ)
    → any (starts_with name) prefixes ≡ true
    → IsFloor floor (max_of (prefix_floors floor name prefixes ++ rest))
unfolding prefix_floors
prefix_floors-any floor name [] rest h = cc
prefix_floors-any floor name (p ∷ prefixes) rest h = elim (Bool-cases (starts_with name p)) [
  | inl e ↦ rw e (max_of-head floor (prefix_floors floor name prefixes ++ rest))
  | inr e ↦ rw e (prefix_floors-any floor name prefixes rest (ground arith))
]

name_floors-any :
    (floor : ℕ) (names : List String)
    → any (λ name. any (starts_with name) production_prefixes) names ≡ true
    → IsFloor floor (max_of (name_floors floor names))
unfolding name_floors
name_floors-any floor [] h = cc
name_floors-any floor (name ∷ names) h =
    elim (Bool-cases (any (starts_with name) production_prefixes)) [
      | inl e ↦ prefix_floors-any floor name production_prefixes (name_floors floor names) e
      | inr e ↦
          max_of-append floor (prefix_floors floor name production_prefixes)
            (name_floors floor names) (name_floors-any floor names (ground arith))
    ]

-- A model with a production prefix, under any of its names, needs the production floors.
pub production_floors :
    (model : String) (entry : Entry)
    → any (λ name. any (starts_with name) production_prefixes) (identifiers model entry) ≡ true
    → IsFloor production_total (required_total_memory model entry)
      × IsFloor production_free (required_free_memory model entry)
unfolding required_total_memory required_free_memory
production_floors model entry h = (
  max_of-append production_total _ (name_floors production_total (identifiers model entry))
      (name_floors-any production_total (identifiers model entry) h),
  max_of-append production_free _ (name_floors production_free (identifiers model entry))
      (name_floors-any production_free (identifiers model entry) h),
)

find-put :
    (k j : String) (o : Override) (d : Overrides)
    → find j (put k o d) ≡ (if str_eq k j then some o else find j d)
unfolding find put
find-put k j o [] = refl
find-put k j o ((i, p) ∷ d) = ground (arith, eq_iff k j, eq_iff i k, eq_iff i j, find-put k j o d)

find-drop_key :
    (k j : String) (d : Overrides) → find j (drop_key k d) ≡ (if str_eq k j then none else find j d)
unfolding find drop_key
find-drop_key k j [] = ground arith
find-drop_key k j ((i, p) ∷ d) =
    ground (arith, eq_iff k j, eq_iff i k, eq_iff i j, find-drop_key k j d)

-- Only the row of its own key decides a policy.
describe_of_find :
    (model : String) (entry : Entry) (d d' : Overrides)
    → find (key_of model entry) d ≡ find (key_of model entry) d'
    → describe model entry d ≡ describe model entry d'
unfolding describe
describe_of_find model entry d d' h = rw h

overridden_policy :
    (model : String) (entry : Entry) (d : Overrides) (o : Override)
    → find (key_of model entry) d ≡ some o
    → ((describe model entry d).effective_total ≡ some o.min_total)
      × ((describe model entry d).effective_free ≡ o.min_free)
      × ((describe model entry d).origin ≡ operator_override)
      × ((describe model entry d).updated_at ≡ some o.updated_at)
unfolding describe
overridden_policy model entry d o h = (rw h refl, rw h refl, rw h refl, rw h refl)

set_override-parts :
    (model : String) (total free now : ℕ) (entry : Entry) (d d' : Overrides) (p : Policy)
    → set_override model total free now entry d ≡ some (d', p)
    → (str_eq model "" ≡ false)
      × (d' ≡ put model (record { min_total = total; min_free = free; updated_at = now }) d)
      × (p ≡ describe model entry d')
unfolding set_override
set_override-parts model total free now entry d d' p h = elim (Bool-cases (str_eq model "")) [
  | inl e ↦ let no_row = rw e at h in cc
  | inr e ↦
      let both = some-injective _ _ (rw e at h) in
      (
        e,
        sym (ap (λ x. x.0) both),
        sym (ap (λ x. x.1) both) ∙ ap (describe model entry) (ap (λ x. x.0) both),
      )
]

-- An override decides both floors of its model and is shown as the operator's; the policy of a
-- model with another key stays.
pub set_override_lem :
    (model other : String) (total free now : ℕ) (entry other_entry : Entry) (d d' : Overrides)
    (p : Policy)
    → set_override model total free now entry d ≡ some (d', p)
    → str_eq model (key_of other other_entry) ≡ false
    → (p.effective_total ≡ some total)
      × (p.effective_free ≡ free)
      × (p.origin ≡ operator_override)
      × (p.updated_at ≡ some now)
      × (describe model entry d' ≡ p)
      × (describe other other_entry d' ≡ describe other other_entry d)
set_override_lem model other total free now entry other_entry d d' p h ne =
    let row : Override = record { min_total = total; min_free = free; updated_at = now } in
    let (filled, stored, policy) = set_override-parts model total free now entry d d' p h in
    let own : find (key_of model entry) d' ≡ some row =
      rw (stored, filled) (find-put model model row d ∙ rw (eq_refl model) refl) in
    let (a, b, c, e) = overridden_policy model entry d' row own in
    (
      rw policy a,
      rw policy b,
      rw policy c,
      rw policy e,
      sym policy,
      describe_of_find other other_entry d' d
          (rw stored (find-put model (key_of other other_entry) row d ∙ rw ne refl)),
    )

-- Resetting an override brings back the policy of a model without one, and leaves the others.
pub reset_override_lem :
    (model other : String) (entry other_entry : Entry) (d : Overrides)
    → str_eq model "" ≡ false
    → str_eq model (key_of other other_entry) ≡ false
    → ((reset_override model entry d).1 ≡ describe model entry [])
      × (describe other other_entry (reset_override model entry d).0 ≡ describe other other_entry d)
unfolding reset_override find
reset_override_lem model other entry other_entry d filled ne = (
  describe_of_find model entry (drop_key model d) [] (rw filled (own model d)),
  describe_of_find other other_entry (drop_key model d) d
      (find-drop_key model (key_of other other_entry) d ∙ rw ne refl),
)
  where
    own : (k : String) (e : Overrides) → find k (drop_key k e) ≡ find k []
    own k e = find-drop_key k k e ∙ rw (eq_refl k) refl

defaults_floor :
    (key : String) (total free : Option ℕ)
    → default_min_free_memory ≤ (default_floors (fleet_default key) total free).min_free
unfolding default_floors fleet_default
defaults_floor key total free = ground arith

-- Without an override no model starts with less than two gigabytes free, and its floor of the total
-- memory is the default one.
pub default_floor :
    (model : String) (entry : Entry) (d : Overrides)
    → find (key_of model entry) d ≡ none
    → (default_min_free_memory ≤ (describe model entry d).effective_free)
      × ((describe model entry d).effective_total ≡ (describe model entry d).default_total)
unfolding describe
default_floor model entry d h =
    (rw h (defaults_floor (key_of model entry) _ (required_free_memory model entry)), rw h refl)
