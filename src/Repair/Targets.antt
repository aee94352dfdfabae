-- ===== src/Repair/Targets.antt =====
-- `create_or_adopt_batch` of app/backend/enrollment_repair_store.py: a target gets a request only if it
-- has no unresolved one.
use studiohub_mac.Prelude.{
  ℕ, ◌≤◌, ◌<◌, ◌≡◌, inl, inr, refl, Bool, true, Option, none, some, List, [], ◌∷◌, arith, ◌==◌,
  if◌then◌else◌, leb, keep, count_if, All, Bool-cases, is_some, any,
}
use studiohub_mac.Repair.Rows.{Request}
use studiohub_mac.Repair.Store.{is_active}
use studiohub_mac.Repair.Create.{
  include, ordered_targets, first_created, active_request, found, existing_of,
}

abbrev pub times : ℕ → List ℕ → ℕ
times k = count_if (λ m. m == k)

abbrev pub Above : ℕ → List ℕ → Type 0
Above k = All (λ m. k < m)

abbrev pub Ascends : List ℕ → Type 0
Ascends [] = Unit {0}
Ascends (x ∷ xs) = Above x xs × Ascends xs

Above-trans : (k x : ℕ) (xs : List ℕ) → k < x → Above x xs → Above k xs
Above-trans k x [] h a = tt
Above-trans k x (y ∷ ys) h a = (omega (arith, a.0), Above-trans k x ys h a.1)

Above-include : (k m : ℕ) (xs : List ℕ) → k < m → Above k xs → Above k (include m xs)
unfolding include
Above-include k m [] h a = (h, tt)
Above-include k m (x ∷ xs) h a = ground (arith, Above-include k m xs)

include-Ascends : (m : ℕ) (xs : List ℕ) → Ascends xs → Ascends (include m xs)
unfolding include
include-Ascends m [] a = (tt, tt)
include-Ascends m (x ∷ xs) a =
    ground (arith, include-Ascends m xs, Above-include x m xs, Above-trans m x xs)

pub ordered_targets-Ascends : (ms : List ℕ) → Ascends (ordered_targets ms)
unfolding ordered_targets
ordered_targets-Ascends [] = tt
ordered_targets-Ascends (m ∷ ms) =
    ground (arith, ordered_targets-Ascends ms, include-Ascends m (ordered_targets ms))

times-Above : (k : ℕ) (xs : List ℕ) → Above k xs → times k xs ≡ 0
times-Above k [] a = refl
times-Above k (x ∷ xs) a = ground (arith, times-Above k xs)

pub Ascends-times : (k : ℕ) (xs : List ℕ) → Ascends xs → times k xs ≤ 1
Ascends-times k [] a = omega arith
Ascends-times k (x ∷ xs) a = ground (arith, Ascends-times k xs, times-Above x xs)

pub times-keep :
    (k : ℕ) (p : ℕ → Bool) (xs : List ℕ) → times k (keep p xs) ≡ (if p k then times k xs else 0)
times-keep k p [] = ground arith
times-keep k p (x ∷ xs) = elim (Bool-cases (x == k)) [
  | inl e ↦ let same : x ≡ k = ground arith in rw same (ground (arith, times-keep k p xs))
  | inr e ↦ ground (arith, times-keep k p xs)
]

pub active-count :
    (k : ℕ) (rows : List Request) → active_request k rows ≡ none → count_if (is_active k) rows ≡ 0
unfolding active_request first_created
active-count k [] h = refl
active-count k (r ∷ rows) h = elim (Bool-cases (is_active k r)) [
  | inl p ↦ absurd (ground (arith, active-count k rows))
  | inr p ↦
      let rest : active_request k rows ≡ none = rw p at h in ground (arith, active-count k rows)
]

abbrev pub OfMachine : ℕ → Option Request → Type 0
OfMachine k none = Unit {0}
OfMachine k (some r) = r.target_machine ≡ k

first_created-OfMachine :
    (k : ℕ) (r : Request) (o : Option Request)
    → r.target_machine ≡ k
    → OfMachine k o
    → OfMachine k (first_created r o)
unfolding first_created
first_created-OfMachine k r none h p = h
first_created-OfMachine k r (some q) h p = elim (Bool-cases (leb r.created_at q.created_at)) [
  | inl e ↦ rw e h
  | inr e ↦ rw e p
]

pub active_request-OfMachine : (k : ℕ) (rows : List Request) → OfMachine k (active_request k rows)
unfolding active_request
active_request-OfMachine k [] = tt
active_request-OfMachine k (r ∷ rows) = elim (Bool-cases (is_active k r)) [
  | inl p ↦ rw p (
      first_created-OfMachine k r (active_request k rows) (unfold is_active in ground arith)
        (active_request-OfMachine k rows))
  | inr p ↦ rw p (active_request-OfMachine k rows)
]

-- A machine that has an unresolved request is among those that exist.
found-any :
    (k : ℕ) (o : Option Request) (rest : List Request)
    → OfMachine k o
    → is_some o ≡ true
    → any (λ r. r.target_machine == k) (found o rest) ≡ true
unfolding found
found-any k none rest h p = cc
found-any k (some r) rest h p = ground arith

found-keeps :
    (p : Request → Bool) (o : Option Request) (rest : List Request)
    → any p rest ≡ true
    → any p (found o rest) ≡ true
unfolding found
found-keeps p none rest h = h
found-keeps p (some r) rest h = ground arith

pub existing-any :
    (k : ℕ) (ms : List ℕ) (rows : List Request)
    → 0 < times k ms
    → is_some (active_request k rows) ≡ true
    → any (λ r. r.target_machine == k) (existing_of ms rows) ≡ true
unfolding existing_of
existing-any k [] rows h p = absurd (ground arith)
existing-any k (m ∷ ms) rows h p = elim (Bool-cases (m == k)) [
  | inl e ↦
      let same : m ≡ k = ground arith in
      rw same (
        found-any k (active_request k rows) (existing_of ms rows) (active_request-OfMachine k rows)
          p)
  | inr e ↦
      found-keeps (λ r. r.target_machine == k) (active_request m rows) (existing_of ms rows)
        (existing-any k ms rows (ground arith) p)
]
