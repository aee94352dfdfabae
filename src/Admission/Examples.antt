-- ===== src/Admission/Examples.antt =====
-- Concrete memory policies: app/backend/memory_admission.py.

use studiohub_mac.Prelude.{◌≡◌, refl, false, none, some, [], ◌∷◌}
use studiohub_mac.Admission.{Entry, Overrides, Policy, describe, set_override}

abbrev plain : Entry
plain = record {
  repo = "org/model";
  aliases = [];
  is_cloud = false;
  min_unified_memory = some 160;
  min_free_memory = none;
}

abbrev row : Overrides
row = ("org/model", record { min_total = 80; min_free = 10; updated_at = 5 }) ∷ []

abbrev policy : Policy
policy = describe "org/model" plain row

overridden : set_override "org/model" 80 10 5 plain [] ≡ some (row, policy)
unfolding set_override
overridden = refl
