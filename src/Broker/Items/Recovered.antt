-- ===== src/Broker/Items/Recovered.antt =====
-- What an operator may recover: app/backend/broker.py, `voice_recovery_item`.
use studiohub_mac.Prelude.{
  ℕ, ◌≡◌, ◌⊎◌, inl, inr, refl, Bool, true, false, not, ◌&&◌, Option, none, some, List, [], ◌∷◌,
  arith, ◌==◌, if◌then◌else◌, Bool-cases, is_some,
}
use studiohub_mac.Broker.Items.{
  State, queued, running, cancel_requested, done, error, cancelled, uncertain, Item, Batch, voice,
  manual_action_required, no_identity, find_item, update_item, may_recover, Target, target, refused,
  not_active, identity_unavailable, recovery_target, voice_recovery_item, set_voice_recovery,
  mark_voice_uncertain,
}

-- The worker may still be at it.
abbrev pub MayRun : State → Type 0
MayRun s = (s ≡ running) ⊎ ((s ≡ cancel_requested) ⊎ (s ≡ uncertain))

abbrev pub IsIdle : State → Type 0
IsIdle s = (s ≡ queued) ⊎ ((s ≡ done) ⊎ ((s ≡ error) ⊎ (s ≡ cancelled)))

-- The three answers about a known item of a Voice batch: it may run and has the Studio and the job
-- that it was accepted under; nothing of it runs; or that identity is missing, and the item is
-- marked for a person to act. The last part is any item of the batch afterwards.
abbrev pub IsAnswered : ℕ → ℕ → ℕ → Item → Batch → Batch → Target → Type 0
IsAnswered index k now i b after answer =
    (MayRun i.state
      × ((studio : ℕ) × (job : ℕ) × (i.studio ≡ some studio) × (i.studio_job ≡ some job))
      × (answer ≡ target i)
      × (after ≡ b))
    ⊎ ((IsIdle i.state × (answer ≡ refused not_active) × (after ≡ b))
        ⊎ (MayRun i.state
            × ((i.studio ≡ none) ⊎ (i.studio_job ≡ none))
            × (answer ≡ refused identity_unavailable)
            × ((q : Item) × (q.state ≡ uncertain)
                × (q.retry_at ≡ none)
                × (q.recovery
                    ≡ some (record {
                      phase = manual_action_required;
                      reason = no_identity;
                      updated_at = now;
                    }))
                × (q.tries ≡ i.tries)
                × (find_item k after.items
                    ≡ (if k == index then some q else find_item k b.items)))))

may_recover-MayRun : (s : State) → may_recover s ≡ true → MayRun s
unfolding may_recover
may_recover-MayRun running h = inl refl
may_recover-MayRun cancel_requested h = inr (inl refl)
may_recover-MayRun uncertain h = inr (inr refl)
may_recover-MayRun _ h = cc

may_recover-IsIdle : (s : State) → may_recover s ≡ false → IsIdle s
unfolding may_recover
may_recover-IsIdle queued h = inl refl
may_recover-IsIdle done h = inr (inl refl)
may_recover-IsIdle error h = inr (inr (inl refl))
may_recover-IsIdle cancelled h = inr (inr (inr refl))
may_recover-IsIdle _ h = cc

find-update :
    (index k : ℕ) (q i : Item) (items : List Item)
    → find_item index items ≡ some i
    → (q.index == index) ≡ true
    → find_item k (update_item index q items) ≡ (if k == index then some q else find_item k items)
unfolding find_item update_item
find-update index k q i [] f e = cc
find-update index k q i (x ∷ items) f e = elim (Bool-cases (x.index == index)) [
  | inl p ↦ ground arith
  | inr p ↦ ground (arith, find-update index k q i items)
]

find-index :
    (index : ℕ) (items : List Item) (i : Item)
    → find_item index items ≡ some i
    → (i.index == index) ≡ true
unfolding find_item
find-index index [] i f = cc
find-index index (x ∷ items) i f = elim (Bool-cases (x.index == index)) [
  | inl p ↦ ground arith
  | inr p ↦ find-index index items i (rw p at f)
]

-- The item that is marked for a person to act.
abbrev asked : ℕ → Item → Item
asked now i =
    set_voice_recovery manual_action_required no_identity now
      (mark_voice_uncertain no_identity now i)

marked :
    (index k now : ℕ) (b : Batch) (i : Item)
    → find_item index b.items ≡ some i
    → (q : Item) × (q.state ≡ uncertain)
      × (q.retry_at ≡ none)
      × (q.recovery
          ≡ some
              (record { phase = manual_action_required; reason = no_identity; updated_at = now }))
      × (q.tries ≡ i.tries)
      × (find_item k (update_item index (asked now i) b.items)
          ≡ (if k == index then some q else find_item k b.items))
unfolding set_voice_recovery mark_voice_uncertain
marked index k now b i f = (
  asked now i,
  refl,
  refl,
  refl,
  refl,
  find-update index k (asked now i) i b.items f (find-index index b.items i f),
)

voice_target :
    (index now : ℕ) (b : Batch) (i : Item)
    → b.modality ≡ voice
    → find_item index b.items ≡ some i
    → voice_recovery_item index now b ≡ recovery_target index now b (some i)
unfolding voice_recovery_item
voice_target index now b i v f = rw (v, f) refl

missing : (a b : Option ℕ) → (is_some a && is_some b) ≡ false → (a ≡ none) ⊎ (b ≡ none)
missing none b h = inl refl
missing (some a) none h = inr refl
missing (some a) (some b) h = cc

given_both :
    (a b : Option ℕ)
    → (is_some a && is_some b) ≡ true
    → (m : ℕ) × (n : ℕ) × (a ≡ some m) × (b ≡ some n)
given_both (some m) (some n) h = (m, n, refl, refl)
given_both none b h = cc
given_both (some m) none h = cc

recovery_target-IsAnswered :
    (index k now : ℕ) (b : Batch) (i : Item) (runs known : Bool)
    → find_item index b.items ≡ some i
    → may_recover i.state ≡ runs
    → (is_some i.studio && is_some i.studio_job) ≡ known
    → let (after, answer) : Batch × Target =
        if not runs
        then (b, refused not_active)
        else if not known
        then (
          record b { items = update_item index (asked now i) b.items },
          refused identity_unavailable,
        )
        else (b, target i) in
      IsAnswered index k now i b after answer
recovery_target-IsAnswered index k now b i false known f m n =
    inr (inl (may_recover-IsIdle i.state m, refl, refl))
recovery_target-IsAnswered index k now b i true false f m n = inr (
    inr (
      may_recover-MayRun i.state m,
      missing i.studio i.studio_job n,
      refl,
      marked index k now b i f,
    ))
recovery_target-IsAnswered index k now b i true true f m n =
    inl (may_recover-MayRun i.state m, given_both i.studio i.studio_job n, refl, refl)

-- What an operator is answered who wants to recover an item of a Voice batch: the item, and nothing
-- changes, exactly when it is running, asked to stop or uncertain and has a Studio and a job; a
-- refusal without a change when it is queued or ended; and a refusal that leaves it uncertain,
-- marked for a person to act because it has no identity, with no time of retry and the tries it
-- had, and all other items as they were, when its Studio or
-- its job is not known.
pub voice_recovery_item_lem :
    (index k now : ℕ) (b : Batch) (i : Item)
    → b.modality ≡ voice
    → find_item index b.items ≡ some i
    → let (after, answer) = voice_recovery_item index now b in
      IsAnswered index k now i b after answer
unfolding recovery_target
voice_recovery_item_lem index k now b i v f = rw (voice_target index now b i v f) (
    recovery_target-IsAnswered index k now b i (may_recover i.state)
      (is_some i.studio && is_some i.studio_job) f refl refl)
