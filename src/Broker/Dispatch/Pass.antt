-- ===== src/Broker/Dispatch/Pass.antt =====
-- What a pass of the dispatch loop assigns: app/backend/broker.py, `_dispatch_loop`.
use studiohub_mac.Prelude.{
  ℕ, ◌+◌, ◌≡◌, refl, Bool, true, false, ◌||◌, Option, none, some, List, [], ◌∷◌, arith,
  if◌then◌else◌, count_if, All, Bool-cases, Option-cases, inl, inr,
}
use studiohub_mac.Broker.Items.{Item}
use studiohub_mac.Broker.Memory.{Decision, run}
use studiohub_mac.Broker.Dispatch.{
  noted, silent, Offer, Progress, Note, pop_first, is_run, refusal, choose, consider_popped,
  accepts, advance, offer, offer_if, dispatch, dispatch_batch, due_items,
}

pop_first-some :
    (p : ℕ → Bool) (items : List ℕ) (i : ℕ) (rest : List ℕ)
    → pop_first p items ≡ some (i, rest)
    → (p i ≡ true) × ((q : ℕ → Bool) → count_if q items ≡ (if q i then 1 else 0) + count_if q rest)
unfolding pop_first
pop_first-some p [] i rest h = cc
pop_first-some p (x ∷ items) i rest h = elim (Bool-cases (p x)) [
  | inl e ↦
      let same_item : x ≡ i = ground arith in
      let same_rest : items ≡ rest = ground arith in
      (rw (← same_item) e, λ q. rw (← same_item, ← same_rest) (ground arith))
  | inr e ↦ elim (Option-cases (pop_first p items)) [
    | inl o ↦ absurd (ground arith)
    | inr ((j, r), o) ↦
        let (good, counts) = pop_first-some p items j r o in
        let same_item : j ≡ i = ground arith in
        let same_rest : x ∷ r ≡ rest = ground arith in
        (rw (← same_item) good, λ q. rw (← same_item, ← same_rest) (ground (arith, counts q)))
  ]
]

-- What the checks leave of an offer.
abbrev pub IsUsable : Offer → Type 0
IsUsable o =
    (o.in_catalog ≡ true)
    × (o.matches_revision ≡ true)
    × (o.is_held ≡ false)
    × ((o.is_cloud || o.is_cached) ≡ true)
    × (o.decision ≡ run)
    × (o.is_leased ≡ false)
    × (o.dispatch_ready ≡ true)

is_run-run : (d : Decision) → is_run d ≡ true → d ≡ run
unfolding is_run
is_run-run run h = refl
is_run-run _ h = cc

refusal-none : (o : Offer) → refusal o ≡ none → IsUsable o
unfolding refusal
refusal-none o h = (
  ground arith,
  ground arith,
  ground arith,
  ground arith,
  is_run-run o.decision (ground arith),
  ground arith,
  ground arith,
)

abbrev pub items_of : List (ℕ × Offer) → List ℕ
items_of [] = []
items_of ((i, o) ∷ assigned) = i ∷ items_of assigned

-- Every item that was due is assigned or still queued, once; what is assigned passed the checks.
pub record IsSound (now : ℕ) (shares : ℕ → Item → Bool) (items : List ℕ) (p : Progress)
    : Type 0 where
  pub conserved :
      (q : ℕ → Bool) → count_if q (items_of p.assigned) + count_if q p.queued ≡ count_if q items
  pub checked : All (λ (i, o). (accepts now shares o i ≡ true) × IsUsable o) p.assigned

taken-IsSound :
    (now : ℕ) (shares : ℕ → Item → Bool) (items : List ℕ) (o : Offer) (p : Progress) (i : ℕ)
    (rest : List ℕ)
    → IsSound now shares items p
    → pop_first (accepts now shares o) p.queued ≡ some (i, rest)
    → refusal o ≡ none
    → IsSound now shares items
        (record { queued = rest; assigned = (i, o) ∷ p.assigned; note = none })
taken-IsSound now shares items o p i rest s popped free =
    let (good, counts) = pop_first-some (accepts now shares o) p.queued i rest popped in
    let usable = refusal-none o free in
    record {
      conserved = λ q. ground (arith, counts q, s.conserved q);
      checked = ((good, usable), s.checked);
    }

noted-IsSound :
    (now : ℕ) (shares : ℕ → Item → Bool) (items : List ℕ) (p : Progress) (n : Option Note)
    → IsSound now shares items p
    → IsSound now shares items (record p { note = n })
noted-IsSound now shares items p n s = record { conserved = s.conserved; checked = s.checked }

offer-IsSound :
    (now : ℕ) (shares : ℕ → Item → Bool) (items : List ℕ) (o : Offer) (p : Progress)
    → IsSound now shares items p
    → IsSound now shares items (offer now shares o p)
unfolding offer advance consider_popped choose
offer-IsSound now shares items o p s =
    elim (Option-cases (pop_first (accepts now shares o) p.queued)) [
      | inl e ↦ rw e (noted-IsSound now shares items p _ s)
      | inr ((i, rest), e) ↦ elim (Option-cases (refusal o)) [
        | inl f ↦ rw (e, f) (taken-IsSound now shares items o p i rest s e f)
        | inr (noted n, f) ↦ rw (e, f) (noted-IsSound now shares items p (some n) s)
        | inr (silent, f) ↦ rw (e, f) s
      ]
    ]

dispatch-IsSound :
    (now : ℕ) (shares : ℕ → Item → Bool) (items : List ℕ) (offers : List Offer) (p : Progress)
    → IsSound now shares items p
    → IsSound now shares items (dispatch now shares offers p)
unfolding dispatch offer_if
dispatch-IsSound now shares items [] p s = s
dispatch-IsSound now shares items (o ∷ offers) p s =
    dispatch-IsSound now shares items offers (offer_if p.queued p (offer now shares o p))
      (either p.queued)
  where
    either : (queued : List ℕ) → IsSound now shares items (offer_if queued p (offer now shares o p))
    either [] = s
    either (i ∷ queued) = offer-IsSound now shares items o p s

-- A pass over a batch assigns only items that were due when it began, each at most once, and to a
-- worker that at its turn has the model in the right revision, is not held back by a pause, memory,
-- a lease or its login, and may take the item as that is by then; what it does not assign, of those
-- that were due, stays in its queue. Other tasks may change the items between the turns.
pub dispatch_batch_lem :
    (now : ℕ) (shares : ℕ → Item → Bool) (offers : List Offer) (items : List Item)
    → IsSound now shares (due_items now items) (dispatch_batch now shares offers items)
unfolding dispatch_batch
dispatch_batch_lem now shares offers items =
    dispatch-IsSound now shares (due_items now items) offers _
      (record { conserved = λ q. omega arith; checked = tt })
