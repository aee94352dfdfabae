-- ===== src/Broker/Dispatch.antt =====
-- app/backend/broker.py: one pass of `_dispatch_loop` over the workers that a batch may be offered to.
-- What a worker answers at its turn is an `Offer`. The items are picked by their index before the
-- awaits: a turn finds them as they are by then, and one that was cancelled since is assigned too.
pub mod Pass
use studiohub_mac.Prelude.{
  ℕ, Bool, true, false, not, ◌&&◌, ◌||◌, Option, none, some, List, [], ◌∷◌, map, ◌==◌,
  if◌then◌else◌, any, contains, keep, leb, or_else,
}
use studiohub_mac.Broker.Items.{Item, is_queued}
use studiohub_mac.Broker.Memory.{Decision, skip, wait, run}
use studiohub_mac.Broker.Retry.{item_allows_machine}

pub record Offer : Type 0 where
  pub studio : ℕ
  pub machine : ℕ
  pub in_catalog : Bool
  pub matches_revision : Bool
  pub is_held : Bool
  pub is_cloud : Bool
  pub is_cached : Bool
  pub decision : Decision  -- of `prepare_machine_memory`, run where nothing is required
  pub is_leased : Bool  -- the machine is in `busy_machines` when the answers are there
  pub dispatch_ready : Bool
  pub seen : ℕ → Item  -- the items as they are at this turn

pub data Note : Type 0 where
  no_compatible_item not_in_catalog other_revision held not_downloaded no_memory : Note

-- The items that are looked at, when the pass begins: `queued`, with a retry time that has passed.
unfoldable pub due_items : ℕ → List Item → List ℕ
due_items now items =
    map (λ i. i.index) (keep (λ i. is_queued i.state && leb (or_else i.retry_at 0) now) items)

-- What the loop carries from one worker to the next, and what it has assigned.
pub record Progress : Type 0 where
  pub queued : List ℕ
  pub assigned : List (ℕ × Offer)
  pub note : Option Note

-- Why a worker gets nothing: with a note on the batch, or without.
pub data Refusal : Type 0 where
  noted : Note → Refusal
  silent : Refusal

pub data Outcome : Type 0 where
  passed_over : Note → Outcome
  unavailable : Outcome
  takes : ℕ → List ℕ → Outcome

abbrev pub keep_item : ℕ → Option (ℕ × List ℕ) → Option (ℕ × List ℕ)
keep_item i none = none
keep_item i (some (j, rest)) = some (j, i ∷ rest)

-- The first item that passes the test, and the others.
unfoldable pub pop_first : (ℕ → Bool) → List ℕ → Option (ℕ × List ℕ)
pop_first p [] = none
pop_first p (i ∷ items) =
    let others = keep_item i (pop_first p items) in if p i then some (i, items) else others

is_run : Decision → Bool
is_run run = true
is_run _ = false

-- The checks behind the choice of an item, in their order; none means that it is assigned.
unfoldable pub refusal : Offer → Option Refusal
unfolding is_run
refusal o =
    if not o.in_catalog
    then some (noted not_in_catalog)
    else if not o.matches_revision
    then some (noted other_revision)
    else if o.is_held
    then some (noted held)
    else if not (o.is_cloud || o.is_cached)
    then some (noted not_downloaded)
    else if not (is_run o.decision)
    then some (noted no_memory)
    else if o.is_leased
    then some silent
    else if not o.dispatch_ready
    then some silent
    else none

choose : Option Refusal → ℕ → List ℕ → Outcome
choose none i rest = takes i rest
choose (some (noted n)) i rest = passed_over n
choose (some silent) i rest = unavailable

consider_popped : Offer → Option (ℕ × List ℕ) → Outcome
unfolding refusal choose
consider_popped o none = passed_over no_compatible_item
consider_popped o (some (i, rest)) = choose (refusal o) i rest

-- Whether the shared voice of an item is on the Studio is an argument.
unfoldable pub accepts : ℕ → (ℕ → Item → Bool) → Offer → ℕ → Bool
accepts now shares o i = shares o.studio (o.seen i) && item_allows_machine o.machine now (o.seen i)

advance : Offer → Progress → Outcome → Progress
advance o p (passed_over n) = record p { note = some n }
advance o p unavailable = p
advance o p (takes i rest) = record { queued = rest; assigned = (i, o) ∷ p.assigned; note = none }

pub offer : ℕ → (ℕ → Item → Bool) → Offer → Progress → Progress
unfolding advance consider_popped pop_first accepts
offer now shares o p = advance o p (consider_popped o (pop_first (accepts now shares o) p.queued))

offer_if : List ℕ → Progress → Progress → Progress
offer_if [] unchanged next = unchanged
offer_if (i ∷ items) unchanged next = next

-- `for studio in eligible`; nothing changes once no item is left.
pub dispatch : ℕ → (ℕ → Item → Bool) → List Offer → Progress → Progress
unfolding offer_if offer
dispatch now shares [] p = p
dispatch now shares (o ∷ offers) p =
    dispatch now shares offers (offer_if p.queued p (offer now shares o p))

-- A pass over the batch, from its items.
pub dispatch_batch : ℕ → (ℕ → Item → Bool) → List Offer → List Item → Progress
unfolding dispatch due_items
dispatch_batch now shares offers items =
    dispatch now shares offers (record { queued = due_items now items; assigned = []; note = none })
