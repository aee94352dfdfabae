-- ===== src/Broker/Items.antt =====
-- app/backend/broker.py: the life of the items of a batch. Texts of errors and reasons are kept as
-- what they say; a worker's message is an identifier.
pub mod Expiry
pub mod Restart
pub mod Finish
pub mod Recovered
use studiohub_mac.Prelude.{
  ℕ, ◌+◌, ◌≡◌, Bool, true, false, not, ◌&&◌, ◌||◌, Option, none, some, List, [], ◌∷◌, map, leb,
  ◌==◌, if◌then◌else◌, any, keep, count_if, Dict, lookup, insert, remove, is_some, or_else,
}
use studiohub_mac.Identity.{Deadline, lease_expired}

pub data State : Type 0 where
  queued running cancel_requested done error cancelled uncertain : State

pub State-discrete : Discrete State
State-discrete = hlevel

pub data Text : Type 0 where
  lease_lost cancelled_by_user auth_changed : Text
  capacity : ℕ → Text
  connection : ℕ → ℕ → Text
  exhausted : ℕ → Text
  try_failed : ℕ → ℕ → Text
  message : ℕ → Text

pub data Phase : Type 0 where
  phase_uncertain draining cancel_asked restart_requested health_wait reconciled : Phase
  manual_action_required : Phase

pub data Reason : Type 0 where
  hub_restarted no_identity not_reconciled : Reason
  given : ℕ → Reason

pub record Recovery : Type 0 where
  pub phase : Phase
  pub reason : Reason
  pub updated_at : ℕ

pub record Item : Type 0 where
  pub index : ℕ
  pub state : State
  pub tries : ℕ
  pub studio : Option ℕ
  pub studio_job : Option ℕ
  pub error : Option Text
  pub retry_at : Option ℕ
  pub finished_at : Option ℕ
  pub recovery : Option Recovery
  pub infra_failures : ℕ
  pub infra_started : Option ℕ
  pub capacity_wait_started : Option ℕ
  pub avoid : Dict ℕ

pub data Modality : Type 0 where
  image music voice video render : Modality

pub record Batch : Type 0 where
  pub id : ℕ
  pub modality : Modality
  pub lease : Option Deadline
  pub cancelled_flag : Bool
  pub lease_expired_flag : Bool
  pub items : List Item
  pub finished_at : Option ℕ
  pub done_notified : Bool
  pub webhook : Bool
  pub webhook_sent : Bool

abbrev pub is_voice : Modality → Bool
is_voice voice = true
is_voice _ = false

-- queued, running, cancel_requested
abbrev pub is_open : State → Bool
is_open queued = true
is_open running = true
is_open cancel_requested = true
is_open _ = false

-- queued, running, cancel_requested, uncertain
abbrev pub is_active : State → Bool
is_active uncertain = true
is_active s = is_open s

abbrev pub is_queued : State → Bool
is_queued queued = true
is_queued _ = false

abbrev pub is_running : State → Bool
is_running running = true
is_running _ = false

-- One item of `_expire_genstudio_batch`.
unfoldable pub expire_item : ℕ → Item → Item
expire_item now i =
    if is_open i.state
    then record i {
      state = cancelled;
      error = some lease_lost;
      finished_at = some now;
      retry_at = none;
    }
    else i

-- The batch, and whether it expired now.
pub expire_genstudio_batch : ℕ → Batch → Batch × Bool
unfolding expire_item
expire_genstudio_batch now b =
    if not (lease_expired b.lease now)
    then (b, false)
    else if not (any (λ i. is_open i.state) b.items)
    then (b, false)
    else (
      record b {
        cancelled_flag = true;
        lease_expired_flag = true;
        items = map (expire_item now) b.items;
      },
      true,
    )

is_uncertain : State → Bool
is_uncertain uncertain = true
is_uncertain _ = false

unfoldable pub voice_recovery_owns : Item → Bool
unfolding is_uncertain
voice_recovery_owns i = is_uncertain i.state || is_some i.recovery

unfoldable pub mark_voice_uncertain : Reason → ℕ → Item → Item
mark_voice_uncertain reason now i = record i {
  state = uncertain;
  retry_at = none;
  recovery = some (record { phase = phase_uncertain; reason = reason; updated_at = now });
}

-- The reason is cut to 500 characters.
unfoldable pub set_voice_recovery : Phase → Reason → ℕ → Item → Item
set_voice_recovery phase reason now i = record i {
  recovery = some (record { phase = phase; reason = reason; updated_at = now });
}

pub data RecoveryError : Type 0 where
  not_voice unknown_item not_active identity_unavailable : RecoveryError

unfoldable pub find_item : ℕ → List Item → Option Item
find_item index [] = none
find_item index (i ∷ items) = if i.index == index then some i else find_item index items

unfoldable pub update_item : ℕ → Item → List Item → List Item
update_item index new [] = []
update_item index new (i ∷ items) =
    if i.index == index then new ∷ items else i ∷ update_item index new items

pub may_recover : State → Bool
may_recover running = true
may_recover cancel_requested = true
may_recover uncertain = true
may_recover _ = false

pub data Target : Type 0 where
  target : Item → Target
  refused : RecoveryError → Target

recovery_target : ℕ → ℕ → Batch → Option Item → Batch × Target
unfolding may_recover
recovery_target index now b none = (b, refused unknown_item)
recovery_target index now b (some i) =
    if not (may_recover i.state)
    then (b, refused not_active)
    else if not (is_some i.studio && is_some i.studio_job)
    then (
      record b {
        items =
            update_item index
              (set_voice_recovery manual_action_required no_identity now
                (mark_voice_uncertain no_identity now i))
              b.items;
      },
      refused identity_unavailable,
    )
    else (b, target i)

-- `voice_recovery_item` of a known batch: the batch that is stored, and the item or the refusal.
unfoldable pub voice_recovery_item : ℕ → ℕ → Batch → Batch × Target
unfolding recovery_target
voice_recovery_item index now b =
    if not (is_voice b.modality)
    then (b, refused not_voice)
    else recovery_target index now b (find_item index b.items)

is_cancel_requested : State → Bool
is_cancel_requested cancel_requested = true
is_cancel_requested _ = false

-- One item of `restore_batches`.
unfoldable pub restore_item : Modality → ℕ → Item → Item
unfolding is_cancel_requested mark_voice_uncertain
restore_item modality now i =
    if (is_running i.state || is_cancel_requested i.state) && is_voice modality
    then mark_voice_uncertain hub_restarted now i
    else if is_running i.state
    then record i { state = queued; studio = none; studio_job = none }
    else i

restored : ℕ → Batch × Bool → Batch
restored now (b, true) = b
restored now (b, false) = record b { items = map (restore_item b.modality now) b.items }

-- One unfinished batch after a restart of the Hub.
pub restore_batch : ℕ → Batch → Batch
unfolding restored restore_item expire_genstudio_batch
restore_batch now b = restored now (expire_genstudio_batch now b)

unfoldable pub cancel_item : Item → Item
cancel_item i =
    if is_queued i.state
    then record i { state = cancelled; error = some cancelled_by_user; retry_at = none }
    else i

-- `clear_finished_batches` of everything: the batches that stay.
pub clear_finished_batches : List Batch → List Batch
clear_finished_batches = keep (λ b. any (λ i. is_active i.state) b.items)

pub data Effect : Type 0 where
  alert_failed post_webhook : Effect

abbrev effects : Bool → Effect → List Effect → List Effect
effects true e rest = e ∷ rest
effects false e rest = rest

is_error : State → Bool
is_error error = true
is_error _ = false

-- `_maybe_finish`: the batch, and what is sent.
pub maybe_finish : ℕ → Batch → Batch × List Effect
unfolding is_error
maybe_finish now b = if b.done_notified || any (λ i. is_active i.state) b.items then (b, []) else (
  record b {
    finished_at = some (or_else b.finished_at now);
    done_notified = true;
    webhook_sent = b.webhook_sent || b.webhook;
  },
  effects (any (λ i. is_error i.state) b.items) alert_failed
      (effects (b.webhook && not b.webhook_sent) post_webhook []),
)

-- `cancel_batch` at a time when nothing else runs between its awaits: the batch, how many queued items
-- were cancelled, the running items that are signalled, and what `_maybe_finish` sends.
pub cancel_batch : ℕ → Batch → Batch × ℕ × List Item × List Effect
unfolding cancel_item maybe_finish
cancel_batch now b =
    let items = map cancel_item b.items in
    let (after, sent) = maybe_finish now (record b { cancelled_flag = true; items = items }) in
    (after, count_if (λ i. is_queued i.state) b.items, keep (λ i. is_running i.state) items, sent)
