-- ===== src/Broker/Examples/Work.antt =====
-- Concrete runs of items and retries: app/backend/broker.py.
use studiohub_mac.Prelude.{
  ℕ, ◌≤◌, ◌≡◌, ◌⊎◌, ◌+◌, refl, true, false, none, some, List, [], ◌∷◌, arith, any, count_if, map,
  ◌*◌, All,
}
use studiohub_mac.Identity.{at, lease_expired}
use studiohub_mac.Broker.Items.{
  find_item, voice_recovery_item, queued, running, error, done, Item, Modality, voice, image, Batch,
  is_active, is_queued, expire_genstudio_batch, restore_batch, maybe_finish,
}
use studiohub_mac.Broker.Items.Expiry.{IsFenced, expire_genstudio_batch_lem}
use studiohub_mac.Broker.Items.Restart.{identity, restart-voice}
use studiohub_mac.Broker.Items.Recovered.{IsAnswered, voice_recovery_item_lem}
use studiohub_mac.Broker.Memory.{run}
use studiohub_mac.Broker.Dispatch.{Offer, due_items, dispatch_batch}
use studiohub_mac.Broker.Dispatch.Pass.{IsSound, dispatch_batch_lem}
use studiohub_mac.Broker.Items.Finish.{maybe_finish_once}
use studiohub_mac.Broker.Retry.{Failure}
use studiohub_mac.Broker.Retry.Bounds.{Loss, IsTransportLoss, ends, transport_failures_end}

-- An item that runs as the job 5 of the Studio 1, and one that waits.
abbrev active : Item
active = record {
  index = 0;
  state = running;
  tries = 1;
  studio = some 1;
  studio_job = some 5;
  error = none;
  retry_at = none;
  finished_at = none;
  recovery = none;
  infra_failures = 0;
  infra_started = none;
  capacity_wait_started = none;
  avoid = [];
}

abbrev waiting : Item
waiting = record active { index = 1; state = queued; studio = none; studio_job = none; tries = 0 }

abbrev batch : Modality → Batch
batch modality = record {
  id = 1;
  modality = modality;
  lease = some (at 100);
  cancelled_flag = false;
  lease_expired_flag = false;
  items = active ∷ waiting ∷ [];
  finished_at = none;
  done_notified = false;
  webhook = true;
  webhook_sent = false;
}

restart-voice_example :
    (count_if (λ i. is_queued i.state) (restore_batch 50 (batch voice)).items
      ≤ count_if (λ i. is_queued i.state) (batch voice).items)
    × (map identity (restore_batch 50 (batch voice)).items ≡ map identity (batch voice).items)
restart-voice_example = restart-voice 50 (batch voice) refl

within_lease : lease_expired (batch image).lease 50 ≡ false
unfolding lease_expired
within_lease = refl

lease_over : lease_expired (batch voice).lease 100 ≡ true
unfolding lease_expired
lease_over = refl

expire_genstudio_batch_lem_example :
    let (fenced, expired) = expire_genstudio_batch 100 (batch voice) in
    (expired ≡ true)
    × (fenced.cancelled_flag ≡ true)
    × (fenced.lease_expired_flag ≡ true)
    × IsFenced (batch voice).items fenced.items
    × (expire_genstudio_batch 120 fenced ≡ (fenced, false))
expire_genstudio_batch_lem_example =
    expire_genstudio_batch_lem 100 120 (batch voice) lease_over refl

abbrev finished : Batch
finished = record (batch image) {
  items = record active { state = done } ∷ record waiting { state = error } ∷ [];
}

maybe_finish_once_example :
    let (after, sent) = maybe_finish 60 finished in
    ((any (λ i. is_active i.state) finished.items ≡ true) × (after ≡ finished) × (sent ≡ []))
    ⊎ ((any (λ i. is_active i.state) finished.items ≡ false)
        × (after.done_notified ≡ true)
        × (maybe_finish 70 after ≡ (after, [])))
maybe_finish_once_example = maybe_finish_once 60 70 finished

abbrev transport : Failure
transport = record {
  retryable = true;
  is_capacity = false;
  is_transport = true;
  worker_terminal = false;
  message = 4;
}

abbrev lost : ℕ → Failure → Loss
lost n f = record { studio = n; machine = n + 6; failure = f; released = false; at = 10 * n }

abbrev eight_losses : List Loss
eight_losses =
    lost 1 transport
    ∷ lost 2 transport
    ∷ lost 3 transport
    ∷ lost 4 transport
    ∷ lost 5 transport
    ∷ lost 6 transport
    ∷ lost 7 transport
    ∷ lost 8 transport
    ∷ []

transport_losses : All IsTransportLoss eight_losses
transport_losses =
    let one : IsTransportLoss (lost 1 transport) = (refl, refl, refl) in
    (one, (one, (one, (one, (one, (one, (one, (one, tt))))))))

transport_failures_end_example : ends eight_losses waiting ≡ true
transport_failures_end_example =
    transport_failures_end eight_losses waiting transport_losses (omega arith) (omega arith)

abbrev pressed : Failure
pressed = record transport { is_capacity = true; is_transport = false }

found_active : find_item 0 (batch voice).items ≡ some active
unfolding find_item
found_active = refl

voice_recovery_item_lem_example :
    let (after, answer) = voice_recovery_item 0 50 (batch voice) in
    IsAnswered 0 1 50 active (batch voice) after answer
voice_recovery_item_lem_example =
    voice_recovery_item_lem 0 1 50 (batch voice) active refl found_active

-- Two workers of one machine, and one that lacks the model.
abbrev good : Offer
good = record {
  studio = 1;
  machine = 7;
  in_catalog = true;
  matches_revision = true;
  is_held = false;
  is_cloud = false;
  is_cached = true;
  decision = run;
  is_leased = false;
  dispatch_ready = true;
  seen = λ k. waiting;
}

abbrev offers : List Offer
offers =
    good
    ∷ record good { studio = 2 }
    ∷ record good { studio = 3; machine = 8; is_cached = false }
    ∷ []

dispatch_batch_lem_example :
    IsSound 50
      (λ studio i. true)
      (due_items 50 (waiting ∷ waiting ∷ []))
      (dispatch_batch 50 (λ studio i. true) offers (waiting ∷ waiting ∷ []))
dispatch_batch_lem_example =
    dispatch_batch_lem 50 (λ studio i. true) offers (waiting ∷ waiting ∷ [])
