-- ===== src/Broker/Leases/Turns.antt =====
-- The shared turn of the chat and transcription lanes: app/backend/broker.py.
use studiohub_mac.Prelude.{
  ℕ, ◌≡◌, ◌≢◌, refl, Bool, true, false, some, List, [], ◌∷◌, lookup-insert_self, lookup-insert_ne,
}
use studiohub_mac.Broker.Leases.{
  Lane, chat, transcription, Scheduler, opposite, external_dispatch_allowed, note_external_dispatch,
  is_turn,
}

-- Each lane differs from the one before it.
abbrev pub Alternates : Lane → List Lane → Type 0
Alternates before [] = Unit
Alternates before (lane ∷ lanes) = (lane ≡ opposite before) × Alternates lane lanes

-- Each dispatch on the machine was allowed, both lanes having work, and noted.
abbrev pub AllAllowed : ℕ → Scheduler → List Lane → Type 0
AllAllowed machine s [] = Unit
AllAllowed machine s (lane ∷ lanes) =
    (external_dispatch_allowed machine lane true s ≡ true)
    × AllAllowed machine (note_external_dispatch machine lane s) lanes

-- While both lanes have work they take turns on a machine: after a dispatch of one, every allowed
-- sequence of dispatches alternates.
pub turns_alternate :
    (machine : ℕ) (before : Lane) (s : Scheduler) (lanes : List Lane)
    → AllAllowed machine (note_external_dispatch machine before s) lanes
    → Alternates before lanes
unfolding external_dispatch_allowed note_external_dispatch
turns_alternate machine before s [] h = tt
turns_alternate machine before s (lane ∷ lanes) h = (
  next before lane (rw (lookup-insert_self machine (opposite before) s.turns) at h.0),
  turns_alternate machine lane (note_external_dispatch machine before s) lanes h.1,
)
  where
    next : (x y : Lane) → is_turn y (some (opposite x)) ≡ true → y ≡ opposite x
    next chat chat p = cc
    next chat transcription p = refl
    next transcription chat p = refl
    next transcription transcription p = cc

-- A lane alone is never stopped, and the turn of one machine is not another's.
pub lone_lane_allowed :
    (machine other : ℕ) (lane passed : Lane) (s : Scheduler) (work : Bool)
    → other ≢ machine
    → (external_dispatch_allowed machine lane false (note_external_dispatch machine passed s)
        ≡ true)
      × (external_dispatch_allowed machine
            (opposite passed)
            true
            (note_external_dispatch machine passed s)
          ≡ true)
      × (external_dispatch_allowed other lane work (note_external_dispatch machine passed s)
          ≡ external_dispatch_allowed other lane work s)
unfolding external_dispatch_allowed note_external_dispatch
lone_lane_allowed machine other lane passed s work ne = (
  refl,
  rw (lookup-insert_self machine (opposite passed) s.turns) (own passed),
  rw (lookup-insert_ne machine other (opposite passed) s.turns ne) refl,
)
  where
    own : (x : Lane) → is_turn (opposite x) (some (opposite x)) ≡ true
    own chat = refl
    own transcription = refl
