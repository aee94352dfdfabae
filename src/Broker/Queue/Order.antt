-- ===== src/Broker/Queue/Order.antt =====
-- The orders of the queue and of the workers: app/backend/broker.py.
use studiohub_mac.Prelude.{
  ℕ, ◌≤◌, ◌<◌, ◌≡◌, refl, Bool, true, false, ◌&&◌, Option, none, some, List, [], ◌∷◌, arith, keep,
  All, sort, ltb, not, ◌||◌, count_if, IsSorted, sort-IsSorted, count_if-sort, All-sort, Bool-cases,
  inl, inr, ◌∙◌, ◌⊎◌,
}
use studiohub_mac.Broker.Items.{Modality, image, music, voice, video, render}
use studiohub_mac.Broker.Queue.{
  Entry, before, has_queued, queued_batches, Routing, Worker, is_eligible, worker_before,
  higher_before, speed_score, memory_before, eligible_studios, priority,
}

before-total : (a b : Entry) → before a b ≡ false → before b a ≡ true
unfolding before
before-total a b h = ground arith

before_trans : (a b c : Entry) → before a b ≡ true → before b c ≡ true → before a c ≡ true
unfolding before
before_trans a b c h k = ground arith

All-keep-true {ℓ} : {A : Type ℓ} (p : A → Bool) (xs : List A) → All (λ x. p x ≡ true) (keep p xs)
All-keep-true p [] = tt
All-keep-true p (x ∷ xs) = elim (Bool-cases (p x)) [
  | inl e ↦ rw e (e, All-keep-true p xs)
  | inr e ↦ rw e (All-keep-true p xs)
]

count_if-keep {ℓ} :
    {A : Type ℓ} (p q : A → Bool) (xs : List A)
    → count_if p (keep q xs) ≡ count_if (λ x. q x && p x) xs
count_if-keep p q [] = refl
count_if-keep p q (x ∷ xs) = ground (arith, count_if-keep p q xs)

abbrev pub is_render : Modality → Bool
is_render render = true
is_render _ = false

abbrev pub is_sound : Modality → Bool
is_sound music = true
is_sound voice = true
is_sound _ = false

-- Renders before sound, and sound before images and video.
abbrev pub class_before : Modality → Modality → Bool
class_before m n =
    (is_render m && not (is_render n)) || (is_sound m && not (is_render n || is_sound n))

-- Why one batch is offered a worker before another: by its class; within a class, because it needs
-- more memory; with the same need, because it was dispatched longer ago; and else because it was
-- not created later.
abbrev pub Precedes : Entry → Entry → Type 0
Precedes a b =
    (class_before a.modality b.modality ≡ true)
    ⊎ ((class_before b.modality a.modality ≡ false)
        × ((b.constraint < a.constraint)
            ⊎ ((a.constraint ≡ b.constraint)
                × ((a.last_dispatched < b.last_dispatched)
                    ⊎ ((a.last_dispatched ≡ b.last_dispatched) × (a.created ≤ b.created))))))

priority-class : (m n : Modality) → ltb (priority m) (priority n) ≡ class_before m n
priority-class render n = render_first n
  where
    render_first : (n : Modality) → ltb 0 (priority n) ≡ class_before render n
    render_first render = refl
    render_first music = refl
    render_first voice = refl
    render_first image = refl
    render_first video = refl
priority-class music n = music_first n
  where
    music_first : (n : Modality) → ltb 5 (priority n) ≡ class_before music n
    music_first render = refl
    music_first music = refl
    music_first voice = refl
    music_first image = refl
    music_first video = refl
priority-class voice n = voice_first n
  where
    voice_first : (n : Modality) → ltb 5 (priority n) ≡ class_before voice n
    voice_first render = refl
    voice_first music = refl
    voice_first voice = refl
    voice_first image = refl
    voice_first video = refl
priority-class image n = image_last n
  where
    image_last : (n : Modality) → ltb 10 (priority n) ≡ class_before image n
    image_last render = refl
    image_last music = refl
    image_last voice = refl
    image_last image = refl
    image_last video = refl
priority-class video n = video_last n
  where
    video_last : (n : Modality) → ltb 10 (priority n) ≡ class_before video n
    video_last render = refl
    video_last music = refl
    video_last voice = refl
    video_last image = refl
    video_last video = refl

before-Precedes : (a b : Entry) → before a b ≡ true → Precedes a b
unfolding before
before-Precedes a b h =
    let first = priority-class a.modality b.modality in
    let last = priority-class b.modality a.modality in
    elim (Bool-cases (class_before a.modality b.modality)) [
      | inl p ↦ inl p
      | inr p ↦ elim (Bool-cases (class_before b.modality a.modality)) [
        | inl q ↦ absurd (ground (arith, rw (first, last, p, q) at h))
        | inr q ↦ inr (q, ground (arith, rw (first, last, p, q) at h))
      ]
    ]

-- Every batch of the queue precedes all those behind it.
abbrev pub IsInOrder : List Entry → Type 0
IsInOrder [] = Unit
IsInOrder (e ∷ entries) = All (Precedes e) entries × IsInOrder entries

All-Precedes : (a : Entry) (xs : List Entry) → All (λ b. before a b ≡ true) xs → All (Precedes a) xs
All-Precedes a [] h = tt
All-Precedes a (b ∷ xs) h = (before-Precedes a b h.0, All-Precedes a xs h.1)

IsSorted-IsInOrder : (xs : List Entry) → IsSorted before xs → IsInOrder xs
IsSorted-IsInOrder [] h = tt
IsSorted-IsInOrder (a ∷ xs) h = (All-Precedes a xs h.0, IsSorted-IsInOrder xs h.1)

-- The queue holds exactly the batches with queued work, each as often, and each comes before all
-- those behind it for one of these reasons: renders come before sound, and sound before images and
-- video; within a class the batch that needs more memory, then the one dispatched longer ago, then
-- the one created earlier.
pub queued_batches_lem :
    (p : Entry → Bool) (batches : List Entry)
    → IsInOrder (queued_batches batches)
      × All (λ e. has_queued e ≡ true) (queued_batches batches)
      × (count_if p (queued_batches batches) ≡ count_if (λ e. has_queued e && p e) batches)
unfolding queued_batches
queued_batches_lem p batches = (
  IsSorted-IsInOrder (sort before (keep has_queued batches))
      (sort-IsSorted before before-total before_trans (keep has_queued batches)),
  All-sort before (λ e. has_queued e ≡ true) (keep has_queued batches)
      (All-keep-true has_queued batches),
  count_if-sort before p (keep has_queued batches) ∙ count_if-keep p has_queued batches,
)

higher-total : (a b i j : ℕ) → higher_before a b i j ≡ false → higher_before b a j i ≡ true
unfolding higher_before
higher-total a b i j h = ground arith

higher_trans :
    (a b c i j k : ℕ)
    → higher_before a b i j ≡ true
    → higher_before b c j k ≡ true
    → higher_before a c i k ≡ true
unfolding higher_before
higher_trans a b c i j k h h' = ground arith

memory-total :
    (a b : Option ℕ) (i j : ℕ) → memory_before a b i j ≡ false → memory_before b a j i ≡ true
unfolding memory_before
memory-total none none i j h = ground arith
memory-total none (some b) i j h = refl
memory-total (some a) none i j h = cc
memory-total (some a) (some b) i j h = ground arith

memory_trans :
    (a b c : Option ℕ) (i j k : ℕ)
    → memory_before a b i j ≡ true
    → memory_before b c j k ≡ true
    → memory_before a c i k ≡ true
unfolding memory_before
memory_trans none none none i j k h h' = ground arith
memory_trans none none (some c) i j k h h' = cc
memory_trans none (some b) c i j k h h' = cc
memory_trans (some a) none none i j k h h' = refl
memory_trans (some a) none (some c) i j k h h' = cc
memory_trans (some a) (some b) none i j k h h' = refl
memory_trans (some a) (some b) (some c) i j k h h' = ground arith

worker-total :
    (m : Modality) (a b : Worker) → worker_before m a b ≡ false → worker_before m b a ≡ true
unfolding worker_before
worker-total render a b h = higher-total a.render_score b.render_score a.id b.id h
worker-total image a b h = higher-total (speed_score a) (speed_score b) a.id b.id h
worker-total _ a b h = memory-total a.memory b.memory a.id b.id h

worker_trans :
    (m : Modality) (a b c : Worker)
    → worker_before m a b ≡ true
    → worker_before m b c ≡ true
    → worker_before m a c ≡ true
unfolding worker_before
worker_trans render a b c h k =
    higher_trans a.render_score b.render_score c.render_score a.id b.id c.id h k
worker_trans image a b c h k =
    higher_trans (speed_score a) (speed_score b) (speed_score c) a.id b.id c.id h k
worker_trans _ a b c h k = memory_trans a.memory b.memory c.memory a.id b.id c.id h k

-- The workers offered are exactly the eligible ones, each as often, best first: ranking never
-- excludes a worker.
pub eligible_studios_lem :
    (m : Modality) (routing : Routing) (p : Worker → Bool) (workers : List Worker)
    → IsSorted (worker_before m) (eligible_studios m routing workers)
      × All (λ w. is_eligible m routing w ≡ true) (eligible_studios m routing workers)
      × (count_if p (eligible_studios m routing workers)
          ≡ count_if (λ w. is_eligible m routing w && p w) workers)
unfolding eligible_studios
eligible_studios_lem m routing p workers = (
  sort-IsSorted (worker_before m) (worker-total m) (worker_trans m)
      (keep (is_eligible m routing) workers),
  All-sort (worker_before m) (λ w. is_eligible m routing w ≡ true) _
      (All-keep-true (is_eligible m routing) workers),
  count_if-sort (worker_before m) p _ ∙ count_if-keep p (is_eligible m routing) workers,
)
