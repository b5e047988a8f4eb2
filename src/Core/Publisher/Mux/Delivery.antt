-- ===== src/Core/Publisher/Mux/Delivery.antt =====
-- PublishForDrivers of publisherMux, pkg/core/publisher.go.
use relaymesh.Prelude.{
  ◌≡◌, refl, sym, ◌∙◌, subst, true, false≢true, Option, none, some, List, [], ◌∷◌, ◌++◌, is_empty,
  is_empty-append, and-eq-true, Bool-cases, inl, inr,
}
use relaymesh.Prelude.Text.{Text, to_lower}
use relaymesh.Prelude.Table.{lookup}
use relaymesh.Prelude.Outcome.{Errors}
use relaymesh.Core.Event.{Event}
use relaymesh.Core.Publisher.{Publisher, Brokers}
use relaymesh.Core.Publisher.Mux.{
  PublisherMux, publish_target, publish_targets, targets_of, deliver_to, mux_publish_for_drivers,
}

module _ (W : Type 0) (net : Brokers W) (m : PublisherMux W) (topic : Text) (event : Event) where
  abbrev pub publisher_of : Text → Option (Publisher W)
  publisher_of driver = lookup (to_lower net.wide_lower driver) m.publishers

  -- Each driver in turn is known, and its publisher takes the event; the last world is `v`.
  abbrev pub Delivers : List Text → W → W → Type 0
  Delivers [] w v = w ≡ v
  Delivers (driver ∷ drivers) w v =
      (p : Publisher W) × (publisher_of driver ≡ some p)
      × (is_empty (p.publish topic event w).0 ≡ true)
      × Delivers drivers (p.publish topic event w).1 v

  errors_kept :
      (drivers : List Text) (err : Errors) (w : W)
      → is_empty (publish_targets W net m drivers topic event err w).0 ≡ true
      → is_empty err ≡ true
  unfolding publish_targets
  errors_kept [] err w h = h
  errors_kept (driver ∷ drivers) err w h =
      (and-eq-true _ _ (sym (is_empty-append err _) ∙ errors_kept drivers (err ++ _) _ h)).0

  target_delivered :
      (driver : Text) (w : W)
      → is_empty (publish_target W net m driver topic event w).0 ≡ true
      → (p : Publisher W) × (publisher_of driver ≡ some p)
        × (is_empty (p.publish topic event w).0 ≡ true)
        × ((publish_target W net m driver topic event w).1 ≡ (p.publish topic event w).1)
  unfolding publish_target
  target_delivered driver w h = go (publisher_of driver) h
    where
      go :
          (o : Option (Publisher W))
          → is_empty (deliver_to W net m o driver topic event w).0 ≡ true
          → (p : Publisher W) × (o ≡ some p)
            × (is_empty (p.publish topic event w).0 ≡ true)
            × ((deliver_to W net m o driver topic event w).1 ≡ (p.publish topic event w).1)
      go none k = absurd (false≢true k)
      go (some p) k = elim (Bool-cases (is_empty (p.publish topic event w).0)) [
        | inl y ↦ (p, refl, y, rw y)
        | inr n ↦ absurd (false≢true (sym n ∙ (rw n at k)))
      ]

  delivered_target :
      (driver : Text) (w : W) (p : Publisher W)
      → publisher_of driver ≡ some p
      → is_empty (p.publish topic event w).0 ≡ true
      → (is_empty (publish_target W net m driver topic event w).0 ≡ true)
        × ((publish_target W net m driver topic event w).1 ≡ (p.publish topic event w).1)
  unfolding publish_target
  delivered_target driver w p e h = rw e (rw h (h, refl))

  targets_Delivers :
      (drivers : List Text) (err : Errors) (w : W)
      → is_empty (publish_targets W net m drivers topic event err w).0 ≡ true
      → Delivers drivers w (publish_targets W net m drivers topic event err w).1
  unfolding publish_targets
  targets_Delivers [] err w h = refl
  targets_Delivers (driver ∷ drivers) err w h =
      let sent = publish_target W net m driver topic event w in
      let quiet : is_empty sent.0 ≡ true =
        (and-eq-true (is_empty err) _
          (sym (is_empty-append err sent.0) ∙ errors_kept drivers (err ++ sent.0) sent.1 h)).1 in
      let (p, known, took, after) = target_delivered driver w quiet in
      (
        p,
        known,
        took,
        subst
            (λ (x : W).
              Delivers drivers x
                (publish_targets W net m drivers topic event (err ++ sent.0) sent.1).1)
            after (targets_Delivers drivers (err ++ sent.0) sent.1 h),
      )

  Delivers-targets :
      (drivers : List Text) (err : Errors) (w v : W)
      → is_empty err ≡ true
      → Delivers drivers w v
      → (is_empty (publish_targets W net m drivers topic event err w).0 ≡ true)
        × ((publish_targets W net m drivers topic event err w).1 ≡ v)
  unfolding publish_targets
  Delivers-targets [] err w v he h = (he, h)
  Delivers-targets (driver ∷ drivers) err w v he (p, known, took, rest) =
      let sent = publish_target W net m driver topic event w in
      let (quiet, after) = delivered_target driver w p known took in
      Delivers-targets drivers (err ++ sent.0) sent.1 v
        (is_empty-append err sent.0 ∙ rw (he, quiet))
        (subst (λ (x : W). Delivers drivers x v) (sym after) rest)

-- PublishForDrivers returns no error exactly if every target, each in turn, is known and its
-- publisher takes the event; the targets are the drivers that are asked for, or the default ones
-- where none is. The world is then the one behind the last of these calls, so no other publisher,
-- the dead letter driver included, was called.
pub mux_publish-Delivers :
    (W : Type 0) (net : Brokers W) (m : PublisherMux W) (topic : Text) (event : Event)
    (drivers : List Text) (w : W)
    → (is_empty (mux_publish_for_drivers W net m topic event drivers w).0 ≡ true
        → Delivers W net m topic event
            (targets_of W net m drivers)
            w
            (mux_publish_for_drivers W net m topic event drivers w).1)
      × ((v : W)
          → Delivers W net m topic event (targets_of W net m drivers) w v
          → (is_empty (mux_publish_for_drivers W net m topic event drivers w).0 ≡ true)
            × ((mux_publish_for_drivers W net m topic event drivers w).1 ≡ v))
unfolding mux_publish_for_drivers
mux_publish-Delivers W net m topic event drivers w = (
  targets_Delivers W net m topic event (targets_of W net m drivers) [] w,
  λ v. Delivers-targets W net m topic event (targets_of W net m drivers) [] w v refl,
)
