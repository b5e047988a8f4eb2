-- ===== src/Core/Publisher/Mux.antt =====
-- publisherMux of pkg/core/publisher.go, and the function that makes one.
pub mod Delivery
pub mod Made
use relaymesh.Prelude.{
  Bool, true, false, not, ◌&&◌, Option, none, some, List, [], ◌∷◌, ◌++◌, is_empty, if◌then◌else◌,
}
use relaymesh.Prelude.Text.{Text, text, same, trim_space, to_lower}
use relaymesh.Prelude.Table.{Table, lookup, insert}
use relaymesh.Prelude.Outcome.{Errors, Outcome, ok, fail}
use relaymesh.Core.Event.{Event}
use relaymesh.Core.Relaybus.{RelaybusConfig}
use relaymesh.Core.Publisher.{Publisher, Brokers, Act}
use relaymesh.Core.Publisher.Retry.{retry_publisher_build}
use relaymesh.Core.Publisher.Build.{driver_retry_config, new_single_publisher, configured_drivers}

-- publisherMux
pub record PublisherMux (W : Type 0) : Type 0 where
  pub publishers : Table (Publisher W)
  pub default_drivers : List Text
  pub dlq_driver : Text

abbrev pub unknown_driver : Text → Text
unknown_driver driver = text "unknown driver " ++ driver

module _ (W : Type 0) (net : Brokers W) (m : PublisherMux W) where
  open net use {wide_lower}

  -- What goes to the dead letter driver when a publish to `normalized` failed; its own error is
  -- dropped.
  dead_letter : Text → Text → Event → W → W
  dead_letter normalized topic event w =
      if not (same m.dlq_driver []) && not (same m.dlq_driver normalized)
      then elim (lookup m.dlq_driver m.publishers) [
        | none ↦ w
        | some dlq ↦ (dlq.publish topic event w).1
      ]
      else w

  deliver_to : Option (Publisher W) → Text → Text → Event → Act W
  deliver_to none driver topic event w = (unknown_driver driver ∷ [], w)
  deliver_to (some p) driver topic event w =
      let sent = p.publish topic event w in
      if is_empty sent.0
      then sent
      else (sent.0, dead_letter (to_lower wide_lower driver) topic event sent.1)

  -- The body of the loop of publisherMux.PublishForDrivers: the errors that it adds.
  unfoldable pub publish_target : Text → Text → Event → Act W
  unfolding deliver_to dead_letter
  publish_target driver topic event w =
      deliver_to (lookup (to_lower wide_lower driver) m.publishers) driver topic event w

  unfoldable pub publish_targets : List Text → Text → Event → Errors → Act W
  publish_targets [] topic event err w = (err, w)
  publish_targets (driver ∷ drivers) topic event err w =
      let sent = publish_target driver topic event w in
      publish_targets drivers topic event (err ++ sent.0) sent.1

  -- `targets`: the drivers that are asked for, or else the default ones.
  abbrev pub targets_of : List Text → List Text
  targets_of drivers = if is_empty drivers then m.default_drivers else drivers

  -- publisherMux.PublishForDrivers
  unfoldable pub mux_publish_for_drivers : Text → Event → List Text → Act W
  mux_publish_for_drivers topic event drivers w =
      publish_targets (targets_of drivers) topic event [] w

  close_all : Table (Publisher W) → Errors → Act W
  close_all [] err w = (err, w)
  close_all ((key, p) ∷ rest) err w =
      let closed = p.close w in close_all rest (err ++ closed.0) closed.1

  -- publisherMux.Close
  unfoldable pub mux_close : Act W
  unfolding close_all
  mux_close w = close_all m.publishers [] w

  -- publisherMux as a Publisher; Publish asks for no driver.
  unfoldable pub mux_publisher : Publisher W
  unfolding mux_publish_for_drivers mux_close
  mux_publisher = record {
    publish = λ topic event. mux_publish_for_drivers topic event [];
    publish_for_drivers = mux_publish_for_drivers;
    close = mux_close;
  }

module _ (W : Type 0) (net : Brokers W) where
  open net use {wide_lower}

  -- One driver of NewPublisherWithContext: with retries, and a failure leaves it out.
  abbrev build_driver : RelaybusConfig → Text → W → Outcome (Publisher W) × W
  build_driver cfg driver =
      retry_publisher_build W net.wait
        (new_single_publisher W net cfg driver (driver_retry_config W net cfg driver))

  -- The loop of NewPublisherWithContext.
  unfoldable pub build_drivers :
      RelaybusConfig → List Text → PublisherMux W → W → PublisherMux W × W
  build_drivers cfg [] m w = (m, w)
  build_drivers cfg (driver ∷ drivers) m w =
      let built = build_driver cfg driver w in
      let key = to_lower wide_lower driver in
      build_drivers cfg drivers
        (elim (built.0) [
          | fail e ↦ m
          | ok p ↦ record m {
            publishers = insert key p m.publishers;
            default_drivers = m.default_drivers ++ (key ∷ []);
          }
        ])
        built.1

  none_available : PublisherMux W × W → Outcome (PublisherMux W) × W
  none_available (m, w) =
      if is_empty m.publishers then (fail (text "no publishers available" ∷ []), w) else (ok m, w)

  -- NewPublisherWithContext
  unfoldable pub new_publisher : RelaybusConfig → W → Outcome (PublisherMux W) × W
  unfolding none_available configured_drivers
  new_publisher cfg w = none_available (
      build_drivers cfg (configured_drivers cfg)
        (record {
          publishers = [];
          default_drivers = [];
          dlq_driver = to_lower wide_lower (trim_space cfg.dlq_driver);
        })
        w)
