-- ===== src/Core/Publisher/Build/Validate.antt =====
-- validatePublisherDriver beside newSinglePublisher, pkg/core/publisher.go.
use relaymesh.Prelude.{◌≡◌, ◌≢◌, none, [], arith}
use relaymesh.Prelude.Text.{Text, same_ne, trim_space, to_lower}
use relaymesh.Prelude.Table.{lookup}
use relaymesh.Prelude.Outcome.{Errors, ok, fail}
use relaymesh.Core.Relaybus.{RelaybusConfig, PublishRetryConfig}
use relaymesh.Core.Publisher.{Brokers}
use relaymesh.Core.Publisher.Build.{
  Kind, kafka_driver, nats_driver, custom, kind_of, unsupported, build_kind, from_factory,
  new_single_publisher, validate_kind, validate_publisher_driver,
}

module _ (W : Type 0) (net : Brokers W) where
  kind_refused :
      (k : Kind) (cfg : RelaybusConfig) (driver : Text) (retry : PublishRetryConfig) (w : W)
      (e : Errors)
      → validate_kind W net k cfg driver ≡ fail e
      → build_kind W net k cfg driver retry w ≡ (fail e, w)
  unfolding validate_kind build_kind from_factory
  kind_refused kafka_driver cfg driver retry w e h = ground arith
  kind_refused _ cfg driver retry w e h = ground arith

  -- A driver whose name has no spaces around it, and which validation refuses, is not built either:
  -- construction returns the error of validation, and reaches no broker.
  pub validate_publisher_driver_refuses :
      (cfg : RelaybusConfig) (driver : Text) (retry : PublishRetryConfig) (w : W) (e : Errors)
      → trim_space driver ≡ driver
      → validate_publisher_driver W net cfg driver ≡ fail e
      → new_single_publisher W net cfg driver retry w ≡ (fail e, w)
  unfolding validate_publisher_driver new_single_publisher
  validate_publisher_driver_refuses cfg driver retry w e plain h =
      kind_refused (kind_of (to_lower net.wide_lower driver)) cfg driver retry w e (rw plain at h)

  refused :
      (cfg : RelaybusConfig) (driver : Text) (retry : PublishRetryConfig) (w : W)
      → lookup (to_lower net.wide_lower driver) net.factories ≡ none
      → build_kind W net custom cfg driver retry w ≡ (fail (unsupported driver), w)
  unfolding build_kind
  refused cfg driver retry w no_factory = ground arith

  -- A name that becomes the one of a driver only by cutting the spaces around it passes validation
  -- where that driver is configured, and is refused by construction, which does not cut them,
  -- unless a factory has the uncut name.
  pub validate_publisher_driver_spaces :
      (cfg : RelaybusConfig) (driver : Text) (retry : PublishRetryConfig) (w : W)
      → kind_of (to_lower net.wide_lower driver) ≡ custom
      → kind_of (to_lower net.wide_lower (trim_space driver)) ≡ nats_driver
      → lookup (to_lower net.wide_lower driver) net.factories ≡ none
      → cfg.nats.url ≢ []
      → (validate_publisher_driver W net cfg driver ≡ ok tt)
        × (new_single_publisher W net cfg driver retry w ≡ (fail (unsupported driver), w))
  unfolding validate_publisher_driver new_single_publisher from_factory
  validate_publisher_driver_spaces cfg driver retry w uncut cut no_factory url =
      (rw cut (rw (same_ne cfg.nats.url [] url)), rw uncut (refused cfg driver retry w no_factory))
