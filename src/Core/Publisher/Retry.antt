-- ===== src/Core/Publisher/Retry.antt =====
-- The retries of pkg/core/publisher.go: of building a publisher, and of publishing.
pub mod Attempts
use relaymesh.Prelude.{
  ℕ, zero, suc, Bool, true, false, not, ◌&&◌, ◌||◌, Option, none, some, List, [], ◌∷◌, ◌++◌,
  is_empty, ◌==◌, if◌then◌else◌,
}
use relaymesh.Prelude.Int.{ℤ, pos, is_positive, is_negative, rounds, times64}
use relaymesh.Prelude.Text.{Text}
use relaymesh.Prelude.Outcome.{Errors, Outcome, ok, fail}
use relaymesh.Core.Event.{Event}
use relaymesh.Core.Relaybus.{PublishRetryConfig}
use relaymesh.Core.Publisher.{RetryPolicy, Publisher, Act}

-- `time.Duration(ms) * time.Millisecond`
unfoldable pub milliseconds : ℤ → ℤ
milliseconds ms = times64 ms 1_000_000

-- relaybusRetryPolicy
unfoldable pub relaybus_retry_policy : PublishRetryConfig → RetryPolicy
unfolding milliseconds
relaybus_retry_policy cfg =
    let attempts = if is_positive cfg.attempts then cfg.attempts else pos 1 in
    let delay = milliseconds cfg.delay_ms in
    let base = if is_negative delay then pos 0 else delay in
    record { max_attempts = attempts; base_delay = base; max_delay = base }

-- `attempts` of retryingPublisher.Publish: one at least.
abbrev pub attempts_of : ℤ → ℕ
attempts_of attempts = if is_positive attempts then rounds attempts else 1

module _ (W : Type 0) (wait : ℤ → Act W) where
  -- `delay` of retryPublisherBuild, in nanoseconds
  abbrev build_delay : ℤ
  build_delay = pos 2_000_000_000

  -- The loop of retryPublisherBuild with the rounds left. It waits behind the last round too.
  unfoldable pub build_loop :
      ℕ → (W → Outcome (Publisher W) × W) → Errors → W → Outcome (Publisher W) × W
  build_loop zero build last_err w = (fail last_err, w)
  build_loop (suc n) build last_err w =
      let built = build w in
      let waited = wait build_delay built.1 in
      elim (built.0) [
        | ok p ↦ (ok p, built.1)
        | fail e ↦ elim (is_empty waited.0) [
          | true ↦ build_loop n build e waited.1
          | false ↦ (fail (e ++ waited.0), waited.1)
        ]
      ]

  -- retryPublisherBuild: ten rounds.
  unfoldable pub retry_publisher_build :
      (W → Outcome (Publisher W) × W) → W → Outcome (Publisher W) × W
  retry_publisher_build build w = build_loop 10 build [] w

  -- The loop of retryingPublisher.Publish with the rounds left, over one attempt on the base.
  unfoldable pub publish_loop : ℕ → ℤ → Act W → Errors → Act W
  publish_loop zero delay attempt last_err w = (last_err, w)
  publish_loop (suc n) delay attempt last_err w =
      let tried = attempt w in
      let waited = wait delay tried.1 in
      elim (is_empty tried.0) [
        | true ↦ ([], tried.1)
        | false ↦ elim ((n == 0) || not (is_positive delay)) [
          | true ↦ publish_loop n delay attempt tried.0 tried.1
          | false ↦ elim (is_empty waited.0) [
            | true ↦ publish_loop n delay attempt tried.0 waited.1
            | false ↦ (tried.0 ++ waited.0, waited.1)
          ]
        ]
      ]

  -- retryingPublisher.Publish
  unfoldable pub retrying_publish : Publisher W → ℤ → ℤ → Text → Event → Act W
  retrying_publish base attempts delay topic event w =
      publish_loop (attempts_of attempts) delay (base.publish topic event) [] w

  -- retryingPublisher as a Publisher; its base is never nil.
  unfoldable pub retrying_publisher : Publisher W → ℤ → ℤ → Publisher W
  unfolding retrying_publish
  retrying_publisher base attempts delay = record {
    publish = retrying_publish base attempts delay;
    publish_for_drivers = λ topic event drivers. retrying_publish base attempts delay topic event;
    close = base.close;
  }
