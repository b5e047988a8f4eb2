-- ===== src/Webhook/Publish/Ways.antt =====
-- The body of the loop of publishMatchesWithFallback in pkg/webhook/publish.go: the ways that a match
-- goes.
use relaymesh.Prelude.{
  ◌≡◌, refl, sym, subst, ◌⊎◌, inl, inr, true, false, Option, none, some, [], ◌∷◌, is_empty,
  if◌then◌else◌, Bool-cases, arith,
}
use relaymesh.Prelude.Text.{Text, text, join, trim_space}
use relaymesh.Prelude.Outcome.{Errors, Outcome, ok, fail}
use relaymesh.Core.Event.{Event}
use relaymesh.Core.Relaybus.{RelaybusConfig}
use relaymesh.Core.Rules.{RuleMatch}
use relaymesh.Core.Publisher.{Publisher, Brokers}
use relaymesh.Drivers.Config.{Codecs}
use relaymesh.Drivers.Dynamic.{DynamicCache, Fetched, dynamic_publisher}
use relaymesh.Storage.Records.{EventLogRecord}
use relaymesh.Webhook.Matches.{driver_list_from_match}
use relaymesh.Webhook.Transform.{Scripts, apply_rule_transform}
use relaymesh.Webhook.Publish.{
  Updaters, Situation, Tried, skipped, set_failed, set_payload, log_id_of, publish_dynamic_match,
  send_dynamic, try_dynamic, fall_back, after_dynamic, after_transform, publish_match,
}
use relaymesh.Webhook.Publish.Routes.{has_cache, has_own_driver}

module _ (W : Type 0) (net : Brokers W) (json : Codecs) (sha256_hex : Text → Text)
    (blank : RelaybusConfig) (js : Scripts) (fallback : Publisher W)
    (status : Text → Text → Text → W → W) (payload : Text → Text → W → W) where
  abbrev pub updaters : Updaters W
  updaters = record { status = some status; payload = some payload }

  -- The world behind a publisher: the log entry is marked as failed if it returned an error.
  abbrev pub settled : Text → Errors × W → W
  settled id sent =
      if is_empty sent.0 then sent.1 else status id (text "failed") (join sent.0 (10 ∷ [])) sent.1

  module _ (event : Event) (match : RuleMatch) (log : EventLogRecord) (s : Situation W) where
    -- What the rule's script makes of the event.
    abbrev pub transformed : Outcome Event
    transformed = apply_rule_transform js (record event { log_id = log.id }) match.transform_js

    -- The world in which an event is published: its payload is in the log.
    abbrev pub stored : Event → W
    stored t = payload log.id t.raw_payload s.world

    -- The publisher of the match's own configuration.
    abbrev pub own_publisher : DynamicCache W → Event → Fetched W
    own_publisher d t =
        dynamic_publisher W net json sha256_hex blank (trim_space match.driver_name)
          match.driver_config_json d (stored t)

    pub data Way (r : Situation W) : Type 0 where
      untransformed :
          (e : Errors)
          → transformed ≡ fail e
          → r ≡ record {
            dynamic = s.dynamic;
            world = status log.id (text "failed") (join e (10 ∷ [])) s.world;
          }
          → Way r
      undriven :
          (t : Event)
          → transformed ≡ ok t
          → (has_cache W s.dynamic ≡ false) ⊎ (has_own_driver match ≡ false)
          → is_empty (driver_list_from_match match) ≡ true
          → r ≡ record { dynamic = s.dynamic; world = stored t }
          → Way r
      fell_back :
          (t : Event)
          → transformed ≡ ok t
          → (has_cache W s.dynamic ≡ false) ⊎ (has_own_driver match ≡ false)
          → is_empty (driver_list_from_match match) ≡ false
          → r ≡ record {
            dynamic = s.dynamic;
            world = settled log.id (
                fallback.publish_for_drivers match.topic t
                  (driver_list_from_match match)
                  (stored t));
          }
          → Way r
      unmade :
          (t : Event) (d : DynamicCache W) (e : Errors)
          → transformed ≡ ok t
          → s.dynamic ≡ some d
          → has_own_driver match ≡ true
          → (own_publisher d t).result ≡ fail e
          → r ≡ record {
            dynamic = some (own_publisher d t).cache;
            world = status log.id (text "failed") (join e (10 ∷ [])) (own_publisher d t).world;
          }
          → Way r
      sent_by_own :
          (t : Event) (d : DynamicCache W) (p : Publisher W)
          → transformed ≡ ok t
          → s.dynamic ≡ some d
          → has_own_driver match ≡ true
          → (own_publisher d t).result ≡ ok p
          → r ≡ record {
            dynamic = some (own_publisher d t).cache;
            world = settled log.id (p.publish match.topic t (own_publisher d t).world);
          }
          → Way r

    Way-fall_back :
        (t : Event) (d : Option (DynamicCache W))
        → transformed ≡ ok t
        → s.dynamic ≡ d
        → (has_cache W d ≡ false) ⊎ (has_own_driver match ≡ false)
        → Way (record {
          dynamic = d;
          world =
              fall_back W net json sha256_hex blank js updaters fallback match
                (some log)
                t
                (stored t);
        })
    unfolding fall_back set_failed
    Way-fall_back t d ht hd none_own = elim (Bool-cases (is_empty (driver_list_from_match match))) [
      | inl y ↦ undriven t ht (rw hd none_own) y (rw (y, hd, fall_back) refl)
      | inr n ↦ fell_back t ht (rw hd none_own) n (rw (n, hd, fall_back) refl)
    ]

    outcome_cases :
        (o : Outcome (Publisher W))
        → ((e : Errors) × (o ≡ fail e)) ⊎ ((p : Publisher W) × (o ≡ ok p))
    outcome_cases (fail e) = inl (e, refl)
    outcome_cases (ok p) = inr (p, refl)

    Way-send_dynamic :
        (t : Event) (d : DynamicCache W)
        → transformed ≡ ok t
        → s.dynamic ≡ some d
        → has_own_driver match ≡ true
        → Way (
            after_dynamic W net json sha256_hex blank js updaters fallback match (some log) t (
              send_dynamic W net json sha256_hex blank js updaters fallback match t
                (own_publisher d t)))
    unfolding send_dynamic after_dynamic set_failed
    Way-send_dynamic t d ht hd own = elim (outcome_cases (own_publisher d t).result) [
      | inl x ↦ unmade t d x.0 ht hd own x.1 (rw (x.1, send_dynamic, after_dynamic) refl)
      | inr x ↦
          let sent = x.0.publish match.topic t (own_publisher d t).world in
          elim (Bool-cases (is_empty sent.0)) [
            | inl y ↦
                sent_by_own t d x.0 ht hd own x.1 (rw (x.1, send_dynamic, y, after_dynamic) refl)
            | inr n ↦
                sent_by_own t d x.0 ht hd own x.1 (rw (x.1, send_dynamic, n, after_dynamic) refl)
          ]
    ]

    try_sends :
        (t : Event) (d : DynamicCache W)
        → has_own_driver match ≡ true
        → try_dynamic W net json sha256_hex blank js updaters fallback (some d) match t (stored t)
          ≡ send_dynamic W net json sha256_hex blank js updaters fallback match t
              (own_publisher d t)
    unfolding try_dynamic
    try_sends t d own = ground (arith, own)

    try_skips :
        (t : Event) (d : DynamicCache W)
        → has_own_driver match ≡ false
        → try_dynamic W net json sha256_hex blank js updaters fallback (some d) match t (stored t)
          ≡ (skipped, record { dynamic = some d; world = stored t })
    unfolding try_dynamic
    try_skips t d none_own = ground (arith, none_own)

    Way-try_dynamic :
        (t : Event) (o : Option (DynamicCache W))
        → transformed ≡ ok t
        → s.dynamic ≡ o
        → Way (
            after_dynamic W net json sha256_hex blank js updaters fallback match
              (some log)
              t
              (try_dynamic W net json sha256_hex blank js updaters fallback o match t (stored t)))
    unfolding try_dynamic after_dynamic
    Way-try_dynamic t none ht hd = Way-fall_back t none ht hd (inl refl)
    Way-try_dynamic t (some d) ht hd =
        let way = λ (x : Tried × Situation W).
          Way
            (after_dynamic W net json sha256_hex blank js updaters fallback match (some log) t x) in
        elim (Bool-cases (has_own_driver match)) [
          | inl own ↦ subst way (sym (try_sends t d own)) (Way-send_dynamic t d ht hd own)
          | inr n ↦ subst way (sym (try_skips t d n)) (Way-fall_back t (some d) ht hd (inr n))
        ]

    Way-after_transform :
        (o : Outcome Event)
        → transformed ≡ o
        → Way
            (after_transform W net json sha256_hex blank js updaters fallback match (some log) o s)
    unfolding after_transform publish_dynamic_match set_failed set_payload
    Way-after_transform (fail e) h = untransformed e h refl
    Way-after_transform (ok t) h = Way-try_dynamic t s.dynamic h refl

  -- Every match with an entry in the log goes exactly one way. If its script fails, nothing is published
  -- and its entry is marked as failed. Else the payload that the script made is written to the entry
  -- first. A match that names a driver, has its configuration and an enabled driver, where there is a
  -- cache of publishers, is published once by the publisher of its own configuration, or its entry is
  -- marked as failed if there is no such publisher. Any other match is published once by the fallback
  -- publisher, to the match's drivers, or not at all if it has none. The entry of a published match is
  -- marked as failed, with the text of the error, exactly if the publisher returned an error.
  pub publish_match-Way :
      (event : Event) (match : RuleMatch) (log : EventLogRecord) (s : Situation W)
      → Way event match log s
          (publish_match W net json sha256_hex blank js updaters fallback event match (some log) s)
  unfolding publish_match log_id_of
  publish_match-Way event match log s =
      Way-after_transform event match log s (transformed event match log s) refl
