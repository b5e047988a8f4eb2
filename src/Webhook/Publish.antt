-- ===== src/Webhook/Publish.antt =====
-- pkg/webhook/publish.go: each match of an event is published once, and its log entry updated.
pub mod Routes
pub mod Ways
use relaymesh.Prelude.{
  Bool, true, false, not, ◌&&◌, ◌||◌, Option, none, some, List, [], ◌∷◌, ◌++◌, is_empty,
  if◌then◌else◌,
}
use relaymesh.Prelude.Text.{Text, text, same, trim_space, is_blank, join}
use relaymesh.Prelude.Outcome.{Errors, Outcome, ok, fail}
use relaymesh.Core.Event.{Event}
use relaymesh.Core.Relaybus.{RelaybusConfig}
use relaymesh.Core.Rules.{RuleMatch}
use relaymesh.Core.Publisher.{Publisher, Brokers, Act}
use relaymesh.Drivers.Config.{Codecs}
use relaymesh.Drivers.Dynamic.{DynamicCache, Fetched, dynamic_publisher}
use relaymesh.Storage.Records.{EventLogRecord}
use relaymesh.Webhook.Matches.{driver_list_from_match}
use relaymesh.Webhook.Transform.{Scripts, apply_rule_transform}

-- `err.Error()`
abbrev pub message_of : Errors → Text
message_of e = join e (10 ∷ [])

-- The callbacks of publishMatchesWithFallback; `none` is nil.
pub record Updaters (W : Type 0) : Type 0 where
  pub status : Option (Text → Text → Text → W → W)
  pub payload : Option (Text → Text → W → W)

-- The dynamic publishers, if there is a cache, and the world.
pub record Situation (W : Type 0) : Type 0 where
  pub dynamic : Option (DynamicCache W)
  pub world : W

-- What publishDynamicMatch returns: whether it published, and its error.
pub data Tried : Type 0 where
  published skipped : Tried
  broken : Errors → Tried

module _ (W : Type 0) (up : Updaters W) where
  -- `statusUpdater(logs[idx].ID, "failed", err.Error())`
  unfoldable pub set_failed : Option EventLogRecord → Errors → W → W
  set_failed none e w = w
  set_failed (some log) e w = elim (up.status) [
    | none ↦ w
    | some update ↦ update log.id (text "failed") (message_of e) w
  ]

  -- `payloadUpdater(logs[idx].ID, transformed.RawPayload)`
  unfoldable pub set_payload : Option EventLogRecord → Text → W → W
  set_payload none body w = w
  set_payload (some log) body w = elim (up.payload) [
    | none ↦ w
    | some update ↦ update log.id body w
  ]

unfoldable pub log_id_of : Option EventLogRecord → Text
log_id_of none = []
log_id_of (some log) = log.id

module _ (W : Type 0) (net : Brokers W) (json : Codecs) (sha256_hex : Text → Text)
    (blank : RelaybusConfig) (js : Scripts) (up : Updaters W) (fallback : Publisher W) where
  send_dynamic : RuleMatch → Event → Fetched W → Tried × Situation W
  send_dynamic match event f = elim (f.result) [
    | fail e ↦ (broken e, record { dynamic = some f.cache; world = f.world })
    | ok p ↦
        let sent = p.publish match.topic event f.world in
        (
          if is_empty sent.0 then published else broken sent.0,
          record { dynamic = some f.cache; world = sent.1 },
        )
  ]

  try_dynamic : Option (DynamicCache W) → RuleMatch → Event → W → Tried × Situation W
  try_dynamic none match event w = (skipped, record { dynamic = none; world = w })
  try_dynamic (some d) match event w =
      let driver_name = trim_space match.driver_name in
      if same driver_name [] || is_blank match.driver_config_json
      then (skipped, record { dynamic = some d; world = w })
      else if not match.driver_enabled
      then (skipped, record { dynamic = some d; world = w })
      else send_dynamic match event
          (dynamic_publisher W net json sha256_hex blank driver_name match.driver_config_json d w)

  -- publishDynamicMatch
  unfoldable pub publish_dynamic_match : RuleMatch → Event → Situation W → Tried × Situation W
  unfolding send_dynamic try_dynamic
  publish_dynamic_match match event s = try_dynamic s.dynamic match event s.world

  -- The part behind publishDynamicMatch: the fallback publisher, where a driver is named.
  fall_back : RuleMatch → Option EventLogRecord → Event → W → W
  fall_back match log event w =
      let drivers = driver_list_from_match match in
      let sent = fallback.publish_for_drivers match.topic event drivers w in
      if is_empty drivers
      then w
      else if is_empty sent.0
      then sent.1
      else set_failed W up log sent.0 sent.1

  after_dynamic : RuleMatch → Option EventLogRecord → Event → Tried × Situation W → Situation W
  after_dynamic match log event (published, s) = s
  after_dynamic match log event (broken e, s) = record s { world = set_failed W up log e s.world }
  after_dynamic match log event (skipped, s) = record s {
    world = fall_back match log event s.world;
  }

  after_transform : RuleMatch → Option EventLogRecord → Outcome Event → Situation W → Situation W
  after_transform match log (fail e) s = record s { world = set_failed W up log e s.world }
  after_transform match log (ok event) s = after_dynamic match log event (
      publish_dynamic_match match event
        (record s { world = set_payload W up log event.raw_payload s.world }))

  -- The body of the loop of publishMatchesWithFallback, with the log entry at the match's index.
  unfoldable pub publish_match :
      Event → RuleMatch → Option EventLogRecord → Situation W → Situation W
  unfolding log_id_of fall_back after_dynamic after_transform
  publish_match event match log s =
      after_transform match log
        (apply_rule_transform js (record event { log_id = log_id_of log }) match.transform_js) s

  -- publishMatchesWithFallback
  unfoldable pub publish_matches :
      Event → List RuleMatch → List EventLogRecord → Situation W → Situation W
  publish_matches event [] logs s = s
  publish_matches event (match ∷ matches) [] s =
      publish_matches event matches [] (publish_match event match none s)
  publish_matches event (match ∷ matches) (log ∷ logs) s =
      publish_matches event matches logs (publish_match event match (some log) s)
