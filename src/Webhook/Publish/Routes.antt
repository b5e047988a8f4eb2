-- ===== src/Webhook/Publish/Routes.antt =====
-- The publishers that pkg/webhook/publish.go uses for a match.
use relaymesh.Prelude.{
  ◌≡◌, ◌≢◌, refl, ap, ◌∙◌, Bool, true, false, not, ◌&&◌, Option, none, some, List, [], ◌∷◌, arith,
  All,
}
use relaymesh.Prelude.Text.{Text, same, is_blank, trim_space}
use relaymesh.Prelude.Outcome.{Outcome, ok, fail}
use relaymesh.Core.Event.{Event}
use relaymesh.Core.Relaybus.{RelaybusConfig}
use relaymesh.Core.Rules.{RuleMatch}
use relaymesh.Core.Publisher.{Publisher, Brokers}
use relaymesh.Drivers.Config.{Codecs}
use relaymesh.Drivers.Dynamic.{DynamicCache}
use relaymesh.Storage.Records.{EventLogRecord}
use relaymesh.Webhook.Transform.{Scripts}
use relaymesh.Webhook.Publish.{
  Updaters, Situation, Tried, published, skipped, broken, publish_dynamic_match, after_dynamic,
  after_transform, publish_match, publish_matches, try_dynamic, send_dynamic,
}

-- There is a cache of dynamic publishers.
abbrev pub has_cache : (W : Type 0) → Option (DynamicCache W) → Bool
has_cache W none = false
has_cache W (some d) = true

-- The match names a driver and has its configuration, and the driver is enabled.
abbrev pub has_own_driver : RuleMatch → Bool
has_own_driver match =
    not (same (trim_space match.driver_name) [])
    && (not (is_blank match.driver_config_json) && match.driver_enabled)

module _ (W : Type 0) (net : Brokers W) (json : Codecs) (sha256_hex : Text → Text)
    (blank : RelaybusConfig) (js : Scripts) (up : Updaters W) where
  -- What a try with the match's own publisher guarantees: it is not skipped, and a cache remains.
  abbrev Own : Tried × Situation W → Type 0
  Own t = (t.0 ≢ skipped) × (has_cache W t.1.dynamic ≡ true)

  try-Own :
      (f : Publisher W) (d : Option (DynamicCache W)) (match : RuleMatch) (event : Event) (w : W)
      → has_cache W d ≡ true
      → has_own_driver match ≡ true
      → Own (try_dynamic W net json sha256_hex blank js up f d match event w)
  unfolding try_dynamic send_dynamic
  try-Own f none match event w c h = absurd (cc c)
  try-Own f (some d) match event w c h = ground arith

  after-Own :
      (f g : Publisher W) (match : RuleMatch) (log : Option EventLogRecord) (event : Event)
      (t : Tried × Situation W)
      → Own t
      → (after_dynamic W net json sha256_hex blank js up f match log event t
          ≡ after_dynamic W net json sha256_hex blank js up g match log event t)
        × (has_cache W (after_dynamic W net json sha256_hex blank js up f match log event t).dynamic
            ≡ true)
  unfolding after_dynamic
  after-Own f g match log event (published, s) own = (refl, own.1)
  after-Own f g match log event (broken e, s) own = (refl, own.1)
  after-Own f g match log event (skipped, s) own = absurd (own.0 refl)

  transformed_own :
      (f g : Publisher W) (match : RuleMatch) (log : Option EventLogRecord) (event : Outcome Event)
      (s : Situation W)
      → has_cache W s.dynamic ≡ true
      → has_own_driver match ≡ true
      → (after_transform W net json sha256_hex blank js up f match log event s
          ≡ after_transform W net json sha256_hex blank js up g match log event s)
        × (has_cache W
              (after_transform W net json sha256_hex blank js up f match log event s).dynamic
            ≡ true)
  unfolding after_transform publish_dynamic_match
  transformed_own f g match log (fail e) s c h = (refl, c)
  transformed_own f g match log (ok event) s c h =
      after-Own f g match log event _ (try-Own f s.dynamic match event _ c h)

  match_own :
      (f g : Publisher W) (event : Event) (match : RuleMatch) (log : Option EventLogRecord)
      (s : Situation W)
      → has_cache W s.dynamic ≡ true
      → has_own_driver match ≡ true
      → (publish_match W net json sha256_hex blank js up f event match log s
          ≡ publish_match W net json sha256_hex blank js up g event match log s)
        × (has_cache W (publish_match W net json sha256_hex blank js up f event match log s).dynamic
            ≡ true)
  unfolding publish_match
  match_own f g event match log s c h = transformed_own f g match log _ s c h

  matches_own :
      (f g : Publisher W) (event : Event) (matches : List RuleMatch) (logs : List EventLogRecord)
      (s : Situation W)
      → has_cache W s.dynamic ≡ true
      → All (λ m. has_own_driver m ≡ true) matches
      → publish_matches W net json sha256_hex blank js up f event matches logs s
        ≡ publish_matches W net json sha256_hex blank js up g event matches logs s
  unfolding publish_matches
  matches_own f g event [] logs s c h = refl
  matches_own f g event (match ∷ matches) [] s c (own, h) =
      let (same_step, cached) = match_own f g event match none s c own in
      matches_own f g event matches [] _ cached h
      ∙ ap (publish_matches W net json sha256_hex blank js up g event matches []) same_step
  matches_own f g event (match ∷ matches) (log ∷ logs) s c (own, h) =
      let (same_step, cached) = match_own f g event match (some log) s c own in
      matches_own f g event matches logs _ cached h
      ∙ ap (publish_matches W net json sha256_hex blank js up g event matches logs) same_step

-- Where there is a cache of dynamic publishers, matches that name an enabled driver and have its
-- configuration never reach the fallback publisher, not even when their own publisher fails: what
-- publishing them does is the same with any two fallback publishers.
pub publish_matches_own :
    (W : Type 0) (net : Brokers W) (json : Codecs) (sha256_hex : Text → Text)
    (blank : RelaybusConfig) (js : Scripts) (up : Updaters W) (f g : Publisher W) (event : Event)
    (matches : List RuleMatch) (logs : List EventLogRecord) (s : Situation W)
    → has_cache W s.dynamic ≡ true
    → All (λ m. has_own_driver m ≡ true) matches
    → publish_matches W net json sha256_hex blank js up f event matches logs s
      ≡ publish_matches W net json sha256_hex blank js up g event matches logs s
publish_matches_own = matches_own
