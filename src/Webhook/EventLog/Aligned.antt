-- ===== src/Webhook/EventLog/Aligned.antt =====
-- The log entries of pkg/webhook/event_logging.go beside the matches.
use relaymesh.Prelude.{◌≡◌, refl, some, List, [], ◌∷◌, ◌++◌, map, is_empty, if◌then◌else◌}
use relaymesh.Prelude.Text.{Text, text}
use relaymesh.Core.Event.{Event}
use relaymesh.Core.Rules.{RuleMatch, MatchedRule}
use relaymesh.Storage.Records.{EventLogRecord}
use relaymesh.Webhook.Matches.{
  rule_topic, rule_matches_from_rules, topics_from_matches, driver_list_from_match,
}
use relaymesh.Webhook.EventLog.{
  CreateEventLogs, topic_entry, log_topics, log_rules, build_event_log_records, log_event_matches,
  topics_from_log_records,
}

-- An entry records a match: its topic, rule, expression and drivers, queued with the event's body.
pub record Records (event : Event) (match : RuleMatch) (log : EventLogRecord) : Type 0 where
  pub topic : log.topic ≡ match.topic
  pub rule_id : log.rule_id ≡ match.rule_id
  pub rule_when : log.rule_when ≡ match.rule_when
  pub drivers : log.drivers ≡ driver_list_from_match match
  pub body : log.body ≡ event.raw_payload
  pub status : log.status ≡ text "queued"

-- As many entries as matches, each of which records the match at its index.
abbrev pub Aligned : Event → List RuleMatch → List EventLogRecord → Type 0
Aligned event [] [] = Unit
Aligned event (match ∷ matches) (log ∷ logs) = Records event match log × Aligned event matches logs
Aligned event _ _ = ⊥

Aligned-append :
    (event : Event) (ms ns : List RuleMatch) (ls ks : List EventLogRecord)
    → Aligned event ms ls
    → Aligned event ns ks
    → Aligned event (ms ++ ns) (ls ++ ks)
Aligned-append event [] ns [] ks h k = k
Aligned-append event (m ∷ ms) ns (l ∷ ls) ks h k = (h.0, Aligned-append event ms ns ls ks h.1 k)
Aligned-append event [] ns (l ∷ ls) ks h k = absurd h
Aligned-append event (m ∷ ms) ns [] ks h k = absurd h

module _ (W : Type 0) (new_uuid : W → Text × W) (sha256_hex : Text → Text) (event : Event) where
  log_topics-Aligned :
      (rule : MatchedRule) (topics : List Text) (w : W)
      → Aligned event
          (map (rule_topic rule) topics)
          (log_topics W new_uuid sha256_hex event rule topics w).0
  unfolding log_topics topic_entry rule_topic driver_list_from_match
  log_topics-Aligned rule [] w = tt
  log_topics-Aligned rule (topic ∷ topics) w = (
    record {
      topic = refl;
      rule_id = refl;
      rule_when = refl;
      drivers = refl;
      body = refl;
      status = refl;
    },
    log_topics-Aligned rule topics (new_uuid w).1,
  )

  log_rules-Aligned :
      (rules : List MatchedRule) (w : W)
      → Aligned event
          (rule_matches_from_rules rules)
          (log_rules W new_uuid sha256_hex event rules w).0
  unfolding log_rules rule_matches_from_rules
  log_rules-Aligned [] w = tt
  log_rules-Aligned (rule ∷ rules) w =
      Aligned-append event _ _ _ _ (log_topics-Aligned rule rule.emit w) (log_rules-Aligned rules _)

  Aligned-topics :
      (ms : List RuleMatch) (ls : List EventLogRecord)
      → Aligned event ms ls
      → topics_from_log_records ls ≡ topics_from_matches ms
  unfolding topics_from_log_records topics_from_matches
  Aligned-topics [] [] h = refl
  Aligned-topics (m ∷ ms) (l ∷ ls) h = rw (h.0.topic, Aligned-topics ms ls h.1) refl
  Aligned-topics [] (l ∷ ls) h = absurd h
  Aligned-topics (m ∷ ms) [] h = absurd h

  -- Leaving out the call of the store where there is no entry changes no list.
  kept_logs :
      (rules : List MatchedRule) (ls : List EventLogRecord) (v w : W)
      → Aligned event (rule_matches_from_rules rules) ls
      → Aligned event
          (rule_matches_from_rules rules)
          (if◌then◌else◌ {A = List EventLogRecord × W} (is_empty ls) ([], v) (ls, w)).0
  kept_logs rules [] v w h = h
  kept_logs rules (l ∷ ls) v w h = h

  returned_logs :
      (create : CreateEventLogs W) (rules : List MatchedRule) (w : W)
      → Aligned event
          (rule_matches_from_rules rules)
          (log_event_matches W new_uuid sha256_hex (some create) event rules w).0
  unfolding log_event_matches build_event_log_records rule_matches_from_rules
  returned_logs create [] w = tt
  returned_logs create (rule ∷ rules) w =
      kept_logs (rule ∷ rules) (log_rules W new_uuid sha256_hex event (rule ∷ rules) w).0 _ _
        (log_rules-Aligned (rule ∷ rules) w)

-- With a store for the logs, logEventMatches returns one entry for each match of the rules, in
-- the same order: the entry at an index records the topic, the rule, the expression and the
-- drivers of the match at this index. The topics of the entries are thus those of the matches.
pub log_event_matches-Aligned :
    (W : Type 0) (new_uuid : W → Text × W) (sha256_hex : Text → Text) (event : Event)
    (create : CreateEventLogs W) (rules : List MatchedRule) (w : W)
    → Aligned event
        (rule_matches_from_rules rules)
        (log_event_matches W new_uuid sha256_hex (some create) event rules w).0
      × (topics_from_log_records
            (log_event_matches W new_uuid sha256_hex (some create) event rules w).0
          ≡ topics_from_matches (rule_matches_from_rules rules))
log_event_matches-Aligned W new_uuid sha256_hex event create rules w =
    let aligned = returned_logs W new_uuid sha256_hex event create rules w in
    (aligned, Aligned-topics W new_uuid sha256_hex event _ _ aligned)
