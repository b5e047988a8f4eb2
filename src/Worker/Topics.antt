-- ===== src/Worker/Topics.antt =====
-- The topics of a worker, sdk/go/worker/worker.go: unique, topicsByDriver, prepareRuleSubscriptions and
-- buildDriverSubscribers. The clients of the API are parameters.
pub mod Distinct
pub mod Grouped
use relaymesh.Prelude.{
  Bool, true, false, not, Option, none, some, List, [], ◌∷◌, ◌++◌, is_empty, if◌then◌else◌,
}
use relaymesh.Prelude.Text.{Text, text, same, trim_space, is_blank}
use relaymesh.Prelude.Table.{Table, lookup, insert}
use relaymesh.Prelude.Outcome.{Errors, Outcome, ok, fail, ◌>>=◌}
use relaymesh.Storage.Tenant.{with_tenant}
use relaymesh.Worker.{CallContext, Handler, Subscriber, Worker}
use relaymesh.Worker.Options.{Environment, tenant_id_value}

-- Whether a list has a text.
unfoldable pub contains : Text → List Text → Bool
contains v [] = false
contains v (x ∷ xs) = let rest = contains v xs in if same x v then true else rest

-- The loop of unique; `seen` are the keys of its map.
unfoldable pub unique_loop : List Text → List Text → List Text
unique_loop seen [] = []
unique_loop seen (v ∷ vs) =
    let skipped = unique_loop seen vs in
    let kept = unique_loop (v ∷ seen) vs in if contains v seen then skipped else v ∷ kept

-- unique
unfoldable pub unique : List Text → List Text
unfolding unique_loop
unique values = unique_loop [] values

-- `out[key]`, nil where the key is missing.
unfoldable pub topics_at : Text → Table (List Text) → List Text
topics_at key out = elim (lookup key out) [ some topics ↦ topics | none ↦ [] ]

-- The loop of topicsByDriver.
unfoldable pub group_topics : Table Text → Table (List Text) → Outcome (Table (List Text))
group_topics [] out = ok out
group_topics ((topic, driver_id) ∷ rest) out =
    let trimmed = trim_space driver_id in
    let grouped = group_topics rest (insert trimmed (topics_at trimmed out ++ (topic ∷ [])) out) in
    if same trimmed []
    then fail ((text "driver id is required for topic: " ++ topic) ∷ [])
    else grouped

-- topicsByDriver
unfoldable pub topics_by_driver : Table Text → Outcome (Table (List Text))
topics_by_driver topic_drivers =
    if is_empty topic_drivers
    then fail (text "driver id is required for topics" ∷ [])
    else group_topics topic_drivers []

-- RuleRecord of rules_client.go, as far as the worker reads it.
pub record RuleTarget : Type 0 where
  pub emit : List Text
  pub driver_id : Text

-- DriverRecord of drivers_client.go
pub record DriverTarget : Type 0 where
  pub name : Text
  pub config_json : Text
  pub enabled : Bool

-- The topic and the driver that a rule's record names, from what it emits.
unfoldable pub subscription_of : Text → List Text → Text → Outcome (Text × Text)
subscription_of rule_id [] driver =
    fail ((text "rule " ++ (rule_id ++ text " has no emit topic")) ∷ [])
subscription_of rule_id (first ∷ others) driver =
    let topic = trim_space first in
    let driver_id = trim_space driver in
    if same topic []
    then fail ((text "rule " ++ (rule_id ++ text " emit topic empty")) ∷ [])
    else if same driver_id []
    then fail ((text "rule " ++ (rule_id ++ text " driver_id is required")) ∷ [])
    else ok (topic, driver_id)

unfoldable pub rule_subscription : Text → RuleTarget → Outcome (Text × Text)
unfolding subscription_of
rule_subscription rule_id found = subscription_of rule_id found.emit found.driver_id

module _ (W C O : Type 0) where
  -- The subscription of a rule in the worker; a topic that has a handler gets the new one.
  unfoldable pub subscribe_rule : Handler W C → Text × Text → Worker W C O → Worker W C O
  subscribe_rule h (topic, driver_id) w = record w {
    topic_handlers = insert topic h w.topic_handlers;
    topic_drivers = insert topic driver_id w.topic_drivers;
    topics = w.topics ++ (topic ∷ []);
  }

  module _ (get_rule : CallContext → Text → W → Outcome RuleTarget × W) where
    -- The loop of prepareRuleSubscriptions: an error leaves the rules before it subscribed.
    unfoldable pub prepare_loop :
        Table (Handler W C) → CallContext → Worker W C O → W → Errors × Worker W C O × W
    prepare_loop [] ctx w world = ([], w, world)
    prepare_loop ((rule_id, h) ∷ rest) ctx w world =
        let (found, after) = get_rule ctx rule_id world in
        elim (found >>= rule_subscription rule_id) [
          | fail e ↦ (e, w, after)
          | ok target ↦ prepare_loop rest ctx (subscribe_rule h target w) after
        ]

    -- prepareRuleSubscriptions; HandleRule keeps nil handlers out of the map.
    unfoldable pub prepare_rule_subscriptions :
        CallContext → Worker W C O → W → Errors × Worker W C O × W
    unfolding prepare_loop
    prepare_rule_subscriptions ctx w world = prepare_loop w.rule_handlers ctx w world

  module _ (env : Environment)
      (get_driver_by_id : CallContext → Text → W → Outcome (Option DriverTarget) × W)
      (make : DriverTarget → Outcome (Subscriber W)) where
    -- The checks of a driver's record.
    unfoldable pub usable_driver : Text → Option DriverTarget → Outcome DriverTarget
    usable_driver driver_id none = fail ((text "driver not found: " ++ driver_id) ∷ [])
    usable_driver driver_id (some d) =
        if d.enabled then ok d else fail ((text "driver is disabled: " ++ driver_id) ∷ [])

    -- buildDriverSubscribers over the drivers of the map; `make` is SubscriberConfigFromDriver and
    -- BuildSubscriber.
    unfoldable pub build_driver_subscribers :
        Table (List Text) → CallContext → Worker W C O → W → Errors × Worker W C O × W
    build_driver_subscribers [] ctx w world = ([], w, world)
    build_driver_subscribers ((driver_id, topics) ∷ rest) ctx w world =
        let tenant_ctx = record ctx {
          stored = with_tenant ctx.stored (tenant_id_value W C O env w);
        } in
        let (found, after) = get_driver_by_id tenant_ctx driver_id world in
        elim (lookup driver_id w.driver_subs) [
          | some sub ↦ build_driver_subscribers rest ctx w world
          | none ↦ elim (found >>= usable_driver driver_id >>= make) [
            | fail e ↦ (e, w, after)
            | ok sub ↦
                build_driver_subscribers rest ctx
                  (record w { driver_subs = insert driver_id sub w.driver_subs }) after
          ]
        ]
