-- ===== src/Lib.antt =====
-- relaymesh: webhook events of git hosts and other providers are matched against the rules of a
-- tenant and published to message brokers.
--
-- An event of a webhook meets the rules of its tenant, which come from a store or from a
-- configuration file. A rule has an expression over the event's payload, the topics it emits to, a
-- driver, and perhaps a script that transforms the payload. Each rule that fires gives a match for
-- each of its topics; the matches are written to the event log and published, through a publisher
-- of the match's own driver configuration or through the publishers of the tenant.
--
-- The files, and the code they are about:
--   Prelude and below: shared names; Go strings as lists of bytes with the functions of package
--     strings (Prelude/Text), maps as association lists (Prelude/Table), errors and results beside
--     errors (Prelude/Outcome), and Go's `int` (Prelude/Int).
--   Core/Rewrite: pkg/core/rules_rewrite.go. rewriteExpression is `rewrite_expression`; one round of
--     its loop is `round`, and `none` is a panic. Below it: Scan (what the scanners consume), Total,
--     Verbatim, Field and Names.
--   Core/Resolve: pkg/core/rules_resolve.go. resolveRuleParams is `resolve_rule_params`,
--     resolveJSONPath is `resolve_json_path`, ruleIDFromParts is `rule_id_from_parts`.
--   Core/Rules, Core/EmitList: pkg/core/rules.go. RuleEngine is a record, Update is `update`, and
--     evaluateRulesWithLoggerForTenant and evaluateWithLoggerForTenant are
--     `evaluate_rules_for_tenant` and `evaluate_for_tenant`.
--   Core/Config, Core/Relaybus: normalizeRules and the publisher configuration of pkg/core/config.go.
--   Core/Flatten: pkg/core/flatten.go.
--   Core/Event, Core/Value: pkg/core/event.go, and the values of JSON.
--   Core/Publisher: pkg/core/publisher.go. Encode is relaybusPublisher, Retry is retryingPublisher
--     and retryPublisherBuild, Build is newSinglePublisher and the validation, Mux is publisherMux
--     and NewPublisherWithContext.
--   Storage/Tenant, Storage/Records, Storage/Identity: pkg/storage/tenant.go, ResolveTenant of
--     pkg/storage/query.go, and the records of pkg/storage/store.go with their identifiers.
--   Drivers/Config: pkg/drivers/config.go. Drivers/Cache: Cache of pkg/drivers/cache.go over
--     pkg/cache/tenant_cache.go. Drivers/Routing: TenantPublisher. Drivers/Dynamic:
--     pkg/drivers/dynamic_cache.go.
--   Webhook/Matches, Webhook/Transform, Webhook/Publish, Webhook/EventLog, Webhook/RuleStore:
--     match_helpers.go, transform.go, publish.go, event_logging.go and rules_store.go of pkg/webhook.
--   Webhook/Payload: event_normalize.go and payload_helpers.go of pkg/webhook; annotatePayload is
--     `annotate_payload`.
--   Core/Functions: pkg/core/rules_functions.go, `contains_func` and `like_func`.
--   Storage/Memory: the stores in memory of pkg/storage, a file for each of mocks_rules.go (Rules),
--     mocks_drivers.go (Drivers), mocks_installations.go (Installations), mocks_eventlogs.go (Logs,
--     Analytics, Breakdown, Timeseries); Namespaces is mocks_namespaces.go and
--     mocks_provider_instances.go.
--   Access/Providers: config.go, providers.go and resolver.go of pkg/auth. Access/Instances:
--     pkg/providerinstance, its cache, and in Instances/Wire the JSON of a configuration.
--     Access/Tenants: tenant_interceptor.go and auth_interceptor.go of pkg/server. Access/State:
--     pkg/oauth/state.go.
--   Worker: sdk/go/worker. Codec is DefaultCodec, Options the options and the endpoint, Messages
--     handleMessage and the retry policy, Topics the subscriptions of rules, Clients the SCM clients
--     and their cache, Subscribers the subscribers and their configurations.
--   Tests: runs of the theorems on concrete data.
--
-- A call that changes state outside the program (a broker, a store, a clock, a context) acts on a
-- world `W`, which it is given and returns; `W` is any type. What the repository does not implement
-- is a field of a record that the definitions take: Core/Libraries (govaluate, jsonpath, JSON,
-- SHA-1), `Brokers` of Core/Publisher (the Relaybus library, protobuf, uuid, timers), `Codecs` of
-- Drivers/Config, `WireCodec` of Access/Instances/Wire and `StateCodec` of Access/State (JSON and
-- base64), `Scripts` of Webhook/Transform (the script engine), `Formatting` of Webhook/Payload (fmt
-- and time), `Numbers` of Storage/Memory/Breakdown (floats and strconv), or an argument, as the
-- verifier of tokens is. Their answers are not restricted, but where a theorem has a hypothesis
-- about them.
--
-- Bounds: the loop of rewriteExpression runs on fuel, as much as the text has bytes, since each
-- round consumes a byte at least. The other loops are on the lists they range over, and retries are
-- on the number of attempts. The series of buckets of GetEventLogTimeseries runs on fuel, a round
-- for each step of the interval up to the end and one more. A duration wraps at 64 bits where
-- DelayMS is multiplied, and so does the end of a page in the stores in memory. sort.Slice of the
-- listing of event logs may give entries of one time in any order; the model has one of them, which
-- no theorem uses.
--
-- Not modelled: the handlers of webhooks, of OAuth and of the API, which decode requests and call
-- the stores; the SQL stores, which are calls of gorm; the token cache; the goroutines of a
-- worker's Run and the clients that it calls the API with; the SDKs of other languages, generated
-- code and the command line; loggers; mutexes, so a method that holds a lock is one step, and two
-- calls of the caches are not interleaved.
pub mod Prelude
pub mod Core
pub mod Storage
pub mod Drivers
pub mod Webhook
pub mod Worker
pub mod Access
pub mod Tests
