-- ===== src/Tests/Working.antt =====
-- Runs of the worker.
use relaymesh.Prelude.{
  ℕ, ◌+◌, ◌≡◌, ◌↔◌, ◌⊎◌, IfSome, refl, Bool, true, false, none, some, Option, List, [], ◌∷◌,
  if◌then◌else◌,
}
use relaymesh.Prelude.Int.{pos, is_zero}
use relaymesh.Prelude.Text.{Text, text, same, trim_space, is_blank, to_lower}
use relaymesh.Prelude.Table.{Table, lookup}
use relaymesh.Prelude.Outcome.{Errors, Outcome, ok}
use relaymesh.Core.Value.{bool}
use relaymesh.Core.Publisher.{Message, RelayPublisher}
use relaymesh.Core.Publisher.Encode.{message_payload, relaybus_publish}
use relaymesh.Worker.{CallContext, WorkerEvent, Turn, Handler, Worker}
use relaymesh.Worker.Codec.{metadata_value, Formats, decode, resolve_topic, normalized_of}
use relaymesh.Worker.Codec.RoundTrip.{Received, decode-relaybus_publish}
use relaymesh.Worker.Options.{no_retry_on_error}
use relaymesh.Worker.Messages.{
  handle_message, receive, handler_for, wrap, attempts_of, log_id_of, notify_message_start,
  message_context,
}
use relaymesh.Worker.Messages.Ledger.{Ledger}
use relaymesh.Worker.Messages.Concluded.{Concluded, handle_message-Concluded}
use relaymesh.Worker.Messages.Attempts.{Succeeds, receive-Succeeds}
use relaymesh.Worker.Topics.{
  contains, unique, topics_by_driver, RuleTarget, prepare_rule_subscriptions,
}
use relaymesh.Worker.Topics.Distinct.{IsDistinct, unique-IsDistinct}
use relaymesh.Worker.Topics.Grouped.{prepare_rule_subscriptions-Driven}
use relaymesh.Tests.Samples.{push_event, counting}

abbrev pub anyone : CallContext
anyone = record { stored = record { tenant_value = none }; worker_tenant = none }

-- A payload is the raw payload itself, of a push to GitHub.
abbrev pub plain_formats : Formats
plain_formats = record {
  unmarshal_payload =
      λ t. ok (record { provider = text "github"; name = text "push"; payload = t });
  unmarshal_json = λ t. ok (bool true);
}

abbrev wire : RelayPublisher ℕ
wire = record { send = λ topic message w. ([], w + 1); shut = λ w. ([], w) }

decode-relaybus_publish_example :
    (message : Message) × (v : ℕ) × (e : WorkerEvent Text) × (relaybus_publish ℕ counting wire
        (text "t")
        push_event
        0
      ≡ wire.send (text "t") message v)
    × (decode Text plain_formats (text "sub") (some message) ≡ ok e)
    × Received Text push_event
        (if is_blank (text "sub") then text "t" else text "sub")
        (text "true")
        plain_formats
        e
unfolding message_payload
decode-relaybus_publish_example =
    decode-relaybus_publish Text ℕ counting plain_formats wire (text "t") (text "sub") push_event 0
      (text "true") (text "true") refl refl refl

-- The world is the list of states that were reported.
abbrev Log : Type 0
Log = List (Text × Text)

abbrev report : CallContext → Text → Text → Text → Log → Errors × Log
report ctx id status reason log = ([], (id, status) ∷ log)

abbrev refuses : Handler Log Text
refuses ctx t = (text "no" ∷ [], t)

abbrev pub plain_worker : {W : Type 0} → Handler W Text → Worker W Text Text
plain_worker {W = W} h = record {
  subscriber = none;
  codec = decode Text plain_formats;
  retry = no_retry_on_error W Text;
  concurrency = pos 10;
  retry_count = pos 1;
  topics = [];
  topic_handlers = (text "t", h) ∷ [];
  topic_drivers = (text "t", text " bus ") ∷ [];
  type_handlers = [];
  middleware = [];
  client_provider = none;
  listeners = [];
  driver_subs = [];
  endpoint = [];
  api_key = [];
  oauth2_config = none;
  tenant_id = [];
  rule_handlers = [];
}

abbrev pub pushed : Message
pushed = record {
  id = text "1";
  topic = text "t";
  payload = text "true";
  timestamp = 0;
  content_type = [];
  metadata = (text "log_id", text "log7") ∷ [];
  schema_version = [];
}

refusing-Ledger : Ledger Log Text Text report (plain_worker refuses)
unfolding handler_for lookup wrap
refusing-Ledger = record {
  ledger = λ w. w;
  updates = λ ctx id status reason w. refl;
  starts = tt;
  finishes = tt;
  errors = tt;
  handles = λ topic type_. either (same (text "t") topic);
  provides = tt;
}
  where
    either :
        (found : Bool)
        → IfSome
            (λ h. (ctx : CallContext) (t : Turn Log Text) → (h ctx t).1.1 ≡ t.1)
            (elim (if found then some refuses else none) as (λ x. Option (Handler Log Text)) [
              | none ↦ none
              | some h ↦ some h
            ])
    either true = λ ctx t. refl
    either false = tt

handle_message-Concluded_example :
    Concluded Log Text Text report
      (plain_worker refuses)
      refusing-Ledger
      (message_context anyone (some pushed))
      (text "t")
      (some pushed)
      []
      (log_id_of (some pushed))
      (refusing-Ledger.ledger [])
      (handle_message Log Text Text report
        (plain_worker refuses)
        anyone
        (text "t")
        (some pushed)
        [])
handle_message-Concluded_example =
    handle_message-Concluded Log Text Text report (plain_worker refuses) refusing-Ledger anyone
      (text "t") (some pushed) []

-- The first attempt fails, the second one does not.
abbrev pub second_time : Handler ℕ Text
second_time ctx (e, w) = (if is_zero (pos w) then text "no" ∷ [] else [], (e, w + 1))

abbrev pub update_nothing : CallContext → Text → Text → Text → ℕ → Errors × ℕ
update_nothing ctx id status reason w = ([], w)

abbrev pub push_of : WorkerEvent Text
push_of = record {
  provider = text "github";
  type_ = text "push";
  topic = text "t";
  metadata = (text "log_id", text "log7") ∷ [];
  payload = text "true";
  normalized = none;
  client = none;
}

abbrev second_started : Turn ℕ Text
second_started =
    notify_message_start ℕ Text Text update_nothing [] (message_context anyone (some pushed))
      (push_of, 0)

receive-Succeeds_example :
    (((handle_message ℕ Text Text update_nothing
          (plain_worker second_time)
          anyone
          (text "t")
          (some pushed)
          0).0
        ≡ false)
      ↔ Succeeds ℕ Text 2
          (wrap ℕ Text Text update_nothing [] second_time)
          (message_context anyone (some pushed))
          second_started)
    × (((receive ℕ Text Text update_nothing
            (plain_worker second_time)
            (λ t. t)
            (text "t")
            anyone
            pushed
            0).0
          ≡ [])
        ↔ (Succeeds ℕ Text 2
              (wrap ℕ Text Text update_nothing [] second_time)
              (message_context anyone (some pushed))
              second_started
            ⊎ (same
                  (to_lower (λ t. t) (metadata_value pushed.metadata (text "driver")))
                  (text "amqp")
                ≡ false)))
unfolding handler_for lookup same decode attempts_of resolve_topic normalized_of trim_space
receive-Succeeds_example =
    receive-Succeeds ℕ Text Text update_nothing (plain_worker second_time) (λ t. t) anyone
      (text "t") pushed 0 push_of second_time 1 refl refl refl refl refl

unique-IsDistinct_example :
    IsDistinct (unique (text "a" ∷ text "b" ∷ text "a" ∷ []))
    × ((v : Text)
        → contains v (unique (text "a" ∷ text "b" ∷ text "a" ∷ []))
          ≡ contains v (text "a" ∷ text "b" ∷ text "a" ∷ []))
unique-IsDistinct_example = unique-IsDistinct (text "a" ∷ text "b" ∷ text "a" ∷ [])

abbrev two_topics : Table Text
two_topics = (text "t", text " bus ") ∷ (text "u", text "bus") ∷ []

abbrev by_bus : Table (List Text)
by_bus = (text "bus", text "t" ∷ text "u" ∷ []) ∷ []

abbrev any_rule : CallContext → Text → ℕ → Outcome RuleTarget × ℕ
any_rule ctx id w = (ok (record { emit = text "t" ∷ []; driver_id = text "bus" }), w + 1)

prepare_rule_subscriptions-Driven_example :
    (r : Table (List Text)) × (topics_by_driver
        (prepare_rule_subscriptions ℕ Text Text any_rule anyone
          (plain_worker second_time)
          0).1.topic_drivers
      ≡ ok r)
unfolding prepare_rule_subscriptions same trim_space
prepare_rule_subscriptions-Driven_example =
    prepare_rule_subscriptions-Driven ℕ Text Text any_rule anyone (plain_worker second_time) 0
      (refl, tt) refl
