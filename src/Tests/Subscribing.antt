-- ===== src/Tests/Subscribing.antt =====
-- Runs of the cache of clients and of the subscribers of the worker.
use relaymesh.Prelude.{
  false, ℕ, ◌+◌, ◌≡◌, refl, none, some, Option, [], ◌∷◌, if◌then◌else◌, All, arith,
}
use relaymesh.Prelude.Int.{negsuc}
use relaymesh.Prelude.Text.{is_ascii, Text, text, same, trim_space, to_lower, join}
use relaymesh.Prelude.Table.{lookup, insert}
use relaymesh.Prelude.Outcome.{Outcome, ok}
use relaymesh.Core.Publisher.Encode.{event_metadata}
use relaymesh.Core.Publisher.Encode.Sent.{Carries, event_metadata-Describes}
use relaymesh.Worker.{CallContext, WorkerEvent}
use relaymesh.Worker.Codec.{metadata_value}
use relaymesh.Worker.Messages.{handle_message, receive}
use relaymesh.Worker.Topics.{contains}
use relaymesh.Worker.Topics.Distinct.{IsDistinct}
use relaymesh.Worker.Clients.{
  ClientCache, ScmRecord, ScmProvider, new_cache, cache_get, cache_add, scm_client, expired,
  client_target, made_client, client_key, find,
}
use relaymesh.Worker.Clients.Bounded.{IsBounded, client_cache-IsBounded}
use relaymesh.Worker.Clients.Recent.{scm_client_again}
use relaymesh.Worker.Subscribers.{
  SourceCodecs, SubscriberConfig, Adapters, no_config, tagged, build_subscriber, MultiSubscriber,
  wanted_drivers, is_supported, relaybus_subscriber, unique_names, build_multi,
  new_single_subscriber, broker_of,
}
use relaymesh.Worker.Subscribers.Requeue.{receive-Carries}
use relaymesh.Worker.Subscribers.Served.{Serves, driver_name, served, build_subscriber-served}
use relaymesh.Tests.Samples.{push_event}
use relaymesh.Tests.Working.{anyone, second_time, update_nothing, plain_worker, push_of, pushed}

abbrev two_clients : ClientCache Text
two_clients = record {
  size = 2;
  order =
      record { key = text "a"; client = text "A"; expires_at = 0 }
      ∷ record { key = text "b"; client = text "B"; expires_at = 9 }
      ∷ [];
}

two_clients-IsBounded : IsBounded Text two_clients
unfolding same
two_clients-IsBounded = record {
  room = omega arith;
  fits = omega arith;
  keyed = (refl, (refl, tt));
}

client_cache-IsBounded_example :
    IsBounded Text (new_cache Text (negsuc 3))
    × IsBounded Text (cache_get Text 5 (text "b") 1 two_clients).1
    × IsBounded Text (cache_add Text (text "b") (text "C") 0 two_clients)
client_cache-IsBounded_example =
    client_cache-IsBounded Text (negsuc 3) two_clients 5 1 0 (text "b") (text "C")
      two_clients-IsBounded

abbrev scm : ScmProvider Text Text
scm = record { endpoint = []; api_key = []; oauth2 = none; cache = two_clients; skew = 1 }

abbrev installed : WorkerEvent Text
installed = record push_of { metadata = (text "installation_id", text "7") ∷ [] }

abbrev token : ScmRecord
token = record {
  provider = text "github";
  access_token = text "secret";
  api_base_url = [];
  expires_at = 9;
}

abbrev token_for :
    ScmProvider Text Text → CallContext → Text × Text × Text → ℕ → Outcome ScmRecord × ℕ
token_for p ctx target w = (ok token, w + 1)

abbrev client_with_token : ScmRecord → Outcome (Option Text)
client_with_token r = ok (some r.access_token)

abbrev target_of : Text × Text × Text
target_of = (text "github", text "7", [])

scm_client_again_example :
    (q : ScmProvider Text Text) × (scm_client Text Text ℕ
        (λ w. w)
        token_for
        client_with_token
        anyone
        installed
        scm
        3
      ≡ (ok (some (text "secret")), q, 4))
    × ((scm_client Text Text ℕ (λ w. w) token_for client_with_token anyone installed q 4).0
        ≡ ok (some (text "secret")))
    × ((scm_client Text Text ℕ (λ w. w) token_for client_with_token anyone installed q 4).2 ≡ 4)
unfolding client_target same trim_space cache_get find made_client expired lookup metadata_value
    client_key join
scm_client_again_example =
    scm_client_again Text Text ℕ (λ w. w) token_for client_with_token anyone anyone installed scm 3
      4 target_of token (text "secret") refl (omega arith) refl refl refl refl

abbrev as_given : Text → Text
as_given t = t

abbrev plain_sources : SourceCodecs
plain_sources = record {
  wide_lower = as_given;
  decode_amqp = λ t c. ok c;
  decode_nats = λ t c. ok c;
  decode_kafka = λ t c. ok c;
}

abbrev silent : Adapters plain_sources ℕ
silent = record {
  start_amqp = λ cfg ctx topic handler w. ([], w);
  start_nats = λ cfg ctx topic handler w. ([], w);
  start_kafka = λ cfg ctx topic handler w. ([], w);
}

abbrev two_drivers : SubscriberConfig
two_drivers = record no_config { drivers = text "NATS" ∷ text " amqp" ∷ text "nats" ∷ [] }

abbrev two_subscribers : MultiSubscriber ℕ
two_subscribers =
    (text "nats", relaybus_subscriber plain_sources ℕ silent (text "nats") two_drivers)
    ∷ (text "amqp", relaybus_subscriber plain_sources ℕ silent (text "amqp") two_drivers)
    ∷ []

lower_again : (t : Text) → is_ascii t ≡ false → to_lower as_given (as_given t) ≡ as_given t
unfolding to_lower
lower_again t n = rw (n, to_lower) refl

build_subscriber-served_example :
    (served two_subscribers ≡ wanted_drivers plain_sources ℕ silent two_drivers)
    × IsDistinct (served two_subscribers)
    × All
        (λ s.
          Serves plain_sources ℕ silent two_drivers
            (driver_name plain_sources ℕ silent two_drivers s.0)
            s.1)
        two_subscribers
unfolding build_subscriber same no_config unique_names to_lower trim_space contains build_multi
    new_single_subscriber is_supported broker_of
build_subscriber-served_example =
    build_subscriber-served plain_sources ℕ silent two_drivers two_subscribers lower_again refl

pushed_event-Carries :
    Carries push_event
      (text "t")
      (text "true")
      (record pushed { metadata = event_metadata push_event })
unfolding trim_space same
pushed_event-Carries = record {
  at_topic = refl;
  with_payload = refl;
  described = event_metadata-Describes push_event;
  logged = λ h. absurd (ground (arith, h));
}

receive-Carries_example :
    ((receive ℕ Text Text update_nothing
        (plain_worker second_time)
        as_given
        (text "t")
        anyone
        (record pushed { metadata = event_metadata push_event })
        0).0
      ≡ [])
    × ((tagged ℕ
          (text "amqp")
          (receive ℕ Text Text update_nothing (plain_worker second_time) as_given (text "t"))
          anyone
          (record pushed { metadata = event_metadata push_event })
          0).0
        ≡ (if (handle_message ℕ Text Text update_nothing
              (plain_worker second_time)
              anyone
              (text "t")
              (some (record pushed {
                metadata = insert (text "driver") (text "amqp") (event_metadata push_event);
              }))
              0).0
            then text "message nack requested" ∷ []
            else []))
receive-Carries_example =
    receive-Carries ℕ Text Text update_nothing (plain_worker second_time) as_given (text "t") anyone
      push_event (text "t") (text "true") (record pushed { metadata = event_metadata push_event }) 0
      pushed_event-Carries
