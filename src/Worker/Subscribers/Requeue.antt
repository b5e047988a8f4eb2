-- ===== src/Worker/Subscribers/Requeue.antt =====
-- The handler that Run of sdk/go/worker/worker.go hands to a subscriber: when a message is given back.
use relaymesh.Prelude.{
  ◌≡◌, refl, ◌∙◌, Bool, true, false, ◌&&◌, Bool-cases, inl, inr, none, some, [], ◌∷◌, if◌then◌else◌,
  arith,
}
use relaymesh.Prelude.Text.{Text, text, same, to_lower}
use relaymesh.Prelude.Table.{lookup, insert, lookup-insert_self}
use relaymesh.Core.Event.{Event}
use relaymesh.Core.Publisher.{Message, Act}
use relaymesh.Core.Publisher.Encode.Sent.{Carries}
use relaymesh.Worker.{CallContext, Worker}
use relaymesh.Worker.Codec.{metadata_value}
use relaymesh.Worker.Messages.{should_requeue, handle_message, receive}
use relaymesh.Worker.Subscribers.{tagged}

should_requeue_driver :
    (wide : Text → Text) (msg : Message)
    → lookup (text "driver") msg.metadata ≡ none
    → should_requeue wide (some msg) ≡ false
unfolding should_requeue metadata_value to_lower same
should_requeue_driver wide msg h = rw (h, metadata_value) refl

should_requeue_tagged :
    (wide : Text → Text) (msg : Message)
    → should_requeue wide
        (some (record msg { metadata = insert (text "driver") (text "amqp") msg.metadata }))
      ≡ true
unfolding should_requeue metadata_value to_lower same
should_requeue_tagged wide msg =
    rw (lookup-insert_self (text "driver") (text "amqp") msg.metadata, metadata_value) refl

no_nack : (b : Bool) → (if b && false then text "message nack requested" ∷ [] else []) ≡ []
no_nack b = ground arith

all_nacks :
    (b : Bool)
    → (if b && true then text "message nack requested" ∷ [] else [])
      ≡ (if b then text "message nack requested" ∷ [] else [])
all_nacks b = ground arith

module _ (W C O : Type 0) (update : CallContext → Text → Text → Text → Act W)
    (worker : Worker W C O) (wide : Text → Text) where
  receive_error :
      (topic : Text) (ctx : CallContext) (msg : Message) (world : W)
      → (receive W C O update worker wide topic ctx msg world).0 ≡ (
          if (handle_message W C O update worker ctx topic (some msg) world).0
            && should_requeue wide (some msg)
          then text "message nack requested" ∷ []
          else [])
  unfolding receive
  receive_error topic ctx msg world =
      elim (Bool-cases (
        (handle_message W C O update worker ctx topic (some msg) world).0
        && should_requeue wide (some msg))) [
          | inl y ↦ rw (y, receive) refl
          | inr n ↦ rw (n, receive) refl
        ]

-- A message that relaybusPublisher sent and a subscriber hands to the worker as it is, is never given
-- back: whatever the handlers and the retry policy decide, the broker gets no error. Through the
-- subscriber of AMQP among several, it gets one exactly if handling the message says so.
pub receive-Carries :
    (W C O : Type 0) (update : CallContext → Text → Text → Text → Act W) (worker : Worker W C O)
    (wide : Text → Text) (subscription : Text) (ctx : CallContext) (event : Event)
    (topic payload : Text) (msg : Message) (world : W)
    → Carries event topic payload msg
    → ((receive W C O update worker wide subscription ctx msg world).0 ≡ [])
      × ((tagged W (text "amqp") (receive W C O update worker wide subscription) ctx msg world).0
          ≡ (if (handle_message W C O update worker ctx subscription
                (some (record msg { metadata = insert (text "driver") (text "amqp") msg.metadata }))
                world).0
              then text "message nack requested" ∷ []
              else []))
unfolding tagged same
receive-Carries W C O update worker wide subscription ctx event topic payload msg world c = (
  receive_error W C O update worker wide subscription ctx msg world
      ∙ rw (should_requeue_driver wide msg c.described.no_driver) (no_nack _),
  receive_error W C O update worker wide subscription ctx _ world
      ∙ rw (should_requeue_tagged wide msg) (all_nacks _),
)
