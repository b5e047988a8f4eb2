-- ===== src/Worker.antt =====
-- sdk/go/worker: a worker that takes messages from topics and hands their events to handlers.
--
-- A call that reaches a broker, the API or code of the user acts on a world W. An event is a pointer
-- there: whoever is given one returns what it points to behind the call.
pub mod Codec
pub mod Options
pub mod Clients
pub mod Topics
pub mod Subscribers
pub mod Messages
use relaymesh.Prelude.{ℕ, Bool, Option, none, some, List, [], if◌then◌else◌}
use relaymesh.Prelude.Int.{ℤ}
use relaymesh.Prelude.Text.{Text, same, trim_space}
use relaymesh.Prelude.Table.{Table}
use relaymesh.Prelude.Outcome.{Errors, Outcome}
use relaymesh.Core.Value.{Fields}
use relaymesh.Core.Publisher.{Message, Act}
use relaymesh.Storage.Tenant.{Context}

-- A context.Context: what pkg/storage keeps in it, and the value under the `tenantKey{}` of client.go,
-- which is another key.
pub record CallContext : Type 0 where
  pub stored : Context
  pub worker_tenant : Option Text

-- WithTenantID
unfoldable pub with_tenant_id : CallContext → Text → CallContext
with_tenant_id ctx tenant_id =
    let trimmed = trim_space tenant_id in
    if same trimmed [] then ctx else record ctx { worker_tenant = some trimmed }

-- TenantIDFromContext
unfoldable pub tenant_id_from_context : CallContext → Text
tenant_id_from_context ctx = elim (ctx.worker_tenant) [ some value ↦ trim_space value | none ↦ [] ]

-- Event; `none` is the nil map of `normalized`, and the nil client.
pub record WorkerEvent (C : Type 0) : Type 0 where
  pub provider : Text
  pub type_ : Text
  pub topic : Text
  pub metadata : Table Text
  pub payload : Text
  pub normalized : Option Fields
  pub client : Option C

-- RetryDecision
pub record RetryDecision : Type 0 where
  pub retry : Bool
  pub nack : Bool

-- auth.OAuth2Config is opaque here: the worker only hands it on.
pub record ApiClientConfig (O : Type 0) : Type 0 where
  pub base_url : Text
  pub api_key : Text
  pub oauth2 : Option O

module _ (W : Type 0) where
  -- MessageHandler
  abbrev pub MessageHandler : Type 0
  MessageHandler = CallContext → Message → Act W

  -- Subscriber
  pub record Subscriber : Type 0 where
    pub start : CallContext → Text → MessageHandler → Act W
    pub close : Act W

module _ (W C : Type 0) where
  -- The event that a pointer points to, and the world.
  abbrev pub Turn : Type 0
  Turn = WorkerEvent C × W

  -- Handler
  abbrev pub Handler : Type 0
  Handler = CallContext → Turn → Errors × Turn

  -- Middleware
  abbrev pub Middleware : Type 0
  Middleware = Handler → Handler

  -- Listener; `none` is a nil hook. OnError may be given the nil event.
  pub record Listener : Type 0 where
    pub on_start : Option (CallContext → W → W)
    pub on_exit : Option (CallContext → W → W)
    pub on_message_start : Option (CallContext → Turn → Turn)
    pub on_message_finish : Option (CallContext → Errors → Turn → Turn)
    pub on_error :
        Option (CallContext → Errors → Option (WorkerEvent C) × W → Option (WorkerEvent C) × W)

  -- RetryPolicy
  abbrev pub RetryPolicy : Type 0
  RetryPolicy = CallContext → Errors → Option (WorkerEvent C) × W → RetryDecision × W

  -- Codec
  abbrev pub Codec : Type 0
  Codec = Text → Option Message → Outcome (WorkerEvent C)

  -- ClientProvider, with BindAPIClient where it has that method.
  pub record ClientProvider (O : Type 0) : Type 0 where
    pub client_for : CallContext → Turn → Outcome (Option C) × Turn
    pub bind_api_client : Option (ApiClientConfig O → W → W)

  -- Worker, less the logger.
  pub record Worker (O : Type 0) : Type 0 where
    pub subscriber : Option (Subscriber W)
    pub codec : Codec
    pub retry : RetryPolicy
    pub concurrency : ℤ
    pub retry_count : ℤ
    pub topics : List Text
    pub topic_handlers : Table Handler
    pub topic_drivers : Table Text
    pub type_handlers : Table Handler
    pub middleware : List Middleware
    pub client_provider : Option (ClientProvider O)
    pub listeners : List Listener
    pub driver_subs : Table (Subscriber W)
    pub endpoint : Text
    pub api_key : Text
    pub oauth2_config : Option O
    pub tenant_id : Text
    pub rule_handlers : Table Handler
