-- ===== src/Worker/Options.antt =====
-- New of sdk/go/worker/worker.go with the options of options.go, NoRetry of retry.go, and the settings
-- of api_clients.go. A variable of the environment that is not set is "".
pub mod Applied
use relaymesh.Prelude.{
  ℕ, Bool, true, false, Option, none, some, List, [], ◌∷◌, ◌++◌, reverse, ◌==◌, if◌then◌else◌,
}
use relaymesh.Prelude.Int.{ℤ, pos, is_positive, is_negative}
use relaymesh.Prelude.Text.{Text, text, same, trim_space, is_blank}
use relaymesh.Prelude.Table.{Table, insert}
use relaymesh.Worker.{
  RetryDecision, RetryPolicy, Handler, Middleware, Listener, Codec, ApiClientConfig, ClientProvider,
  Subscriber, Worker,
}
use relaymesh.Worker.Codec.{Formats, decode}

-- os.Getenv
abbrev pub Environment : Type 0
Environment = Text → Text

-- strings.TrimRight(s, "/")
unfoldable pub drop_slashes : Text → Text
drop_slashes [] = []
drop_slashes (c ∷ cs) =
    let rest = drop_slashes cs in
    elim rest [ [] ↦ if c == b'/' then [] else c ∷ [] | d ∷ ds ↦ c ∷ d ∷ ds ]

-- envEndpoint
unfoldable pub env_endpoint : Environment → Text → Text
env_endpoint env key =
    let value = trim_space (env key) in if same value [] then [] else drop_slashes value

-- resolveEndpoint
unfoldable pub resolve_endpoint : Environment → Text → Text
resolve_endpoint env explicit =
    let trimmed = trim_space explicit in
    let endpoint = env_endpoint env (text "RELAYMESH_ENDPOINT") in
    let base_url = env_endpoint env (text "RELAYMESH_API_BASE_URL") in
    if same trimmed []
    then if same endpoint []
      then if same base_url [] then text "http://localhost:8080" else base_url
      else endpoint
    else drop_slashes trimmed

-- apiKeyFromEnv
unfoldable pub api_key_from_env : Environment → Text
api_key_from_env env = trim_space (env (text "RELAYMESH_API_KEY"))

-- envTenantID
unfoldable pub env_tenant_id : Environment → Text
env_tenant_id env = trim_space (env (text "RELAYMESH_TENANT_ID"))

-- NoRetry.OnError
unfoldable pub no_retry_on_error : (W C : Type 0) → RetryPolicy W C
no_retry_on_error W C ctx e t = (record { retry = false; nack = true }, t.1)

module _ (W C O : Type 0) (env : Environment) where
  -- apiBaseURL
  unfoldable pub api_base_url : Worker W C O → Text
  api_base_url w = resolve_endpoint env w.endpoint

  -- apiKeyValue
  unfoldable pub api_key_value : Worker W C O → Text
  api_key_value w =
      let key = trim_space w.api_key in if same key [] then api_key_from_env env else key

  -- tenantIDValue
  unfoldable pub tenant_id_value : Worker W C O → Text
  tenant_id_value w =
      let trimmed = trim_space w.tenant_id in
      let from_env = env_tenant_id env in
      if same trimmed [] then (if same from_env [] then text "default" else from_env) else trimmed

  -- Option: each function of options.go with its argument.
  pub data WorkerOption : Type 0 where
    with_subscriber : Option (Subscriber W) → WorkerOption
    with_concurrency : ℤ → WorkerOption
    with_codec : Option (Codec W C) → WorkerOption
    with_middleware : List (Middleware W C) → WorkerOption
    with_retry : Option (RetryPolicy W C) → WorkerOption
    with_retry_count : ℤ → WorkerOption
    with_client_provider : Option (ClientProvider W C O) → WorkerOption
    with_listener : Listener W C → WorkerOption
    with_endpoint : Text → WorkerOption
    with_api_key : Text → WorkerOption
    with_oauth2_config : O → WorkerOption
    with_tenant : Text → WorkerOption

  -- `opt(w)`
  unfoldable pub apply_option : WorkerOption → Worker W C O → Worker W C O
  apply_option (with_subscriber sub) w = record w { subscriber = sub }
  apply_option (with_concurrency n) w = if is_positive n then record w { concurrency = n } else w
  apply_option (with_codec none) w = w
  apply_option (with_codec (some c)) w = record w { codec = c }
  apply_option (with_middleware ms) w = record w { middleware = w.middleware ++ ms }
  apply_option (with_retry none) w = w
  apply_option (with_retry (some policy)) w = record w { retry = policy }
  apply_option (with_retry_count count) w = record w {
    retry_count = if is_negative count then pos 0 else count;
  }
  apply_option (with_client_provider p) w = record w { client_provider = p }
  apply_option (with_listener l) w = record w { listeners = w.listeners ++ (l ∷ []) }
  apply_option (with_endpoint endpoint) w = record w { endpoint = trim_space endpoint }
  apply_option (with_api_key key) w = record w { api_key = trim_space key }
  apply_option (with_oauth2_config cfg) w = record w { oauth2_config = some cfg }
  apply_option (with_tenant tenant) w = record w { tenant_id = trim_space tenant }

  unfoldable pub apply_options : List WorkerOption → Worker W C O → Worker W C O
  apply_options [] w = w
  apply_options (o ∷ os) w = apply_options os (apply_option o w)

  -- bindClientProvider
  unfoldable pub bind_client_provider : Worker W C O → W → W
  bind_client_provider w world = elim (w.client_provider) [
    | none ↦ world
    | some p ↦ elim (p.bind_api_client) [
      | none ↦ world
      | some bind ↦
          bind
            (record {
              base_url = api_base_url w;
              api_key = api_key_value w;
              oauth2 = w.oauth2_config;
            })
            world
    ]
  ]

  -- The worker before the options.
  unfoldable pub fresh_worker : Formats → Worker W C O
  fresh_worker formats = record {
    subscriber = none;
    codec = decode C formats;
    retry = no_retry_on_error W C;
    concurrency = pos 10;
    retry_count = pos 0;
    topics = [];
    topic_handlers = [];
    topic_drivers = [];
    type_handlers = [];
    middleware = [];
    client_provider = none;
    listeners = [];
    driver_subs = [];
    endpoint = [];
    api_key = [];
    oauth2_config = none;
    tenant_id = env_tenant_id env;
    rule_handlers = [];
  }

  -- New
  unfoldable pub new_worker : Formats → List WorkerOption → W → Worker W C O × W
  unfolding fresh_worker apply_options
  new_worker formats opts world =
      let w = apply_options opts (fresh_worker formats) in (w, bind_client_provider w world)

  -- HandleRule
  unfoldable pub handle_rule : Text → Option (Handler W C) → Worker W C O → Worker W C O
  handle_rule rule_id none w = w
  handle_rule rule_id (some h) w =
      let trimmed = trim_space rule_id in
      if same trimmed [] then w else record w { rule_handlers = insert trimmed h w.rule_handlers }

  -- HandleType
  unfoldable pub handle_type : Text → Option (Handler W C) → Worker W C O → Worker W C O
  handle_type event_type none w = w
  handle_type event_type (some h) w =
      if same event_type []
      then w
      else record w { type_handlers = insert event_type h w.type_handlers }
