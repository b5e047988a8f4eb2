-- ===== src/Access/Instances/Wire.antt =====
-- pkg/providerinstance/config.go: a provider's configuration from its JSON, in which a field stands
-- under its name in snake case or under the one of the Go struct. encoding/json is a parameter: into
-- each of the wire structs, with a raw message as its text, "" where it is missing.
use relaymesh.Prelude.{
  Bool, false, ◌||◌, Option, none, some, List, [], ◌∷◌, ◌++◌, ◌==◌, ℕ, if◌then◌else◌,
}
use relaymesh.Prelude.Int.{ℤ, pos}
use relaymesh.Prelude.Text.{Text, text, same, trim_space, is_blank, has_prefix}
use relaymesh.Prelude.Outcome.{Outcome, ok, fail, ◌>>=◌}
use relaymesh.Storage.Records.{ProviderInstanceRecord}
use relaymesh.Access.Providers.{WebhookConfig, AppConfig, OauthConfig, ApiConfig, ProviderConfig}

-- providerConfigWire
pub record ProviderConfigWire : Type 0 where
  pub enabled : Option Bool
  pub enabled_alt : Option Bool
  pub key : Option Text
  pub key_alt : Option Text
  pub webhook : Text
  pub webhook_alt : Text
  pub app : Text
  pub app_alt : Text
  pub oauth : Text
  pub oauth_alt : Text
  pub api : Text
  pub api_alt : Text

-- webhookConfigWire
pub record WebhookConfigWire : Type 0 where
  pub path : Option Text
  pub path_alt : Option Text
  pub secret : Option Text
  pub secret_alt : Option Text

-- appConfigWire
pub record AppConfigWire : Type 0 where
  pub app_id : Option ℤ
  pub app_id_alt : Option ℤ
  pub private_key_path : Option Text
  pub private_key_path_alt : Option Text
  pub private_key_pem : Option Text
  pub private_key_pem_alt : Option Text
  pub app_slug : Option Text
  pub app_slug_alt : Option Text

-- oauthConfigWire
pub record OauthConfigWire : Type 0 where
  pub client_id : Text
  pub client_id_alt : Text
  pub client_secret : Text
  pub client_secret_alt : Text
  pub scopes : Text
  pub scopes_alt : Text

-- apiConfigWire
pub record ApiConfigWire : Type 0 where
  pub base_url : Option Text
  pub base_url_alt : Option Text
  pub web_base_url : Option Text
  pub web_base_url_alt : Option Text

-- json.Unmarshal into the wire structs, a list of strings, and a string; json.Marshal of the result
pub record WireCodec : Type 0 where
  pub read_provider : Text → Outcome ProviderConfigWire
  pub read_webhook : Text → Outcome WebhookConfigWire
  pub read_app : Text → Outcome AppConfigWire
  pub read_oauth : Text → Outcome OauthConfigWire
  pub read_api : Text → Outcome ApiConfigWire
  pub read_strings : Text → Outcome (List Text)
  pub read_string : Text → Outcome Text
  pub marshal : ProviderConfig → Outcome Text

-- The zero ProviderConfig
unfoldable pub no_provider_config : ProviderConfig
no_provider_config = record {
  enabled = false;
  key = [];
  webhook = record { path = []; secret = [] };
  app = record { app_id = pos 0; private_key_path = []; private_key_pem = []; app_slug = [] };
  oauth = record { client_id = []; client_secret = []; scopes = [] };
  api = record { base_url = []; web_base_url = [] };
}

-- The first value that is there, or else the one that is kept.
unfoldable pub first_of : {A : Type 0} → Option A → Option A → A → A
first_of (some a) alt kept = a
first_of none (some a) kept = a
first_of none none kept = kept

-- The raw message under the first name, or else under the second.
unfoldable pub raw_of : Text → Text → Text
raw_of raw alt = if same raw [] then alt else raw

-- The separators of splitScopes
unfoldable pub is_separator : ℕ → Bool
is_separator c = c == b',' || c == 32 || c == 10 || c == 9

-- strings.FieldsFunc with the word that was begun
unfoldable pub fields_from : Text → Text → List Text
fields_from word [] = if same word [] then [] else word ∷ []
fields_from word (c ∷ cs) =
    let ended = fields_from [] cs in
    let longer = fields_from (word ++ (c ∷ [])) cs in
    if is_separator c then (if same word [] then ended else word ∷ ended) else longer

unfoldable pub trimmed_parts : List Text → List Text
trimmed_parts [] = []
trimmed_parts (p ∷ ps) =
    let rest = trimmed_parts ps in if is_blank p then rest else trim_space p ∷ rest

-- splitScopes
unfoldable pub split_scopes : Text → List Text
split_scopes value = trimmed_parts (fields_from [] (trim_space value))

module _ (json : WireCodec) where
  -- parseStringLikeJSON: a string, or a number or a truth value as its text.
  unfoldable pub parse_string_like : Text → Option Text
  parse_string_like raw =
      let trimmed = trim_space raw in
      if same trimmed [] || same trimmed (text "null")
      then none
      else if has_prefix trimmed (text "\"")
      then elim (json.read_string raw) [ ok value ↦ some value | fail e ↦ none ]
      else if has_prefix trimmed (text "{") || has_prefix trimmed (text "[")
      then none
      else some trimmed

  unfoldable pub with_webhook : Text → WebhookConfig → Outcome WebhookConfig
  with_webhook raw c = if same raw [] then ok c else (do
    w ← json.read_webhook raw
    ok (record {
      path = first_of w.path w.path_alt c.path;
      secret = first_of w.secret w.secret_alt c.secret;
    }))

  unfoldable pub with_app : Text → AppConfig → Outcome AppConfig
  with_app raw c = if same raw [] then ok c else (do
    w ← json.read_app raw
    ok (record {
      app_id = first_of w.app_id w.app_id_alt c.app_id;
      private_key_path = first_of w.private_key_path w.private_key_path_alt c.private_key_path;
      private_key_pem = first_of w.private_key_pem w.private_key_pem_alt c.private_key_pem;
      app_slug = first_of w.app_slug w.app_slug_alt c.app_slug;
    }))

  -- The scopes: a list, or one text that is split.
  unfoldable pub scopes_from : Text → List Text → List Text
  scopes_from raw kept = if same raw [] then kept else elim (json.read_strings raw) [
    | ok scopes ↦ scopes
    | fail e ↦ elim (json.read_string raw) [ ok value ↦ split_scopes value | fail _ ↦ kept ]
  ]

  unfoldable pub with_oauth : Text → OauthConfig → Outcome OauthConfig
  with_oauth raw c = if same raw [] then ok c else (do
    w ← json.read_oauth raw
    ok (record {
      client_id =
          first_of (parse_string_like w.client_id) (parse_string_like w.client_id_alt) c.client_id;
      client_secret =
          first_of (parse_string_like w.client_secret) (parse_string_like w.client_secret_alt)
            c.client_secret;
      scopes = scopes_from (raw_of w.scopes w.scopes_alt) c.scopes;
    }))

  unfoldable pub with_api : Text → ApiConfig → Outcome ApiConfig
  with_api raw c = if same raw [] then ok c else (do
    w ← json.read_api raw
    ok (record {
      base_url = first_of w.base_url w.base_url_alt c.base_url;
      web_base_url = first_of w.web_base_url w.web_base_url_alt c.web_base_url;
    }))

  -- unmarshalProviderConfig
  unfoldable pub unmarshal_provider_config : Text → ProviderConfig → Outcome ProviderConfig
  unmarshal_provider_config raw c = do
    wire ← json.read_provider raw
    webhook ← with_webhook (raw_of wire.webhook wire.webhook_alt) c.webhook
    app ← with_app (raw_of wire.app wire.app_alt) c.app
    oauth ← with_oauth (raw_of wire.oauth wire.oauth_alt) c.oauth
    api ← with_api (raw_of wire.api wire.api_alt) c.api
    ok (record {
      enabled = first_of wire.enabled wire.enabled_alt c.enabled;
      key = first_of wire.key wire.key_alt c.key;
      webhook = webhook;
      app = app;
      oauth = oauth;
      api = api;
    })

  -- unmarshalConfig, into a ProviderConfig
  unfoldable pub unmarshal_config : Text → ProviderConfig → Outcome ProviderConfig
  unmarshal_config raw c =
      let trimmed = trim_space raw in
      if same trimmed [] then ok c else unmarshal_provider_config trimmed c

  -- ProviderConfigFromRecord
  unfoldable pub config_from_record : ProviderInstanceRecord → Outcome ProviderConfig
  config_from_record r = do
    cfg ← unmarshal_config r.config_json no_provider_config
    ok (record cfg { enabled = r.enabled })

  -- NormalizeProviderConfigJSON
  unfoldable pub normalize_config_json : Text → Option Text
  normalize_config_json raw =
      elim (do
        cfg ← unmarshal_config raw no_provider_config
        json.marshal (record cfg { key = [] })) [
          | ok normalized ↦ some (trim_space normalized)
          | fail e ↦ none
        ]
