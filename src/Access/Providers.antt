-- ===== src/Access/Providers.antt =====
-- pkg/auth/config.go and providers.go: the configuration of providers; Resolve of pkg/auth/resolver.go.
use relaymesh.Prelude.{
  ℕ, Bool, not, ◌&&◌, ◌||◌, Option, none, some, List, [], ◌∷◌, map, is_empty, ◌==◌, if◌then◌else◌,
}
use relaymesh.Prelude.Int.{ℤ, is_zero}
use relaymesh.Prelude.Text.{Text, text, same, trim_space, to_lower}
use relaymesh.Prelude.Table.{Table, lookup}
use relaymesh.Prelude.Outcome.{Outcome, ok, fail}

-- WebhookConfig
pub record WebhookConfig : Type 0 where
  pub path : Text
  pub secret : Text

-- AppConfig
pub record AppConfig : Type 0 where
  pub app_id : ℤ
  pub private_key_path : Text
  pub private_key_pem : Text
  pub app_slug : Text

-- OAuthConfig
pub record OauthConfig : Type 0 where
  pub client_id : Text
  pub client_secret : Text
  pub scopes : List Text

-- APIConfig
pub record ApiConfig : Type 0 where
  pub base_url : Text
  pub web_base_url : Text

-- ProviderConfig
pub record ProviderConfig : Type 0 where
  pub enabled : Bool
  pub key : Text
  pub webhook : WebhookConfig
  pub app : AppConfig
  pub oauth : OauthConfig
  pub api : ApiConfig

-- Config
pub record AuthConfig : Type 0 where
  pub github : ProviderConfig
  pub gitlab : ProviderConfig
  pub bitbucket : ProviderConfig
  pub slack : ProviderConfig
  pub atlassian : ProviderConfig
  pub jira : ProviderConfig
  pub extra : Table ProviderConfig

-- `strings.ReplaceAll(s, "-", "_")` on one byte
unfoldable pub underscore : ℕ → ℕ
underscore c = if c == b'-' then b'_' else c

-- NormalizeProviderName; `wide` is strings.ToLower beyond ASCII.
unfoldable pub normalize_provider_name : (Text → Text) → Text → Text
unfolding underscore
normalize_provider_name wide provider =
    let name = map underscore (to_lower wide (trim_space provider)) in
    if same name (text "jira") then text "atlassian" else name

-- providerConfigSet
unfoldable pub provider_config_set : ProviderConfig → Bool
provider_config_set cfg =
    cfg.enabled
    || not (same cfg.key [])
    || not (same cfg.webhook.path [])
    || not (same cfg.webhook.secret [])
    || not (is_zero cfg.app.app_id)
    || not (same cfg.app.private_key_path [])
    || not (same cfg.app.private_key_pem [])
    || not (same cfg.app.app_slug [])
    || not (same cfg.oauth.client_id [])
    || not (same cfg.oauth.client_secret [])
    || not (is_empty cfg.oauth.scopes)
    || not (same cfg.api.base_url [])
    || not (same cfg.api.web_base_url [])

-- The providers that Config has a field for, and any other name.
pub data ProviderKind : Type 0 where
  github gitlab bitbucket slack atlassian other : ProviderKind

unfoldable pub provider_kind : Text → ProviderKind
provider_kind name =
    if same name (text "github")
    then github
    else if same name (text "gitlab")
    then gitlab
    else if same name (text "bitbucket")
    then bitbucket
    else if same name (text "slack")
    then slack
    else if same name (text "atlassian")
    then atlassian
    else other

module _ (wide : Text → Text) where
  -- The loop over the extra providers.
  unfoldable pub extra_named : Text → Table ProviderConfig → Option ProviderConfig
  extra_named name [] = none
  extra_named name ((key, cfg) ∷ rest) =
      let later = extra_named name rest in
      if same (normalize_provider_name wide key) name then some cfg else later

  -- The configuration by the normalized name; a name that is `jira` has become `atlassian`. A
  -- configuration that is not set is `none`.
  config_of_kind : ProviderKind → Text → AuthConfig → Option ProviderConfig
  config_of_kind github name c = some c.github
  config_of_kind gitlab name c = some c.gitlab
  config_of_kind bitbucket name c = some c.bitbucket
  config_of_kind slack name c = some c.slack
  config_of_kind atlassian name c =
      if provider_config_set c.atlassian
      then some c.atlassian
      else if provider_config_set c.jira
      then some c.jira
      else none
  config_of_kind other name c = elim (lookup name c.extra) [
    | some cfg ↦ some cfg
    | none ↦ extra_named name c.extra
  ]

  -- ProviderConfigFor
  unfoldable pub provider_config_for : Text → AuthConfig → Option ProviderConfig
  unfolding config_of_kind
  provider_config_for provider c =
      let name = normalize_provider_name wide provider in config_of_kind (provider_kind name) name c

  -- Resolve of DefaultResolver: the provider and the installation. `installation_id` is
  -- InstallationIDFromPayload, with `none` for a payload that has no installation.
  unfoldable pub resolve_auth :
      (Text → Outcome (Option ℤ)) → AuthConfig → Text → Text → Outcome (Text × ℤ)
  resolve_auth installation_id c provider payload =
      elim (provider_kind (normalize_provider_name wide provider)) [
        | github ↦
            if is_zero c.github.app.app_id
              || (same c.github.app.private_key_path [] && same c.github.app.private_key_pem [])
            then fail (text "github app_id and private key are required" ∷ [])
            else elim (installation_id payload) [
              | fail e ↦ fail e
              | ok none ↦ fail (text "github installation id not found in payload" ∷ [])
              | ok (some id) ↦ ok (text "github", id)
            ]
        | _ ↦ fail (text "unsupported provider for auth resolution" ∷ [])
      ]
