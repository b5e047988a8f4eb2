-- ===== src/Worker/Clients.antt =====
-- scm_client_provider.go of sdk/go/worker: the provider of clients, with its cache of the clients that
-- were used last. A time is a number of nanoseconds, 0 for its zero value.
--
-- `order` is the list of elements, the front first, and the map `items` is the search of it for a key:
-- every step puts an element into both, or removes it from both.
pub mod Bounded
pub mod Recent
use relaymesh.Prelude.{
  ℕ, zero, suc, ◌+◌, ◌-◌, Bool, true, false, not, ◌&&◌, Option, none, some, List, [], ◌∷◌, ◌++◌,
  length, ltb, leb, ◌==◌, if◌then◌else◌,
}
use relaymesh.Prelude.Int.{ℤ, is_positive, is_negative, pos, rounds}
use relaymesh.Prelude.Text.{Text, text, same, trim_space, join}
use relaymesh.Prelude.Table.{lookup}
use relaymesh.Prelude.Outcome.{Errors, Outcome, ok, fail, ◌>>=◌}
use relaymesh.Worker.{CallContext, WorkerEvent, ApiClientConfig}
use relaymesh.Worker.Codec.{metadata_value}

-- scmCacheEntry
pub record Entry (C : Type 0) : Type 0 where
  pub key : Text
  pub client : C
  pub expires_at : ℕ

-- scmClientCache
pub record ClientCache (C : Type 0) : Type 0 where
  pub size : ℕ
  pub order : List (Entry C)

-- SCMClientRecord, as far as fetchClient reads it.
pub record ScmRecord : Type 0 where
  pub provider : Text
  pub access_token : Text
  pub api_base_url : Text
  pub expires_at : ℕ

-- expired: `now.After(expiresAt.Add(-skew))`
unfoldable pub expired : ℕ → ℕ → ℕ → Bool
expired now expires_at skew = if expires_at == 0 then false else ltb expires_at (now + skew)

module _ (C : Type 0) where
  -- newSCMClientCache
  unfoldable pub new_cache : ℤ → ClientCache C
  new_cache size = record { size = if is_positive size then rounds size else 1; order = [] }

  -- `c.items[key]`
  unfoldable pub find : Text → List (Entry C) → Option (Entry C)
  find key [] = none
  find key (e ∷ es) = if same e.key key then some e else find key es

  -- `c.order.Remove(elem)` with `delete(c.items, key)`
  unfoldable pub drop_key : Text → List (Entry C) → List (Entry C)
  drop_key key [] = []
  drop_key key (e ∷ es) = if same e.key key then es else e ∷ drop_key key es

  -- `c.order.Remove(c.order.Back())`
  unfoldable pub drop_last : List (Entry C) → List (Entry C)
  drop_last [] = []
  drop_last (e ∷ []) = []
  drop_last (e ∷ f ∷ es) = e ∷ drop_last (f ∷ es)

  -- The loop of Add, on fuel.
  unfoldable pub evict : ℕ → ℕ → List (Entry C) → List (Entry C)
  evict zero size order = order
  evict (suc fuel) size order =
      let rest = evict fuel size (drop_last order) in
      if ltb size (length order) then rest else order

  -- Get behind the search for the element.
  get_found : ℕ → Text → ℕ → ClientCache C → Option (Entry C) → Option C × ClientCache C
  get_found now key skew c none = (none, c)
  get_found now key skew c (some e) =
      if expired now e.expires_at skew
      then (none, record c { order = drop_key key c.order })
      else (some e.client, record c { order = e ∷ drop_key key c.order })

  -- Get, at a time.
  unfoldable pub cache_get : ℕ → Text → ℕ → ClientCache C → Option C × ClientCache C
  unfolding get_found
  cache_get now key skew c = get_found now key skew c (find key c.order)

  -- Add behind the search; one round for each element is more than the loop needs.
  add_found : Entry C → ClientCache C → Option (Entry C) → ClientCache C
  add_found e c (some old) = record c { order = e ∷ drop_key e.key c.order }
  add_found e c none = record c { order = evict (length c.order + 1) c.size (e ∷ c.order) }

  -- Add
  unfoldable pub cache_add : Text → C → ℕ → ClientCache C → ClientCache C
  unfolding add_found
  cache_add key client expires_at c =
      add_found (record { key = key; client = client; expires_at = expires_at }) c
        (find key c.order)

-- RemoteSCMClientProvider
pub record ScmProvider (C O : Type 0) : Type 0 where
  pub endpoint : Text
  pub api_key : Text
  pub oauth2 : Option O
  pub cache : ClientCache C
  pub skew : ℕ

-- What the event names: its provider, its installation and the key of the provider's instance.
unfoldable pub client_target : {C : Type 0} → WorkerEvent C → Outcome (Text × Text × Text)
client_target evt =
    let provider = trim_space evt.provider in
    let installation = trim_space (metadata_value evt.metadata (text "installation_id")) in
    let instance_key = trim_space (metadata_value evt.metadata (text "provider_instance_key")) in
    if same provider []
    then fail (text "provider is required" ∷ [])
    else if same installation []
    then fail (text "installation_id missing from metadata" ∷ [])
    else ok (provider, installation, instance_key)

-- `strings.Join([]string{provider, installationID, instanceKey}, "|")`
unfoldable pub client_key : Text × Text × Text → Text
client_key (provider, installation, instance_key) =
    join (provider ∷ installation ∷ instance_key ∷ []) (text "|")

module _ (C O : Type 0) where
  -- BindAPIClient; the HTTP client is left out.
  unfoldable pub bind_api_client : ApiClientConfig O → ScmProvider C O → ScmProvider C O
  bind_api_client cfg p = record p {
    endpoint = if same cfg.base_url [] then p.endpoint else cfg.base_url;
    api_key = if same cfg.api_key [] then p.api_key else cfg.api_key;
    oauth2 = elim (cfg.oauth2) [ none ↦ p.oauth2 | some o ↦ some o ];
  }

  -- The options of a provider.
  pub data ScmOption : Type 0 where
    with_scm_endpoint : Text → ScmOption
    with_scm_api_key : Text → ScmOption
    with_scm_oauth2_config : Option O → ScmOption
    with_scm_cache_size : ℤ → ScmOption
    with_scm_cache_skew : ℤ → ScmOption

  unfoldable pub apply_scm_option : ScmOption → ScmProvider C O → ScmProvider C O
  apply_scm_option (with_scm_endpoint endpoint) p = record p { endpoint = trim_space endpoint }
  apply_scm_option (with_scm_api_key key) p = record p { api_key = trim_space key }
  apply_scm_option (with_scm_oauth2_config cfg) p = record p { oauth2 = cfg }
  apply_scm_option (with_scm_cache_size size) p = record p {
    cache = new_cache C (if is_positive size then size else pos 1);
  }
  apply_scm_option (with_scm_cache_skew skew) p = record p {
    skew = if is_negative skew then 0 else rounds skew;
  }

  unfoldable pub apply_scm_options : List ScmOption → ScmProvider C O → ScmProvider C O
  apply_scm_options [] p = p
  apply_scm_options (o ∷ os) p = apply_scm_options os (apply_scm_option o p)

  -- NewRemoteSCMClientProvider
  unfoldable pub new_scm_provider : List ScmOption → ScmProvider C O
  new_scm_provider opts = apply_scm_options opts (record {
    endpoint = [];
    api_key = [];
    oauth2 = none;
    cache = new_cache C (pos 10);
    skew = 30_000_000_000;
  })

  module _ (W : Type 0) (now : W → ℕ)
      (get_scm_client : ScmProvider C O
        → CallContext
        → Text × Text × Text
        → W
        → Outcome ScmRecord × W)
      (new_provider_client : ScmRecord → Outcome (Option C)) where
    -- What fetchClient makes of the record that it gets.
    unfoldable pub made_client : ScmRecord → Outcome (Option C)
    made_client r =
        if same r.access_token []
        then fail (text "scm access token missing" ∷ [])
        else new_provider_client r

    -- Client behind a fetch: the client goes into the cache, unless it is nil.
    unfoldable pub keep_client :
        Text → ScmProvider C O → ScmRecord → Option C → Option C × ScmProvider C O
    keep_client key p r none = (none, p)
    keep_client key p r (some client) =
        (some client, record p { cache = cache_add C key client r.expires_at p.cache })

    -- fetchClient, and the rest of Client
    unfoldable pub fetch_client :
        Text → Outcome ScmRecord → ScmProvider C O → Outcome (Option C) × ScmProvider C O
    unfolding made_client keep_client
    fetch_client key (fail e) p = (fail e, p)
    fetch_client key (ok r) p = elim (made_client r) [
      | fail e ↦ (fail e, p)
      | ok client ↦ let (result, kept) = keep_client key p r client in (ok result, kept)
    ]

    -- Client for a target
    unfoldable pub client_of_target :
        CallContext
        → Text × Text × Text
        → ScmProvider C O
        → W
        → Outcome (Option C) × ScmProvider C O × W
    unfolding fetch_client
    client_of_target ctx target p world =
        let key = client_key target in
        let (cached, cache) = cache_get C (now world) key p.skew p.cache in
        let q = record p { cache = cache } in
        let (found, after) = get_scm_client q ctx target world in
        elim cached [
          | some client ↦ (ok (some client), q, world)
          | none ↦ let (result, kept) = fetch_client key found q in (result, kept, after)
        ]

    -- Client
    unfoldable pub scm_client :
        CallContext → WorkerEvent C → ScmProvider C O → W → Outcome (Option C) × ScmProvider C O × W
    unfolding client_of_target
    scm_client ctx evt p world = elim (client_target evt) [
      | fail e ↦ (fail e, p, world)
      | ok target ↦ client_of_target ctx target p world
    ]
