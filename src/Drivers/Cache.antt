-- ===== src/Drivers/Cache.antt =====
-- pkg/drivers/cache.go, over pkg/cache/tenant_cache.go: the publishers of the tenants.
--
-- The two tenant caches are tables: Get is `lookup`, Set is `insert`, and Delete is `remove`. A
-- cached publisher is never nil, as NewPublisherWithContext returns none without an error. The
-- logger is left out.
pub mod Refresh
use relaymesh.Prelude.{
  Bool, true, false, not, ◌&&◌, Option, none, some, List, [], ◌∷◌, ◌++◌, is_empty, if◌then◌else◌,
}
use relaymesh.Prelude.Text.{Text, text, same}
use relaymesh.Prelude.Table.{Table, lookup, insert, remove}
use relaymesh.Prelude.Outcome.{Errors, Outcome, ok, fail}
use relaymesh.Core.Relaybus.{RelaybusConfig}
use relaymesh.Core.Publisher.{Publisher, Brokers}
use relaymesh.Core.Publisher.Mux.{PublisherMux, mux_publisher, new_publisher}
use relaymesh.Storage.Records.{DriverRecord}
use relaymesh.Storage.Tenant.{Context, tenant_from_context}
use relaymesh.Drivers.Config.{Codecs, config_from_records}

-- ListDrivers of a storage.DriverStore
abbrev pub ListDrivers : Type 0 → Type 0
ListDrivers W = Context → W → Outcome (List DriverRecord) × W

-- Cache; a store that is nil is `none`.
pub record DriverCache (W : Type 0) : Type 0 where
  pub store : Option (ListDrivers W)
  pub base : RelaybusConfig
  pub config : Table RelaybusConfig
  pub pubs : Table (Publisher W)

-- cacheKeyFromContext, with globalDriverKey
unfoldable pub cache_key : Context → Text
cache_key ctx =
    let tenant_id = tenant_from_context ctx in
    if same tenant_id [] then text "global" else tenant_id

-- What an operation of the cache leaves beside its result.
pub record Left {ℓ} (W : Type 0) (A : Type ℓ) : Type ℓ where
  pub result : Outcome A
  pub cache : DriverCache W
  pub world : W

module _ (W : Type 0) (net : Brokers W) (json : Codecs) where
  -- Closes the publisher of a key, if there is one; its error is dropped.
  close_existing : Option (Publisher W) → W → W
  close_existing none w = w
  close_existing (some p) w = (p.close w).1

  install : Text → RelaybusConfig → DriverCache W → Outcome (PublisherMux W) × W → Left W (Unit {0})
  install key cfg c (fail e, w) = record { result = fail e; cache = c; world = w }
  install key cfg c (ok m, w) = record {
    result = ok tt;
    cache = record c {
      config = insert key cfg c.config;
      pubs = insert key (mux_publisher W net m) c.pubs;
    };
    world = close_existing (lookup key c.pubs) w;
  }

  with_config : Text → DriverCache W → W → Outcome RelaybusConfig → Left W (Unit {0})
  with_config key c w (fail e) = record { result = fail e; cache = c; world = w }
  with_config key c w (ok cfg) =
      if is_empty cfg.drivers && same cfg.driver []
      then record {
        result = ok tt;
        cache = record c { config = remove key c.config; pubs = remove key c.pubs };
        world = close_existing (lookup key c.pubs) w;
      }
      else install key cfg c (new_publisher W net cfg w)

  -- refreshTenant
  unfoldable pub refresh_tenant : Text → List DriverRecord → DriverCache W → W → Left W (Unit {0})
  unfolding with_config install close_existing
  refresh_tenant key records c w = with_config key c w (config_from_records json c.base records)

  with_records : Text → DriverCache W → Outcome (List DriverRecord) × W → Left W (Unit {0})
  with_records key c (fail e, w) = record { result = fail e; cache = c; world = w }
  with_records key c (ok records, w) = refresh_tenant key records c w

  refresh_from : Option (ListDrivers W) → Context → DriverCache W → W → Left W (Unit {0})
  refresh_from none ctx c w = record { result = ok tt; cache = c; world = w }
  refresh_from (some list) ctx c w = with_records (cache_key ctx) c (list ctx w)

  -- Refresh
  unfoldable pub refresh : Context → DriverCache W → W → Left W (Unit {0})
  unfolding refresh_from with_records refresh_tenant
  refresh ctx c w = refresh_from c.store ctx c w

  after_refresh : Text → Left W (Unit {0}) → Left W (Publisher W)
  after_refresh key r = elim (r.result) [
    | fail e ↦ record { result = fail e; cache = r.cache; world = r.world }
    | ok _ ↦ elim (lookup key r.cache.pubs) [
      | some p ↦ record { result = ok p; cache = r.cache; world = r.world }
      | none ↦ record {
        result = fail (text "no publisher available" ∷ []);
        cache = r.cache;
        world = r.world;
      }
    ]
  ]

  load_publisher : Option (ListDrivers W) → Context → DriverCache W → W → Left W (Publisher W)
  load_publisher none ctx c w = record {
    result = fail (text "driver store not configured" ∷ []);
    cache = c;
    world = w;
  }
  load_publisher (some list) ctx c w = after_refresh (cache_key ctx) (refresh ctx c w)

  -- PublisherFor
  unfoldable pub publisher_for : Context → DriverCache W → W → Left W (Publisher W)
  unfolding load_publisher after_refresh
  publisher_for ctx c w = elim (lookup (cache_key ctx) c.pubs) [
    | some p ↦ record { result = ok p; cache = c; world = w }
    | none ↦ load_publisher c.store ctx c w
  ]

  close_pubs : Table (Publisher W) → W → W
  close_pubs [] w = w
  close_pubs ((key, p) ∷ rest) w = close_pubs rest (p.close w).1

  drop_keys : Table (Publisher W) → Table RelaybusConfig → Table RelaybusConfig
  drop_keys [] config = config
  drop_keys ((key, p) ∷ rest) config = drop_keys rest (remove key config)

  -- Close: it deletes every key that it met.
  unfoldable pub close_cache : DriverCache W → W → DriverCache W × W
  unfolding close_pubs drop_keys
  close_cache c w =
      (record c { config = drop_keys c.pubs c.config; pubs = [] }, close_pubs c.pubs w)
