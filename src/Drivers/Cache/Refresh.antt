-- ===== src/Drivers/Cache/Refresh.antt =====
-- Refresh of pkg/drivers/cache.go: the entries of the cache.
use relaymesh.Prelude.{
  ◌≡◌, ◌≢◌, refl, sym, ◌∙◌, Bool, true, false, ◌&&◌, Option, none, some, List, [], is_empty, arith,
  Bool-cases, inl, inr,
}
use relaymesh.Prelude.Text.{Text, same, same_ne}
use relaymesh.Prelude.Table.{lookup, lookup-insert, lookup-remove}
use relaymesh.Prelude.Outcome.{Errors, Outcome, ok, fail}
use relaymesh.Core.Relaybus.{RelaybusConfig}
use relaymesh.Core.Publisher.{Brokers}
use relaymesh.Core.Publisher.Mux.{PublisherMux, mux_publisher, new_publisher}
use relaymesh.Storage.Records.{DriverRecord}
use relaymesh.Storage.Tenant.{Context}
use relaymesh.Drivers.Config.{Codecs, config_from_records}
use relaymesh.Drivers.Cache.{
  ListDrivers, DriverCache, cache_key, Left, install, with_config, refresh_tenant, with_records,
  refresh_from, refresh,
}

module _ (W : Type 0) where
  -- Two caches agree on every key but one.
  pub record SameBut (key : Text) (c d : DriverCache W) : Type 0 where
    pub pubs : (k : Text) → key ≢ k → lookup k c.pubs ≡ lookup k d.pubs
    pub config : (k : Text) → key ≢ k → lookup k c.config ≡ lookup k d.config

  SameBut-refl : (key : Text) (c : DriverCache W) → SameBut key c c
  SameBut-refl key c = record { pubs = λ k h. refl; config = λ k h. refl }

  -- A key has a configuration exactly if it has a publisher.
  abbrev is_some {ℓ} : {A : Type ℓ} → Option A → Bool
  is_some none = false
  is_some (some a) = true

  pub record IsPaired (c : DriverCache W) : Type 0 where
    pub at : (k : Text) → is_some (lookup k c.pubs) ≡ is_some (lookup k c.config)

module _ (W : Type 0) (net : Brokers W) (json : Codecs) where
  -- What an operation that refreshes one key guarantees: other keys keep what they have, an error
  -- changes nothing, and configurations and publishers go together.
  record Careful {ℓ} {A : Type ℓ} (key : Text) (c : DriverCache W) (r : Left W A) : Type ℓ where
    others : SameBut W key c r.cache
    unchanged : (e : Errors) → r.result ≡ fail e → r.cache ≡ c
    paired : IsPaired W c → IsPaired W r.cache

  install-Careful :
      (key : Text) (cfg : RelaybusConfig) (c : DriverCache W) (o : Outcome (PublisherMux W) × W)
      → Careful key c (install W net json key cfg c o)
  unfolding install
  install-Careful key cfg c (fail e, w) = record {
    others = SameBut-refl W key c;
    unchanged = λ e h. refl;
    paired = λ h. h;
  }
  install-Careful key cfg c (ok m, w) = record {
    others = record {
      pubs = λ k h. sym (lookup-insert key k (mux_publisher W net m) c.pubs ∙ rw (same_ne key k h));
      config = λ k h. sym (lookup-insert key k cfg c.config ∙ rw (same_ne key k h));
    };
    unchanged = λ e h. absurd (cc h);
    paired = λ h. record {
      at = λ k. ground (
        arith,
        lookup-insert key k (mux_publisher W net m) c.pubs,
        lookup-insert key k cfg c.config,
        h.at k,
      );
    };
  }

  with_config-Careful :
      (key : Text) (c : DriverCache W) (w : W) (o : Outcome RelaybusConfig)
      → Careful key c (with_config W net json key c w o)
  unfolding with_config
  with_config-Careful key c w (fail e) = record {
    others = SameBut-refl W key c;
    unchanged = λ e h. refl;
    paired = λ h. h;
  }
  with_config-Careful key c w (ok cfg) =
      elim (Bool-cases (is_empty cfg.drivers && same cfg.driver [])) [
        | inl none_left ↦ rw none_left (record {
          others = record {
            pubs = λ k h. sym (lookup-remove key k c.pubs ∙ rw (same_ne key k h));
            config = λ k h. sym (lookup-remove key k c.config ∙ rw (same_ne key k h));
          };
          unchanged = λ e h. absurd (cc h);
          paired = λ h. record {
            at = λ k.
                ground (arith, lookup-remove key k c.pubs, lookup-remove key k c.config, h.at k);
          };
        })
        | inr some_left ↦ rw some_left (install-Careful key cfg c (new_publisher W net cfg w))
      ]

  refresh_from-Careful :
      (o : Option (ListDrivers W)) (ctx : Context) (c : DriverCache W) (w : W)
      → Careful (cache_key ctx) c (refresh_from W net json o ctx c w)
  unfolding refresh_from with_records refresh_tenant
  refresh_from-Careful none ctx c w = record {
    others = SameBut-refl W (cache_key ctx) c;
    unchanged = λ e h. refl;
    paired = λ h. h;
  }
  refresh_from-Careful (some list) ctx c w = go (list ctx w)
    where
      go :
          (o : Outcome (List DriverRecord) × W)
          → Careful (cache_key ctx) c (with_records W net json (cache_key ctx) c o)
      go (fail e, v) = record {
        others = SameBut-refl W (cache_key ctx) c;
        unchanged = λ e h. refl;
        paired = λ h. h;
      }
      go (ok records, v) =
          with_config-Careful (cache_key ctx) c v (config_from_records json c.base records)

-- A refresh changes the publishers and configurations of the context's own tenant alone.
pub refresh_tenants_apart :
    (W : Type 0) (net : Brokers W) (json : Codecs) (ctx : Context) (c : DriverCache W) (w : W)
    → SameBut W (cache_key ctx) c (refresh W net json ctx c w).cache
unfolding refresh
refresh_tenants_apart W net json ctx c w = (refresh_from-Careful W net json c.store ctx c w).others

-- A refresh that returns an error, of the store, of a configuration or of the brokers, leaves the
-- cache as it was.
pub refresh_error :
    (W : Type 0) (net : Brokers W) (json : Codecs) (ctx : Context) (c : DriverCache W) (w : W)
    (e : Errors)
    → (refresh W net json ctx c w).result ≡ fail e
    → (refresh W net json ctx c w).cache ≡ c
unfolding refresh
refresh_error W net json ctx c w = (refresh_from-Careful W net json c.store ctx c w).unchanged

-- Where each key has a configuration exactly if it has a publisher, a refresh keeps this so.
pub refresh-IsPaired :
    (W : Type 0) (net : Brokers W) (json : Codecs) (ctx : Context) (c : DriverCache W) (w : W)
    → IsPaired W c
    → IsPaired W (refresh W net json ctx c w).cache
unfolding refresh
refresh-IsPaired W net json ctx c w = (refresh_from-Careful W net json c.store ctx c w).paired
