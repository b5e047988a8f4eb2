-- ===== src/Tests/Routing.antt =====
-- Runs of the drivers of tenants.
use relaymesh.Prelude.{ℕ, ◌≡◌, ◌≢◌, refl, none, some, [], ◌∷◌}
use relaymesh.Prelude.Text.{text, trim_space}
use relaymesh.Prelude.Outcome.{ok, fail}
use relaymesh.Core.Relaybus.{RelaybusConfig}
use relaymesh.Storage.Tenant.{tenant_from_context}
use relaymesh.Drivers.Cache.{ListDrivers, DriverCache}
use relaymesh.Drivers.Cache.Refresh.{IsPaired}
use relaymesh.Prelude.Table.{lookup}
use relaymesh.Drivers.Routing.{tenant_publish}
use relaymesh.Drivers.Routing.Isolation.{tenant_publish_isolated}
use relaymesh.Tests.Samples.{push_event, counting, taking, to_nats, plain_codecs, nats_record}
use relaymesh.Tests.Samples.{acme}

-- The base has another URL, and the record replaces it.
abbrev loaded_config : RelaybusConfig
loaded_config = record to_nats {
  driver = [];
  drivers = text "nats" ∷ [];
  nats = record {
    url = text "nats://acme";
    subject_prefix = [];
    retry_count = to_nats.nats.retry_count;
  };
}

abbrev list_nats : ListDrivers ℕ
list_nats ctx w = (ok (nats_record ∷ []), w)

abbrev cache : DriverCache ℕ
cache = record { store = some list_nats; base = to_nats; config = []; pubs = [] }

-- The store does not answer.
abbrev list_down : ListDrivers ℕ
list_down ctx w = (fail (text "store down" ∷ []), w)

abbrev cut_off : DriverCache ℕ
cut_off = record {
  store = some list_down;
  base = to_nats;
  config = [];
  pubs = (text "acme", taking) ∷ [];
}

cache-IsPaired : IsPaired ℕ cache
unfolding lookup
cache-IsPaired = record { at = λ k. refl }

a_tenant : tenant_from_context acme ≢ []
unfolding tenant_from_context trim_space
a_tenant e = absurd (cc e)

tenant_publish_isolated_example :
    ((tenant_publish ℕ counting plain_codecs acme
        (text "t")
        push_event
        (record { cache = some cache; fallback = none })
        0).0
      ≡ (tenant_publish ℕ counting plain_codecs acme
          (text "t")
          push_event
          (record { cache = some cache; fallback = some taking })
          0).0)
    × ((tenant_publish ℕ counting plain_codecs acme
          (text "t")
          push_event
          (record { cache = some cache; fallback = none })
          0).2
        ≡ (tenant_publish ℕ counting plain_codecs acme
            (text "t")
            push_event
            (record { cache = some cache; fallback = some taking })
            0).2)
tenant_publish_isolated_example =
    tenant_publish_isolated ℕ counting plain_codecs acme (text "t") push_event cache none
      (some taking) 0 a_tenant
