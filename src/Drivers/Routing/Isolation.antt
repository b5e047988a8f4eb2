-- ===== src/Drivers/Routing/Isolation.antt =====
-- TenantPublisher of pkg/drivers/cache.go: tenants and the fallback publisher.
use relaymesh.Prelude.{◌≡◌, ◌≢◌, refl, false, Option, none, some, []}
use relaymesh.Prelude.Text.{Text, same_ne}
use relaymesh.Prelude.Outcome.{Errors, Outcome, ok, fail}
use relaymesh.Core.Event.{Event}
use relaymesh.Core.Publisher.{Publisher, Brokers}
use relaymesh.Storage.Tenant.{Context, tenant_from_context}
use relaymesh.Drivers.Config.{Codecs}
use relaymesh.Drivers.Cache.{DriverCache, publisher_for}
use relaymesh.Drivers.Routing.{TenantPublisher, or_fallback, route, act_on, tenant_publish}

module _ (W : Type 0) (net : Brokers W) (json : Codecs) where
  or_fallback_tenant :
      (f : Option (Publisher W)) (o : Outcome (Publisher W)) → or_fallback W net json f false o ≡ o
  unfolding or_fallback
  or_fallback_tenant f (ok p) = refl
  or_fallback_tenant none (fail e) = refl
  or_fallback_tenant (some p) (fail e) = refl

  -- What is published does not depend on the router that is handed on.
  act_on_agrees :
      (o : Outcome (Publisher W)) (t u : TenantPublisher W) (w : W)
      (act : Publisher W → W → Errors × W)
      → ((act_on W net json (record { result = o; router = t; world = w }) act).0
          ≡ (act_on W net json (record { result = o; router = u; world = w }) act).0)
        × ((act_on W net json (record { result = o; router = t; world = w }) act).2
            ≡ (act_on W net json (record { result = o; router = u; world = w }) act).2)
  unfolding act_on
  act_on_agrees (ok p) t u w act = (refl, refl)
  act_on_agrees (fail e) t u w act = (refl, refl)

-- With a driver cache, what Publish returns and does for a context that has a tenant does not depend
-- on the fallback publisher: it is the same with any fallback and with none.
pub tenant_publish_isolated :
    (W : Type 0) (net : Brokers W) (json : Codecs) (ctx : Context) (topic : Text) (event : Event)
    (c : DriverCache W) (f g : Option (Publisher W)) (w : W)
    → tenant_from_context ctx ≢ []
    → ((tenant_publish W net json ctx topic event (record { cache = some c; fallback = f }) w).0
        ≡ (tenant_publish W net json ctx topic event (record { cache = some c; fallback = g }) w).0)
      × ((tenant_publish W net json ctx topic event (record { cache = some c; fallback = f }) w).2
          ≡ (tenant_publish W net json ctx topic event
              (record { cache = some c; fallback = g })
              w).2)
unfolding tenant_publish route
tenant_publish_isolated W net json ctx topic event c f g w h =
    let own = publisher_for W net json ctx c w in
    rw (same_ne (tenant_from_context ctx) [] h) (
      rw (or_fallback_tenant W net json f own.result, or_fallback_tenant W net json g own.result)
        (act_on_agrees W net json own.result (record { cache = some own.cache; fallback = f })
          (record { cache = some own.cache; fallback = g }) own.world (λ p. p.publish topic event)))
