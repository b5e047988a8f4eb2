-- ===== src/Drivers/Routing.antt =====
-- TenantPublisher of pkg/drivers/cache.go: each call goes to the publisher of its tenant.
pub mod Isolation
use relaymesh.Prelude.{
  Bool, true, false, not, ◌&&◌, Option, none, some, List, [], ◌∷◌, ◌++◌, is_empty, if◌then◌else◌,
}
use relaymesh.Prelude.Text.{Text, text, same}
use relaymesh.Prelude.Outcome.{Errors, Outcome, ok, fail}
use relaymesh.Core.Event.{Event}
use relaymesh.Core.Publisher.{Publisher, Brokers}
use relaymesh.Storage.Tenant.{Context, tenant_from_context}
use relaymesh.Drivers.Config.{Codecs}
use relaymesh.Drivers.Cache.{DriverCache, Left, publisher_for, close_cache}

-- TenantPublisher; `none` is nil.
pub record TenantPublisher (W : Type 0) : Type 0 where
  pub cache : Option (DriverCache W)
  pub fallback : Option (Publisher W)

-- What an operation leaves beside its result.
pub record Routed {ℓ} (W : Type 0) (A : Type ℓ) : Type ℓ where
  pub result : Outcome A
  pub router : TenantPublisher W
  pub world : W

module _ (W : Type 0) (net : Brokers W) (json : Codecs) where
  unfoldable pub or_fallback :
      Option (Publisher W) → Bool → Outcome (Publisher W) → Outcome (Publisher W)
  or_fallback fallback no_tenant (ok p) = ok p
  or_fallback none no_tenant (fail e) = fail e
  or_fallback (some p) no_tenant (fail e) = if no_tenant then ok p else fail e

  unfoldable pub only_fallback : Option (Publisher W) → Outcome (Publisher W)
  only_fallback none = fail (text "no publisher configured" ∷ [])
  only_fallback (some p) = ok p

  route_in : Option (DriverCache W) → Context → TenantPublisher W → W → Routed W (Publisher W)
  route_in none ctx t w = record { result = only_fallback t.fallback; router = t; world = w }
  route_in (some c) ctx t w =
      let found = publisher_for W net json ctx c w in
      record {
        result = or_fallback t.fallback (same (tenant_from_context ctx) []) found.result;
        router = record t { cache = some found.cache };
        world = found.world;
      }

  -- publisherFor
  unfoldable pub route : Context → TenantPublisher W → W → Routed W (Publisher W)
  unfolding route_in
  route ctx t w = route_in t.cache ctx t w

  unfoldable pub act_on :
      Routed W (Publisher W) → (Publisher W → W → Errors × W) → Errors × TenantPublisher W × W
  act_on r act = elim (r.result) [
    | fail e ↦ (e, r.router, r.world)
    | ok p ↦ ((act p r.world).0, r.router, (act p r.world).1)
  ]

  -- Publish
  unfoldable pub tenant_publish :
      Context → Text → Event → TenantPublisher W → W → Errors × TenantPublisher W × W
  tenant_publish ctx topic event t w = act_on (route ctx t w) (λ p. p.publish topic event)

  -- PublishForDrivers
  unfoldable pub tenant_publish_for_drivers :
      Context → Text → Event → List Text → TenantPublisher W → W → Errors × TenantPublisher W × W
  tenant_publish_for_drivers ctx topic event drivers t w =
      act_on (route ctx t w) (λ p. p.publish_for_drivers topic event drivers)

  close_option : Option (Publisher W) → W → Errors × W
  close_option none w = ([], w)
  close_option (some p) w = p.close w

  -- Close
  unfoldable pub tenant_close : TenantPublisher W → W → Errors × TenantPublisher W × W
  unfolding close_option
  tenant_close t w = elim (t.cache) [
    | none ↦ let closed = close_option t.fallback w in (closed.0, t, closed.1)
    | some c ↦
        let emptied = close_cache W net json c w in
        let closed = close_option t.fallback emptied.1 in
        (closed.0, record t { cache = some emptied.0 }, closed.1)
  ]
