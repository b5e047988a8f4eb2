-- ===== src/Storage/Memory.antt =====
-- The stores in memory of pkg/storage, mocks_*.go: what they have in common. A store is the map of its
-- records; the lock is left out. A time that an operation reads off the clock is an argument.
pub mod Keyed
pub mod Rules
pub mod Drivers
pub mod Installations
pub mod Namespaces
pub mod Logs
pub mod Analytics
pub mod Breakdown
pub mod Timeseries
use relaymesh.Prelude.{
  ◌≡◌, Bool, true, false, not, ◌||◌, ◌&&◌, Option, none, some, List, [], ◌∷◌, ◌==◌, ℕ,
  if◌then◌else◌,
}
use relaymesh.Prelude.Text.{Text, same}
use relaymesh.Prelude.Table.{Table}
use relaymesh.Storage.Tenant.{Context, tenant_from_context}

-- `if record.TenantID == "" { record.TenantID = TenantFromContext(ctx) }`
unfoldable pub own_tenant : Context → Text → Text
own_tenant ctx tenant_id = if same tenant_id [] then tenant_from_context ctx else tenant_id

-- Whether a record passes `wanted != "" && value != wanted`: the filter is empty, or it is the value.
unfoldable pub matches : Text → Text → Bool
matches wanted value = same wanted [] || same value wanted

-- Whether a record of a tenant is visible to the tenant of a context, or to the context without one.
unfoldable pub visible : Context → Text → Bool
unfolding matches
visible ctx tenant_id = matches (tenant_from_context ctx) tenant_id

-- `if t.IsZero() { t = now }`
unfoldable pub or_now : ℕ → ℕ → ℕ
or_now t now = if t == 0 then now else t

module _ {V : Type 0} where
  -- The values of a map that pass a test.
  unfoldable pub select : (V → Bool) → Table V → List V
  select test [] = []
  select test ((key, value) ∷ rest) =
      let others = select test rest in if test value then value ∷ others else others

  -- Deletes the keys whose values pass a test.
  unfoldable pub delete_where : (V → Bool) → Table V → Table V
  delete_where test [] = []
  delete_where test ((key, value) ∷ rest) =
      let others = delete_where test rest in if test value then others else (key, value) ∷ others

  -- The value if it passes a test.
  unfoldable pub only : (V → Bool) → Option V → Option V
  only test none = none
  only test (some value) = if test value then some value else none
