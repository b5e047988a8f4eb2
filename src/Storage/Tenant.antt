-- ===== src/Storage/Tenant.antt =====
-- pkg/storage/tenant.go and ResolveTenant of pkg/storage/query.go: the tenant of a context.
use relaymesh.Prelude.{◌≡◌, refl, sym, Option, none, some, [], if◌then◌else◌, Bool-cases, inl, inr}
use relaymesh.Prelude.Text.{Text, same, trim_space, trim_space_idem, is_blank}

-- A context.Context, as far as it holds a value under `tenantKey{}`.
pub record Context : Type 0 where
  pub tenant_value : Option Text

-- WithTenant
unfoldable pub with_tenant : Context → Text → Context
with_tenant ctx tenant_id =
    let trimmed = trim_space tenant_id in
    if same trimmed [] then ctx else record { tenant_value = some trimmed }

-- TenantFromContext; the nil context holds no value.
unfoldable pub tenant_from_context : Context → Text
tenant_from_context ctx = elim (ctx.tenant_value) [ some value ↦ trim_space value | none ↦ [] ]

-- ResolveTenant
unfoldable pub resolve_tenant : Context → Text → Text
unfolding tenant_from_context
resolve_tenant ctx explicit =
    let trimmed = trim_space explicit in
    if same trimmed [] then tenant_from_context ctx else trimmed

-- A context that was given a tenant has it, trimmed; a blank tenant leaves the context's own. An
-- explicit tenant is resolved like one that the context was given.
pub tenant_from_context-with_tenant :
    (ctx : Context) (t : Text)
    → (tenant_from_context (with_tenant ctx t)
        ≡ (if is_blank t then tenant_from_context ctx else trim_space t))
      × (resolve_tenant ctx t ≡ tenant_from_context (with_tenant ctx t))
unfolding tenant_from_context with_tenant resolve_tenant
tenant_from_context-with_tenant ctx t = elim (Bool-cases (same (trim_space t) [])) [
  | inl y ↦ rw y (refl, refl)
  | inr n ↦ rw n (trim_space_idem t, sym (trim_space_idem t))
]
