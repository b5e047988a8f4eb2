-- ===== src/Access/Tenants/Verified.antt =====
-- The interceptors of pkg/server: the tenant that a request is handled for.
use relaymesh.Prelude.{◌≡◌, sym, ap, ◌⊎◌, inl, inr, Bool, true, false, some, Bool-cases}
use relaymesh.Prelude.Text.{Text, trim_space, trim_space_idem, is_blank}
use relaymesh.Prelude.Outcome.{Outcome, ok, >>=-eq-ok}
use relaymesh.Storage.Tenant.{with_tenant, tenant_from_context}
use relaymesh.Access.Tenants.{
  RequestContext, Header, tenant_id_from_request, with_request_tenant, bearer_token, authenticate,
  intercept,
}

tenant_from_context-with_request_tenant :
    (allow : Bool) (ctx : RequestContext) (header : Header) (tenant : Text)
    → ctx.claims ≡ some tenant
    → is_blank tenant ≡ false
    → tenant_from_context (with_request_tenant allow ctx header).stored ≡ trim_space tenant
unfolding with_request_tenant tenant_id_from_request with_tenant tenant_from_context
tenant_from_context-with_request_tenant allow ctx header tenant h full =
    rw (h, tenant_id_from_request, full, with_request_tenant, trim_space_idem tenant)
      (rw full (trim_space_idem tenant))

-- Where tokens are verified, a request is let through only with a bearer token that the verifier
-- accepts. If the claims of the token name a tenant, the request is handled for that tenant, whatever
-- its headers say and whether or not they are allowed to name one.
pub intercept_verified :
    (equal_fold : Text → Text → Bool) (verify : Text → Outcome Text) (allow : Bool)
    (ctx next : RequestContext) (header : Header)
    → intercept equal_fold (some verify) allow ctx header ≡ ok next
    → (token : Text) × (tenant : Text) × (bearer_token equal_fold header ≡ ok token)
      × (verify token ≡ ok tenant)
      × ((is_blank tenant ≡ true) ⊎ (tenant_from_context next.stored ≡ trim_space tenant))
unfolding intercept authenticate
intercept_verified equal_fold verify allow ctx next header h =
    let (known, let_in, last) = >>=-eq-ok (authenticate equal_fold (some verify) ctx header) _ h in
    let (token, found, more) = >>=-eq-ok (bearer_token equal_fold header) _ let_in in
    let (tenant, accepted, made) = >>=-eq-ok (verify token) _ more in
    let same_known : record ctx { claims = some tenant } ≡ known = cc made in
    let same_next : with_request_tenant allow known header ≡ next = cc last in
    (
      token,
      tenant,
      found,
      accepted,
      elim (Bool-cases (is_blank tenant)) [
        | inl y ↦ inl y
        | inr n ↦ inr (
            rw⁻¹ same_next (
              tenant_from_context-with_request_tenant allow known header tenant
                (ap (λ c. c.claims) (sym same_known)) n))
      ],
    )
