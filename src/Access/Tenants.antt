-- ===== src/Access/Tenants.antt =====
-- The interceptors of pkg/server, tenant_interceptor.go and auth_interceptor.go: what a request to the
-- API is let through with. The verifier of tokens is a parameter.
pub mod Verified
use relaymesh.Prelude.{
  ℕ, Bool, true, false, not, ◌&&◌, Option, none, some, List, [], ◌∷◌, ◌==◌, if◌then◌else◌,
}
use relaymesh.Prelude.Text.{Text, text, same, trim_space, is_blank, to_lower}
use relaymesh.Prelude.Outcome.{Errors, Outcome, ok, fail, ◌>>=◌}
use relaymesh.Storage.Tenant.{Context, with_tenant}

-- The context of a request: the one of pkg/storage, and the tenant of the claims under
-- `authContextKey{}`, if there are any.
pub record RequestContext : Type 0 where
  pub stored : Context
  pub claims : Option Text

-- http.Header's Get, "" for a header that is missing.
abbrev pub Header : Type 0
Header = Text → Text

-- The value of a header, without the spaces around it.
unfoldable pub header_value : Header → Text → Text
header_value header name = trim_space (header name)

-- tenantIDFromRequest behind the claims
unfoldable pub tenant_from_header : Bool → Header → Text
unfolding header_value
tenant_from_header false header = []
tenant_from_header true header =
    let tenant_id = header_value header (text "X-Tenant-ID") in
    if same tenant_id [] then header_value header (text "X-Githooks-Tenant-ID") else tenant_id

-- tenantIDFromRequest
unfoldable pub tenant_id_from_request : Bool → RequestContext → Header → Text
tenant_id_from_request allow_header ctx header = elim (ctx.claims) [
  | none ↦ tenant_from_header allow_header header
  | some tenant_id ↦
      let trimmed = trim_space tenant_id in
      if same trimmed [] then tenant_from_header allow_header header else trimmed
]

-- The context that newTenantInterceptor calls the next handler with.
unfoldable pub with_request_tenant : Bool → RequestContext → Header → RequestContext
with_request_tenant allow_header ctx header =
    let tenant_id = tenant_id_from_request allow_header ctx header in
    if same tenant_id [] then ctx else record ctx { stored = with_tenant ctx.stored tenant_id }

-- The parts of strings.SplitN(s, " ", 2): what stands before the first space, and what stands behind it.
unfoldable pub split_space : Text → Text × Option Text
split_space [] = ([], none)
split_space (c ∷ cs) =
    let rest = split_space cs in if c == b' ' then ([], some cs) else (c ∷ rest.0, rest.1)

-- bearerToken; `equal_fold` is strings.EqualFold.
unfoldable pub bearer_token : (Text → Text → Bool) → Header → Outcome Text
unfolding header_value
bearer_token equal_fold header =
    let raw = header_value header (text "Authorization") in
    if same raw []
    then fail (text "missing authorization header" ∷ [])
    else elim ((split_space raw).1) [
      | none ↦ fail (text "invalid authorization header" ∷ [])
      | some token ↦
          if not (equal_fold (split_space raw).0 (text "bearer"))
          then fail (text "invalid authorization header" ∷ [])
          else if is_blank token
          then fail (text "missing bearer token" ∷ [])
          else ok (trim_space token)
    ]

-- The context that newAuthInterceptor calls the next handler with, or the error of a request that is
-- not authenticated. `verify` gives the tenant of the claims; a nil verifier is `none`.
unfoldable pub authenticate :
    (Text → Text → Bool)
    → Option (Text → Outcome Text)
    → RequestContext
    → Header
    → Outcome RequestContext
authenticate equal_fold none ctx header = ok ctx
authenticate equal_fold (some verify) ctx header = do
  token ← bearer_token equal_fold header
  tenant_id ← verify token
  ok (record ctx { claims = some tenant_id })

-- Both interceptors, in the order in which the server installs them.
unfoldable pub intercept :
    (Text → Text → Bool)
    → Option (Text → Outcome Text)
    → Bool
    → RequestContext
    → Header
    → Outcome RequestContext
intercept equal_fold verifier allow_header ctx header = do
  known ← authenticate equal_fold verifier ctx header
  ok (with_request_tenant allow_header known header)
