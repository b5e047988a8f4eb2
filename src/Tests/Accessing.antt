-- ===== src/Tests/Accessing.antt =====
-- Runs of the interceptors, the state of OAuth, the instances of providers, the annotations of payloads
-- and the functions of expressions.
use relaymesh.Prelude.{
  ◌≡◌, ◌↔◌, refl, ap, false≢true, true, none, some, [], ◌∷◌, ◌⊎◌, if◌then◌else◌,
}
use relaymesh.Prelude.Text.{
  Text, text, same, trim_space, is_blank, to_lower, has_prefix, trim_prefix,
}
use relaymesh.Prelude.Table.{Table, lookup}
use relaymesh.Prelude.Outcome.{Outcome, ok}
use relaymesh.Core.Value.{Value, Fields, str, obj, end, field, get_field, set_field}
use relaymesh.Core.Resolve.{is_nil}
use relaymesh.Core.Functions.{contains_func}
use relaymesh.Core.Functions.Members.{Within, contains_func_iff}
use relaymesh.Storage.Records.{ProviderInstanceRecord}
use relaymesh.Storage.Tenant.{tenant_from_context, with_tenant}
use relaymesh.Access.Instances.{Configs, refresh_with}
use relaymesh.Access.Instances.Wire.{no_provider_config}
use relaymesh.Access.Instances.Refresh.{refresh_with_apart}
use relaymesh.Access.Tenants.{
  RequestContext, Header, intercept, authenticate, bearer_token, split_space, with_request_tenant,
  tenant_id_from_request,
}
use relaymesh.Access.Tenants.Verified.{intercept_verified}
use relaymesh.Webhook.Payload.{
  Formatting, annotate_payload, derive_fields, flat_ref, derive_git_ref, own_ref, annotate_fields,
  put_text, put_event, normalize_timestamp, data_string, first_text, value_text, type_name,
  type_of_name, provider_type_for, normalize_resource_type, normalize_git_ref,
}
use relaymesh.Webhook.Payload.Refs.{annotate_payload-IsRef}

contains_func_iff_example :
    (contains_func (str (text "refs/heads/main") ∷ str (text "main") ∷ []) ≡ ok true)
    ↔ Within (text "main") (text "refs/heads/main")
contains_func_iff_example = contains_func_iff (text "refs/heads/main") (text "main")

abbrev stranger : RequestContext
stranger = record { stored = record { tenant_value = none }; claims = none }

-- A token of acme, with a header that says beta.
abbrev headers : Header
headers name = if same name (text "Authorization") then text "Bearer secret" else text "beta"

abbrev known_token : Text → Outcome Text
known_token token = ok (text " acme ")

abbrev let_in : RequestContext
let_in = record {
  stored = record { tenant_value = some (text "acme") };
  claims = some (text " acme ");
}

intercept_verified_example :
    (token : Text) × (tenant : Text) × (bearer_token (λ a b. true) headers ≡ ok token)
    × (known_token token ≡ ok tenant)
    × ((is_blank tenant ≡ true) ⊎ (tenant_from_context let_in.stored ≡ trim_space tenant))
unfolding intercept authenticate bearer_token same trim_space split_space with_request_tenant
    tenant_id_from_request with_tenant
intercept_verified_example =
    intercept_verified (λ a b. true) known_token true stranger let_in headers refl

abbrev instance : ProviderInstanceRecord
instance = record {
  id = [];
  tenant_id = text "a";
  provider = text "github";
  key = text "k";
  config_json = [];
  redirect_base_url = [];
  enabled = true;
  created_at = 0;
  updated_at = 0;
}

abbrev configs_of_b : Table Configs
configs_of_b = (text "b", (text "github:k", no_provider_config) ∷ []) ∷ []

refresh_with_apart_example :
    lookup
      (text "b")
      (refresh_with (λ r. ok no_provider_config) (text "a") (ok (instance ∷ [])) configs_of_b).1
    ≡ lookup (text "b") configs_of_b
unfolding same
refresh_with_apart_example =
    refresh_with_apart (λ r. ok no_provider_config) (text "a") (text "b") (ok (instance ∷ []))
      configs_of_b (λ e. false≢true (ap (λ t. same t (text "b")) e)) refl

abbrev annotated_flat : Fields
annotated_flat = field (text "ref") (str (text "main")) end

abbrev as_text : Value → Text
as_text (str t) = t
as_text v = text "?"

abbrev plain : Formatting
plain = record { wide_lower = λ t. t; format_value = as_text; format_time = λ t. none }

annotate_payload-IsRef_example :
    (has_prefix (text "refs/heads/main") (text "refs/") ≡ true)
    × ((m : Fields) × ((annotate_payload plain (obj end) (some annotated_flat) [] []).flat ≡ some m)
        × (get_field (text "ref") m ≡ some (str (text "refs/heads/main"))))
    × ((m : Fields) × ((annotate_payload plain (obj end) (some annotated_flat) [] []).raw_object
          ≡ obj m)
        × (get_field (text "ref") m ≡ some (str (text "refs/heads/main"))))
unfolding flat_ref derive_git_ref own_ref get_field set_field annotate_fields put_text put_event
    same derive_fields normalize_timestamp trim_space data_string first_text value_text type_name
    type_of_name provider_type_for to_lower normalize_resource_type normalize_git_ref has_prefix
    trim_prefix is_nil
annotate_payload-IsRef_example =
    annotate_payload-IsRef plain end annotated_flat [] [] (text "refs/heads/main") refl
