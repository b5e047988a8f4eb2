-- ===== src/Webhook/Payload.antt =====
-- pkg/webhook/event_normalize.go and payload_helpers.go, with ProviderTypeFor of
-- pkg/providers/contracts.go: the fields that every event is given. `format_value` is fmt.Sprintf with
-- "%v", `format_time` is what time.Parse and Format make of a time of RFC 3339, and `wide_lower` is
-- strings.ToLower beyond ASCII.
pub mod Found
pub mod Refs
use relaymesh.Prelude.{
  ℕ, Bool, true, false, not, ◌&&◌, ◌||◌, Option, none, some, List, [], ◌∷◌, ◌++◌, map, ◌==◌,
  if◌then◌else◌,
}
use relaymesh.Prelude.Text.{Text, text, same, trim_space, to_lower, has_prefix, trim_prefix}
use relaymesh.Prelude.Outcome.{Outcome, ok, fail}
use relaymesh.Core.Value.{Value, Fields, null, str, obj, end, get_field, set_field}
use relaymesh.Core.Resolve.{is_nil}

pub record Formatting : Type 0 where
  pub wide_lower : Text → Text
  pub format_value : Value → Text
  pub format_time : Text → Option Text

-- normalizedEventFields
pub record NormalizedFields : Type 0 where
  pub provider_type : Text
  pub event_type : Text
  pub action : Text
  pub resource_type : Text
  pub resource_id : Text
  pub resource_name : Text
  pub actor_id : Text
  pub actor_name : Text
  pub occurred_at : Text

-- Type, with its three values as text
pub data ProviderType : Type 0 where
  unknown scm collaboration : ProviderType

unfoldable pub type_name : ProviderType → Text
type_name unknown = text "unknown"
type_name scm = text "scm"
type_name collaboration = text "collaboration"

-- definitionByProvider, its type alone, by the name in lower case
unfoldable pub type_of_name : Text → ProviderType
type_of_name name =
    if same name (text "github") || same name (text "gitlab") || same name (text "bitbucket")
    then scm
    else if same name (text "slack") || same name (text "jira") || same name (text "atlassian")
    then collaboration
    else unknown

-- strings.ReplaceAll of "." and of ":" by "_", on one byte
unfoldable pub resource_byte : ℕ → ℕ
resource_byte c = if c == b'.' || c == b':' then b'_' else c

module _ (fmt : Formatting) where
  -- ProviderTypeFor
  unfoldable pub provider_type_for : Text → ProviderType
  provider_type_for name = type_of_name (to_lower fmt.wide_lower (trim_space name))

  -- normalizeResourceType
  unfoldable pub normalize_resource_type : Text → Text
  normalize_resource_type event_name =
      map resource_byte (trim_space (to_lower fmt.wide_lower event_name))

  -- The text of a value, "" where dataString goes on to the next key.
  unfoldable pub value_text : Option Value → Text
  value_text none = []
  value_text (some value) =
      let trimmed = trim_space (fmt.format_value value) in
      if is_nil value || same trimmed (text "<nil>") then [] else trimmed

  -- The loop of dataString.
  unfoldable pub first_text : Fields → List Text → Text
  first_text fields [] = []
  first_text fields (key ∷ keys) =
      let rest = first_text fields keys in
      let found = value_text (get_field key fields) in if same found [] then rest else found

  -- dataString
  unfoldable pub data_string : Option Fields → List Text → Text
  data_string none keys = []
  data_string (some fields) keys = first_text fields keys

  -- normalizeTimestamp
  unfoldable pub normalize_timestamp : Text → Text
  normalize_timestamp value =
      let trimmed = trim_space value in
      if same trimmed []
      then []
      else elim (fmt.format_time trimmed) [ some formatted ↦ formatted | none ↦ trimmed ]

  -- deriveNormalizedEventFields
  unfoldable pub derive_fields : Text → Text → Option Fields → NormalizedFields
  derive_fields provider event_name fields =
      let event = trim_space event_name in
      record {
        provider_type = type_name (provider_type_for (trim_space provider));
        event_type = event;
        resource_type = normalize_resource_type event;
        action =
            data_string fields
              (text "action" ∷ text "object_attributes.action" ∷ text "event.action" ∷ []);
        resource_id = data_string fields (
            text "repository.id"
            ∷ text "pull_request.id"
            ∷ text "issue.id"
            ∷ text "merge_request.id"
            ∷ text "object_attributes.id"
            ∷ text "project.id"
            ∷ text "resource.id"
            ∷ []);
        resource_name = data_string fields (
            text "repository.full_name"
            ∷ text "repository.name"
            ∷ text "project.path_with_namespace"
            ∷ text "project.path"
            ∷ text "resource.name"
            ∷ []);
        actor_id = data_string fields (text "sender.id" ∷ text "user.id" ∷ text "actor.id" ∷ []);
        actor_name = data_string fields (
            text "sender.login"
            ∷ text "sender.username"
            ∷ text "user.username"
            ∷ text "user.name"
            ∷ text "actor.username"
            ∷ text "actor.display_name"
            ∷ []);
        occurred_at = normalize_timestamp (
            data_string fields (
              text "head_commit.timestamp"
              ∷ text "repository.updated_at"
              ∷ text "pull_request.updated_at"
              ∷ text "issue.updated_at"
              ∷ text "object_attributes.updated_at"
              ∷ text "object_attributes.created_at"
              ∷ text "event.timestamp"
              ∷ []));
      }

  -- normalizeGitRef
  unfoldable pub normalize_git_ref : Text → Option Text
  normalize_git_ref value =
      let trimmed = trim_space value in
      if same trimmed []
      then none
      else if has_prefix trimmed (text "refs/")
      then some trimmed
      else some (text "refs/heads/" ++ trim_prefix trimmed (text "refs/heads/"))

  -- The reference of one of the candidates; a null is passed over.
  unfoldable pub candidate_ref : Option Value → Option Text
  candidate_ref none = none
  candidate_ref (some value) =
      if is_nil value then none else normalize_git_ref (fmt.format_value value)

  unfoldable pub first_ref : Fields → List Text → Option Text
  first_ref fields [] = none
  first_ref fields (key ∷ keys) =
      let rest = first_ref fields keys in
      elim (candidate_ref (get_field key fields)) [ some ref ↦ some ref | none ↦ rest ]

  -- The reference under "ref", of any value that is there.
  unfoldable pub own_ref : Option Value → Option Text
  own_ref none = none
  own_ref (some value) = normalize_git_ref (fmt.format_value value)

  -- deriveGitRef
  unfoldable pub derive_git_ref : Option Fields → Option Text
  derive_git_ref none = none
  derive_git_ref (some fields) =
      let candidates = first_ref fields (
        text "check_suite.head_branch"
        ∷ text "check_suite.head_ref"
        ∷ text "workflow_run.head_branch"
        ∷ text "workflow_run.head_ref"
        ∷ text "push.ref"
        ∷ []) in
      elim (own_ref (get_field (text "ref") fields)) [ some ref ↦ some ref | none ↦ candidates ]

-- `if value != "" { m[key] = value }`
unfoldable pub put_text : Text → Text → Fields → Fields
put_text key value m = if same value [] then m else set_field key (str value) m

-- `if eventName != ""`: the event, and its type.
unfoldable pub put_event : Text → Text → Fields → Fields
put_event event event_type m =
    if same event []
    then m
    else set_field (text "event_type") (str event_type) (set_field (text "event") (str event) m)

-- The fields that annotatePayload writes into both maps, in its order.
unfoldable pub annotate_fields : Text → Text → NormalizedFields → Fields → Fields
unfolding put_text put_event
annotate_fields provider event n m = put_text (text "occurred_at") n.occurred_at (
    put_text (text "actor_name") n.actor_name (
      put_text (text "actor_id") n.actor_id (
        put_text (text "resource_name") n.resource_name (
          put_text (text "resource_id") n.resource_id (
            put_text (text "resource_type") n.resource_type (
              put_text (text "action") n.action (
                put_text (text "provider_type") n.provider_type
                  (put_event event n.event_type (put_text (text "provider") provider m)))))))))

-- `m["ref"] = ref`
unfoldable pub put_ref : Option Text → Fields → Fields
put_ref none m = m
put_ref (some ref) m = set_field (text "ref") (str ref) m

-- What annotatePayload leaves: the raw object, the flat map, and the fields.
pub record Annotated : Type 0 where
  pub raw_object : Value
  pub flat : Option Fields
  pub normalized : NormalizedFields

module _ (fmt : Formatting) where
  -- The flat map behind the annotations.
  unfoldable pub annotate_flat : Text → Text → NormalizedFields → Option Fields → Option Fields
  annotate_flat provider event n none = none
  annotate_flat provider event n (some m) =
      let annotated = annotate_fields provider event n m in
      some (put_ref (derive_git_ref fmt (some annotated)) annotated)

  -- `refValue`, if there is one
  unfoldable pub flat_ref : Text → Text → NormalizedFields → Option Fields → Option Text
  flat_ref provider event n none = none
  flat_ref provider event n (some m) =
      derive_git_ref fmt (some (annotate_fields provider event n m))

  -- The raw object; where the flat map gave no reference, it is asked again.
  unfoldable pub annotate_object :
      Text → Text → NormalizedFields → Option Text → Option Fields → Value → Value
  annotate_object provider event n ref flat (obj m) =
      let found : Option Text = elim ref [ some r ↦ some r | none ↦ derive_git_ref fmt flat ] in
      obj (put_ref found (annotate_fields provider event n m))
  annotate_object provider event n ref flat value = value

  -- annotatePayload
  unfoldable pub annotate_payload : Value → Option Fields → Text → Text → Annotated
  annotate_payload raw_object flat provider event_name =
      let p = trim_space provider in
      let e = trim_space event_name in
      let n = derive_fields fmt p e flat in
      let annotated = annotate_flat p e n flat in
      record {
        raw_object = annotate_object p e n (flat_ref p e n flat) annotated raw_object;
        flat = annotated;
        normalized = n;
      }
