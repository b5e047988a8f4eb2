-- ===== src/Tests/Records.antt =====
-- Runs of the flattening of payloads, the metadata of messages, and the identifiers of records.
use relaymesh.Prelude.{ℕ, ◌+◌, ◌≡◌, refl, true, false, none, some, [], arith}
use relaymesh.Prelude.Text.{Text, text, same, to_lower, trim_space}
use relaymesh.Core.Value.{Value, Fields, bool, str, arr, nil, cons, end, field, get_field}
use relaymesh.Core.Flatten.{flatten}
use relaymesh.Core.Flatten.Paths.{PayloadHas}
use relaymesh.Core.Flatten.Entries.{flatten-PayloadHas}
use relaymesh.Prelude.Outcome.{ok, fail}
use relaymesh.Core.Publisher.{Publisher, RelayPublisher}
use relaymesh.Prelude.Table.{lookup, insert}
use relaymesh.Core.Publisher.Build.{kind_of, new_single_publisher}
use relaymesh.Core.Publisher.Retry.{retry_publisher_build, build_loop}
use relaymesh.Core.Publisher.Mux.{new_publisher, build_drivers}
use relaymesh.Drivers.Config.{config_from_driver, apply_driver_config}
use relaymesh.Drivers.Dynamic.{Fetched, dynamic_publisher}
use relaymesh.Drivers.Dynamic.Cached.{dynamic_publisher_cached}
use relaymesh.Tests.Samples.{counting, taking, to_nats, plain_codecs}
use relaymesh.Storage.Records.{NamespaceRecord, InstallRecord}
use relaymesh.Storage.Identity.Distinct.{Plain, namespace_parts, install_parts}

-- {"draft": false, "labels": ["bug"]}
abbrev payload : Fields
payload =
    field (text "draft") (bool false)
      (field (text "labels") (arr (cons (str (text "bug")) nil)) end)

abbrev no_digits : ℕ → Text
no_digits n = text "0"

flatten-PayloadHas_example :
    (get_field (text "labels[0]") (flatten no_digits payload) ≡ some (str (text "bug"))
      → PayloadHas no_digits (text "labels[0]") (str (text "bug")) payload)
    × (PayloadHas no_digits (text "labels[0]") (str (text "bug")) payload
        → (y : Value) × (get_field (text "labels[0]") (flatten no_digits payload) ≡ some y)
          × PayloadHas no_digits (text "labels[0]") y payload)
flatten-PayloadHas_example =
    flatten-PayloadHas no_digits payload (text "labels[0]") (str (text "bug"))

abbrev repository : NamespaceRecord
repository = record {
  id = [];
  tenant_id = text "t1";
  provider = text "hub";
  account_id = [];
  installation_id = [];
  provider_instance_key = text "k";
  repo_id = text "7";
  owner = [];
  repo_name = [];
  full_name = [];
  visibility = [];
  default_branch = [];
  http_url = [];
  ssh_url = [];
  webhooks_enabled = true;
  created_at = 0;
  updated_at = 0;
}

abbrev installation : InstallRecord
installation = record {
  id = [];
  tenant_id = text "t1";
  provider = text "hub";
  account_id = text "a";
  account_name = [];
  installation_id = text "7";
  provider_instance_key = [];
  enterprise_id = [];
  enterprise_slug = [];
  enterprise_name = [];
  access_token = [];
  refresh_token = [];
  expires_at = none;
  metadata_json = [];
  created_at = 0;
  updated_at = 0;
}

abbrev as_it_is : Text → Text
as_it_is t = t

-- The same repository id, with a space.
abbrev spaced : NamespaceRecord
spaced = record repository { repo_id = text " 7" }

repository-Plain : Plain (namespace_parts repository)
unfolding trim_space
repository-Plain = ground arith

spaced-Plain : Plain (namespace_parts spaced)
unfolding trim_space
spaced-Plain = ground arith

installation-Plain : Plain (install_parts installation)
unfolding trim_space
installation-Plain = ground arith

abbrev bus : RelayPublisher ℕ
bus = record { send = λ topic message w. ([], w + 1); shut = λ w. ([], w) }

-- A call for one driver, twice.
abbrev first_call : Fetched ℕ
first_call =
    dynamic_publisher ℕ counting plain_codecs as_it_is to_nats (text "nats") (text "nats://acme") []
      0

abbrev bus_of_acme : Publisher ℕ
bus_of_acme = elim (first_call.result) [ ok p ↦ p | fail e ↦ taking ]

dynamic_publisher_cached_example :
    dynamic_publisher ℕ counting plain_codecs as_it_is to_nats
      (text "nats")
      (text "nats://acme")
      first_call.cache
      5
    ≡ record { result = ok bus_of_acme; cache = first_call.cache; world = 5 }
unfolding dynamic_publisher same lookup config_from_driver to_lower trim_space apply_driver_config
    kind_of new_publisher build_drivers retry_publisher_build build_loop new_single_publisher insert
dynamic_publisher_cached_example =
    dynamic_publisher_cached ℕ counting plain_codecs as_it_is to_nats (text "nats")
      (text "nats://acme") [] 0 5 bus_of_acme refl
