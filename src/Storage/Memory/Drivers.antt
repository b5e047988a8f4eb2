-- ===== src/Storage/Memory/Drivers.antt =====
-- mocks_drivers.go of pkg/storage: the drivers in memory, by their tenants and names.
pub mod Single
use relaymesh.Prelude.{ℕ, Bool, not, ◌&&◌, Option, none, some, List, [], ◌∷◌, ◌++◌, if◌then◌else◌}
use relaymesh.Prelude.Text.{Text, text, same, trim_space}
use relaymesh.Prelude.Table.{Table, lookup, insert, remove}
use relaymesh.Storage.Records.{DriverRecord}
use relaymesh.Storage.Tenant.{Context, tenant_from_context}
use relaymesh.Storage.Memory.{or_now, select, delete_where}

-- MockDriverStore
abbrev pub DriverMap : Type 0
DriverMap = Table DriverRecord

-- driverKey
unfoldable pub driver_key : Text → Text → Text
driver_key tenant_id name = tenant_id ++ (b'|' ∷ name)

-- ListDrivers
unfoldable pub list_drivers : Context → DriverMap → List DriverRecord
list_drivers ctx m = select (λ r. same r.tenant_id (tenant_from_context ctx)) m

-- GetDriver
unfoldable pub get_driver : Context → Text → DriverMap → Option DriverRecord
get_driver ctx name m = lookup (driver_key (tenant_from_context ctx) name) m

first_driver : List DriverRecord → Option DriverRecord
first_driver [] = none
first_driver (r ∷ rs) = some r

-- GetDriverByID
unfoldable pub get_driver_by_id : Context → Text → DriverMap → Option DriverRecord
unfolding first_driver
get_driver_by_id ctx id m =
    let wanted = trim_space id in
    if same wanted []
    then none
    else first_driver
        (select (λ r. same r.tenant_id (tenant_from_context ctx) && same r.id wanted) m)

-- The record as UpsertDriver stores it, from two readings of the clock.
unfoldable pub kept_driver : Context → ℕ → ℕ → DriverRecord → DriverRecord
kept_driver ctx t1 t2 r =
    let tenant_id = tenant_from_context ctx in
    let made_id = if same tenant_id [] then r.name else tenant_id ++ (b':' ∷ r.name) in
    record r {
      tenant_id = tenant_id;
      id = if same r.id [] then made_id else r.id;
      created_at = or_now r.created_at t1;
      updated_at = t2;
    }

-- UpsertDriver: the tenant's drivers of other names are deleted.
unfoldable pub upsert_driver : Context → ℕ → ℕ → DriverRecord → DriverMap → DriverRecord × DriverMap
upsert_driver ctx t1 t2 r m =
    let tenant_id = tenant_from_context ctx in
    let kept = kept_driver ctx t1 t2 r in
    let left = delete_where (λ s. same s.tenant_id tenant_id && not (same s.name kept.name)) m in
    (kept, insert (driver_key tenant_id kept.name) kept left)

-- DeleteDriver
unfoldable pub delete_driver : Context → Text → DriverMap → DriverMap
delete_driver ctx name m = remove (driver_key (tenant_from_context ctx) name) m
