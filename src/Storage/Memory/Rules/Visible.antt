-- ===== src/Storage/Memory/Rules/Visible.antt =====
-- mocks_rules.go of pkg/storage: what ListRules and GetRule see after the other operations.
use relaymesh.Prelude.{◌≡◌, ◌↔◌, ℕ, none, some, [], if◌then◌else◌, arith}
use relaymesh.Prelude.Text.{Text, same}
use relaymesh.Prelude.Table.{lookup-insert, lookup-remove}
use relaymesh.Storage.Records.{RuleRecord}
use relaymesh.Storage.Tenant.{Context}
use relaymesh.Storage.Memory.{visible, only}
use relaymesh.Storage.Memory.Keyed.{Has, IsKeyed, insert-IsKeyed, remove-IsKeyed, Has-select}
use relaymesh.Storage.Memory.Rules.{
  RuleMap, list_rules, get_rule, kept_rule, update_rule, create_rule, delete_rule,
}

abbrev id_of : RuleRecord → Text
id_of r = r.id

-- One operation on the store.
pub data RuleStep (m : RuleMap) : RuleMap → Type 0 where
  created :
      (ctx : Context) (stamp : Text) (t1 t2 : ℕ) (r : RuleRecord)
      → RuleStep m (create_rule ctx stamp t1 t2 r m).1
  updated : (ctx : Context) (t1 t2 : ℕ) (r : RuleRecord) → RuleStep m (update_rule ctx t1 t2 r m).1
  deleted : (ctx : Context) (id : Text) → RuleStep m (delete_rule ctx id m)

-- A store that operations made of the empty one.
pub data Reached : RuleMap → Type 0 where
  empty : Reached []
  next : {m n : RuleMap} → Reached m → RuleStep m n → Reached n

RuleStep-IsKeyed : {m n : RuleMap} → RuleStep m n → IsKeyed id_of m → IsKeyed id_of n
unfolding create_rule update_rule delete_rule kept_rule
RuleStep-IsKeyed (created ctx stamp t1 t2 r) h = insert-IsKeyed id_of _ _ h
RuleStep-IsKeyed (updated ctx t1 t2 r) h = insert-IsKeyed id_of _ _ h
RuleStep-IsKeyed (deleted ctx id) h = remove-IsKeyed id_of id _ h

Reached-IsKeyed : {m : RuleMap} → Reached m → IsKeyed id_of m
Reached-IsKeyed empty = tt
Reached-IsKeyed (next r st) = RuleStep-IsKeyed st (Reached-IsKeyed r)

-- After any operations on an empty store of rules, a tenant is listed exactly the rules that it gets
-- by their ids.
pub list_rules-get_rule :
    (m : RuleMap) (ctx : Context) (r : RuleRecord)
    → Reached m
    → Has r (list_rules ctx m) ↔ (get_rule ctx r.id m ≡ some r)
unfolding list_rules get_rule
list_rules-get_rule m ctx r h =
    Has-select id_of (λ s. visible ctx s.tenant_id) m r (Reached-IsKeyed h)

-- A rule that was created or updated is what its id gives from then on, to the contexts that see its
-- tenant, and nothing to others. A deleted rule is given to none. Other ids give what they gave.
pub get_rule_after :
    (ctx seen_by : Context) (stamp id : Text) (t1 t2 : ℕ) (r : RuleRecord) (m : RuleMap)
    → (let made = create_rule ctx stamp t1 t2 r m in
        get_rule seen_by id made.1 ≡ (
          if same made.0.id id
          then (if visible seen_by made.0.tenant_id then some made.0 else none)
          else get_rule seen_by id m))
      × (let made = update_rule ctx t1 t2 r m in
          get_rule seen_by id made.1 ≡ (
            if same made.0.id id
            then (if visible seen_by made.0.tenant_id then some made.0 else none)
            else get_rule seen_by id m))
      × (get_rule seen_by id (delete_rule ctx stamp m)
          ≡ (if same stamp id then none else get_rule seen_by id m))
unfolding get_rule create_rule update_rule delete_rule only
get_rule_after ctx seen_by stamp id t1 t2 r m =
    let c = kept_rule ctx t1 t2 (record r { id = if same r.id [] then stamp else r.id }) in
    let u = kept_rule ctx t1 t2 r in
    (
      ground (arith, lookup-insert c.id id c m),
      ground (arith, lookup-insert u.id id u m),
      ground (arith, lookup-remove stamp id m),
    )
