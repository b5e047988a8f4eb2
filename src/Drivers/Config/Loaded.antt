-- ===== src/Drivers/Config/Loaded.antt =====
-- ConfigFromRecords of pkg/drivers/config.go: the drivers of the configuration.
use relaymesh.Prelude.{
  ◌≡◌, sym, ap, ◌∙◌, List, [], ◌∷◌, ◌++◌, append-nil, append_assoc, arith, if◌then◌else◌,
  Bool-cases, inl, inr,
}
use relaymesh.Prelude.Text.{Text, same, to_lower}
use relaymesh.Prelude.Outcome.{ok, >>=-eq-ok}
use relaymesh.Core.Relaybus.{RelaybusConfig}
use relaymesh.Core.Publisher.Build.{Kind, kafka_driver, kind_of}
use relaymesh.Storage.Records.{DriverRecord}
use relaymesh.Drivers.Config.{
  Codecs, apply_kind, apply_driver_config, active_name, apply_records, config_from_records,
}

module _ (json : Codecs) where
  apply_kind_names :
      (k : Kind) (name raw : Text) (cfg cfg' : RelaybusConfig)
      → apply_kind json k name raw cfg ≡ ok cfg'
      → (cfg'.drivers ≡ cfg.drivers)
        × (cfg'.driver ≡ cfg.driver)
        × (cfg'.dlq_driver ≡ cfg.dlq_driver)
  unfolding apply_kind
  apply_kind_names kafka_driver name raw cfg cfg' h = ground arith
  apply_kind_names _ name raw cfg cfg' h = ground arith

  -- The names of the records that are enabled and have a name, in order.
  abbrev pub active_names : List DriverRecord → List Text
  active_names [] = []
  active_names (r ∷ rs) =
      let rest = active_names rs in
      if same (active_name json r) [] then rest else active_name json r ∷ rest

  apply_records_names :
      (records : List DriverRecord) (cfg cfg' : RelaybusConfig)
      → apply_records json records cfg ≡ ok cfg'
      → (cfg'.drivers ≡ cfg.drivers ++ active_names records) × (cfg'.driver ≡ cfg.driver)
  unfolding apply_records
  apply_records_names [] cfg cfg' h =
      let e : cfg ≡ cfg' = cc in (rw (← e) (sym (append-nil cfg.drivers)), rw (← e))
  apply_records_names (r ∷ rs) cfg cfg' h = elim (Bool-cases (same (active_name json r) [])) [
    | inl y ↦ rw y (apply_records_names rs cfg cfg' (rw y at h))
    | inr n ↦
        let (applied, e, rest) =
          >>=-eq-ok (apply_driver_config json cfg (active_name json r) r.config_json)
            (λ (applied : RelaybusConfig).
              apply_records json rs
                (record applied { drivers = applied.drivers ++ (active_name json r ∷ []) }))
            (rw n at h) in
        let (names, single) =
          apply_records_names rs
            (record applied { drivers = applied.drivers ++ (active_name json r ∷ []) }) cfg' rest in
        let (kept, kept_single, _) =
          apply_kind_names (kind_of (to_lower json.wide_lower (active_name json r)))
            (active_name json r) r.config_json cfg applied (unfold apply_driver_config in e) in
        rw n (
          names
              ∙ ap (λ (ds : List Text). (ds ++ active_name json r ∷ []) ++ active_names rs) kept
              ∙ append_assoc cfg.drivers (active_name json r ∷ []) (active_names rs),
          single ∙ kept_single,
        )
  ]

-- Where ConfigFromRecords returns no error, its drivers are the names of the records that are
-- enabled and have a name, trimmed, in lower case and in order, whatever drivers the base had.
pub config_from_records_names :
    (json : Codecs) (base : RelaybusConfig) (records : List DriverRecord) (cfg : RelaybusConfig)
    → config_from_records json base records ≡ ok cfg
    → (cfg.drivers ≡ active_names json records) × (cfg.driver ≡ [])
unfolding config_from_records
config_from_records_names json base records cfg h = apply_records_names json records _ cfg h
