-- ===== src/Core/Publisher/Mux/Made.antt =====
-- NewPublisherWithContext of pkg/core/publisher.go.
use relaymesh.Prelude.{
  ◌≡◌, refl, sym, ◌∙◌, subst, false, some, List, [], ◌∷◌, ◌++◌, is_empty, arith, Bool-cases, inl,
  inr, All, All-append,
}
use relaymesh.Prelude.Text.{Text, same, same_refl, trim_space, to_lower}
use relaymesh.Prelude.Table.{Table, lookup, insert, lookup-insert}
use relaymesh.Prelude.Outcome.{Outcome, ok, fail}
use relaymesh.Core.Relaybus.{RelaybusConfig}
use relaymesh.Core.Publisher.{Publisher, Brokers}
use relaymesh.Core.Publisher.Build.{configured_drivers}
use relaymesh.Core.Publisher.Mux.{
  PublisherMux, build_driver, build_drivers, none_available, new_publisher,
}

-- The multiplexer has a publisher.
abbrev pub IsKnown : (W : Type 0) → Table (Publisher W) → Text → Type 0
IsKnown W t key = (p : Publisher W) × (lookup key t ≡ some p)

-- Every default driver has a publisher, and there is a default driver where there is a publisher.
pub record IsWired (W : Type 0) (m : PublisherMux W) : Type 0 where
  pub known : All (IsKnown W m.publishers) m.default_drivers
  pub some_default : is_empty m.default_drivers ≡ is_empty m.publishers

module _ (W : Type 0) where
  IsKnown-insert :
      (t : Table (Publisher W)) (k key : Text) (p : Publisher W)
      → IsKnown W t key
      → IsKnown W (insert k p t) key
  IsKnown-insert t k key p (q, h) = elim (Bool-cases (same k key)) [
    | inl y ↦ (p, lookup-insert k key p t ∙ rw y)
    | inr n ↦ (q, lookup-insert k key p t ∙ rw n h)
  ]

  All-insert :
      (t : Table (Publisher W)) (k : Text) (p : Publisher W) (keys : List Text)
      → All (IsKnown W t) keys
      → All (IsKnown W (insert k p t)) keys
  All-insert t k p [] h = tt
  All-insert t k p (key ∷ keys) h = (IsKnown-insert t k key p h.0, All-insert t k p keys h.1)

  insert_full :
      (t : Table (Publisher W)) (k : Text) (p : Publisher W) → is_empty (insert k p t) ≡ false
  unfolding insert
  insert_full [] k p = refl
  insert_full ((j, q) ∷ t) k p = ground arith

  append_full : (xs : List Text) (x : Text) → is_empty (xs ++ x ∷ []) ≡ false
  append_full [] x = refl
  append_full (y ∷ ys) x = refl

  wire :
      (m : PublisherMux W) (key : Text) (p : Publisher W)
      → IsWired W m
      → IsWired W (record m {
        publishers = insert key p m.publishers;
        default_drivers = m.default_drivers ++ (key ∷ []);
      })
  wire m key p h = record {
    known =
        All-append (IsKnown W (insert key p m.publishers)) m.default_drivers (key ∷ [])
          (All-insert m.publishers key p m.default_drivers h.known)
          ((p, lookup-insert key key p m.publishers ∙ rw (same_refl key)), tt);
    some_default = append_full m.default_drivers key ∙ sym (insert_full m.publishers key p);
  }

module _ (W : Type 0) (net : Brokers W) (cfg : RelaybusConfig) where
  build_drivers-IsWired :
      (drivers : List Text) (m : PublisherMux W) (w : W)
      → IsWired W m
      → IsWired W (build_drivers W net cfg drivers m w).0
  unfolding build_drivers
  build_drivers-IsWired [] m w h = h
  build_drivers-IsWired (driver ∷ drivers) m w h =
      build_drivers-IsWired drivers _ _ (go (build_driver W net cfg driver w).0)
    where
      go :
          (o : Outcome (Publisher W))
          → IsWired W (elim o [
            | fail e ↦ m
            | ok p ↦ record m {
              publishers = insert (to_lower net.wide_lower driver) p m.publishers;
              default_drivers = m.default_drivers ++ (to_lower net.wide_lower driver ∷ []);
            }
          ])
      go (fail e) = h
      go (ok p) = wire W m (to_lower net.wide_lower driver) p h

none_available_ok :
    (W : Type 0) (net : Brokers W) (r : PublisherMux W × W) (m : PublisherMux W)
    → (none_available W net r).0 ≡ ok m
    → (r.0 ≡ m) × (is_empty r.0.publishers ≡ false)
unfolding none_available
none_available_ok W net (x, w) m h = elim (Bool-cases (is_empty x.publishers)) [
  | inl y ↦ absurd (cc (rw y at h))
  | inr n ↦ (let made : ok x ≡ ok m = rw n at h in cc, n)
]

-- A multiplexer that NewPublisherWithContext returns has a default driver at least, and each
-- default driver has a publisher.
pub new_publisher-IsWired :
    (W : Type 0) (net : Brokers W) (cfg : RelaybusConfig) (w : W) (m : PublisherMux W)
    → (new_publisher W net cfg w).0 ≡ ok m
    → All (IsKnown W m.publishers) m.default_drivers × (is_empty m.default_drivers ≡ false)
unfolding new_publisher
new_publisher-IsWired W net cfg w m h =
    let empty_mux : PublisherMux W = record {
      publishers = [];
      default_drivers = [];
      dlq_driver = to_lower net.wide_lower (trim_space cfg.dlq_driver);
    } in
    let built = build_drivers W net cfg (configured_drivers cfg) empty_mux w in
    let wired =
      build_drivers-IsWired W net cfg (configured_drivers cfg) empty_mux w
        (record { known = tt; some_default = refl }) in
    let (made, full) = none_available_ok W net built m h in
    subst
      (λ (x : PublisherMux W).
        All (IsKnown W x.publishers) x.default_drivers × (is_empty x.default_drivers ≡ false))
      made (wired.known, wired.some_default ∙ full)
