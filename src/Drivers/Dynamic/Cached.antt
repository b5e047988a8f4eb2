-- ===== src/Drivers/Dynamic/Cached.antt =====
-- Publisher of pkg/drivers/dynamic_cache.go: repeated calls.
use relaymesh.Prelude.{◌≡◌, refl, ap, ◌∙◌, Option, none, some, [], Bool-cases, inl, inr}
use relaymesh.Prelude.Text.{Text, same, same_refl}
use relaymesh.Prelude.Table.{lookup, lookup-insert}
use relaymesh.Prelude.Outcome.{Outcome, ok, fail}
use relaymesh.Core.Relaybus.{RelaybusConfig}
use relaymesh.Core.Publisher.{Publisher, Brokers}
use relaymesh.Core.Publisher.Mux.{PublisherMux, mux_publisher, new_publisher}
use relaymesh.Drivers.Config.{Codecs, config_from_driver}
use relaymesh.Drivers.Dynamic.{
  DynamicCache, Fetched, dynamic_key, dynamic_publisher, fetch, make, remember,
}

module _ (W : Type 0) (net : Brokers W) (json : Codecs) (sha256_hex : Text → Text)
    (blank : RelaybusConfig) where
  -- What is returned is also what the cache has under the key.
  abbrev Kept : Text → Fetched W → Type 0
  Kept key f = (p : Publisher W) → f.result ≡ ok p → lookup key f.cache ≡ some p

  remember-Kept :
      (key : Text) (d : DynamicCache W) (o : Outcome (PublisherMux W) × W)
      → Kept key (remember W net json sha256_hex blank key d o)
  unfolding remember
  remember-Kept key d (fail e, w) p h = absurd (cc h)
  remember-Kept key d (ok m, w) p h =
      let eq : mux_publisher W net m ≡ p = cc in
      lookup-insert key key (mux_publisher W net m) d ∙ rw (same_refl key) (ap some eq)

  make-Kept :
      (key : Text) (d : DynamicCache W) (w : W) (o : Outcome RelaybusConfig)
      → Kept key (make W net json sha256_hex blank key d w o)
  unfolding make
  make-Kept key d w (fail e) p h = absurd (cc h)
  make-Kept key d w (ok cfg) p h = remember-Kept key d (new_publisher W net cfg w) p h

  fetch-Kept :
      (o : Option (Publisher W)) (key name raw : Text) (d : DynamicCache W) (w : W)
      → lookup key d ≡ o
      → Kept key (fetch W net json sha256_hex blank o key name raw d w)
  unfolding fetch
  fetch-Kept (some q) key name raw d w e p h = let eq : q ≡ p = cc in e ∙ ap some eq
  fetch-Kept none key name raw d w e p h =
      make-Kept key d w (config_from_driver json blank name raw) p h

  -- Once a publisher was returned for a driver and its configuration, the same call returns it again
  -- in any world, and changes neither the world nor the cache.
  pub dynamic_publisher_cached :
      (name raw : Text) (d : DynamicCache W) (w v : W) (p : Publisher W)
      → (dynamic_publisher W net json sha256_hex blank name raw d w).result ≡ ok p
      → dynamic_publisher W net json sha256_hex blank name raw
          (dynamic_publisher W net json sha256_hex blank name raw d w).cache
          v
        ≡ record {
          result = ok p;
          cache = (dynamic_publisher W net json sha256_hex blank name raw d w).cache;
          world = v;
        }
  unfolding dynamic_publisher fetch
  dynamic_publisher_cached name raw d w v p h = elim (Bool-cases (same name [])) [
    | inl y ↦ absurd (cc (rw y at h))
    | inr n ↦
        let key = dynamic_key sha256_hex json name raw in
        let kept = fetch-Kept (lookup key d) key name raw d w refl p (rw n at h) in
        rw n (rw kept refl)
  ]
