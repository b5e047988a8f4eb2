-- ===== src/Drivers/Dynamic.antt =====
-- pkg/drivers/dynamic_cache.go: publishers from the driver configurations of rules. The mutex is
-- left out: two calls that build the same publisher at once are not modelled.
pub mod Cached
use relaymesh.Prelude.{Option, none, some, [], ◌∷◌, ◌++◌, if◌then◌else◌}
use relaymesh.Prelude.Text.{Text, text, same, trim_space, to_lower}
use relaymesh.Prelude.Table.{Table, lookup, insert}
use relaymesh.Prelude.Outcome.{Errors, Outcome, ok, fail}
use relaymesh.Core.Relaybus.{RelaybusConfig}
use relaymesh.Core.Publisher.{Publisher, Brokers}
use relaymesh.Core.Publisher.Mux.{PublisherMux, mux_publisher, new_publisher}
use relaymesh.Drivers.Config.{Codecs, config_from_driver}

-- DynamicPublisherCache
abbrev pub DynamicCache : Type 0 → Type 0
DynamicCache W = Table (Publisher W)

-- What a call leaves beside its result.
pub record Fetched (W : Type 0) : Type 0 where
  pub result : Outcome (Publisher W)
  pub cache : DynamicCache W
  pub world : W

-- cacheKey, over the hexadecimal SHA-256 of all that is written to the hasher
unfoldable pub dynamic_key : (Text → Text) → Codecs → Text → Text → Text
dynamic_key sha256_hex json driver_name config_json =
    sha256_hex
      (to_lower json.wide_lower (trim_space driver_name) ++ (text "|" ++ trim_space config_json))

module _ (W : Type 0) (net : Brokers W) (json : Codecs) (sha256_hex : Text → Text)
    (blank : RelaybusConfig) where
  remember : Text → DynamicCache W → Outcome (PublisherMux W) × W → Fetched W
  remember key d (fail e, w) = record { result = fail e; cache = d; world = w }
  remember key d (ok m, w) = record {
    result = ok (mux_publisher W net m);
    cache = insert key (mux_publisher W net m) d;
    world = w;
  }

  make : Text → DynamicCache W → W → Outcome RelaybusConfig → Fetched W
  make key d w (fail e) = record { result = fail e; cache = d; world = w }
  make key d w (ok cfg) = remember key d (new_publisher W net cfg w)

  fetch : Option (Publisher W) → Text → Text → Text → DynamicCache W → W → Fetched W
  fetch (some p) key driver_name config_json d w = record { result = ok p; cache = d; world = w }
  fetch none key driver_name config_json d w =
      make key d w (config_from_driver json blank driver_name config_json)

  -- Publisher
  unfoldable pub dynamic_publisher : Text → Text → DynamicCache W → W → Fetched W
  unfolding fetch make remember
  dynamic_publisher driver_name config_json d w =
      let key = dynamic_key sha256_hex json driver_name config_json in
      if same driver_name []
      then record { result = fail (text "driver name is required" ∷ []); cache = d; world = w }
      else fetch (lookup key d) key driver_name config_json d w

module _ (W : Type 0) where
  close_dynamic : DynamicCache W → Errors → W → Errors × W
  close_dynamic [] err w = (err, w)
  close_dynamic ((key, p) ∷ rest) err w =
      let closed = p.close w in close_dynamic rest (err ++ closed.0) closed.1

  -- Close: the error, the cache, from which each key was deleted, and the world.
  unfoldable pub dynamic_close : DynamicCache W → W → Errors × DynamicCache W × W
  unfolding close_dynamic
  dynamic_close d w = let closed = close_dynamic d [] w in (closed.0, [], closed.1)
