-- ===== src/Tests/Publishing.antt =====
-- Runs of the publishers and of their construction.
use relaymesh.Prelude.{ℕ, ◌≤◌, ◌≡◌, refl, true, [], ◌∷◌, is_empty}
use relaymesh.Prelude.Int.{pos}
use relaymesh.Prelude.Text.{text}
use relaymesh.Core.Publisher.Build.{configured_drivers}
use relaymesh.Core.Publisher.Mux.{PublisherMux, targets_of, mux_publish_for_drivers, build_drivers}
use relaymesh.Core.Publisher.Mux.Delivery.{Delivers, mux_publish-Delivers}
use relaymesh.Core.Publisher.Retry.{retrying_publish}
use relaymesh.Core.Publisher.Retry.Attempts.{Counts, retrying_publish_attempts}
use relaymesh.Tests.Samples.{push_event, counting, taking, refusing, to_nats}

abbrev mux : PublisherMux ℕ
mux = record {
  publishers = (text "nats", taking) ∷ (text "kafka", refusing) ∷ [];
  default_drivers = text "nats" ∷ text "kafka" ∷ [];
  dlq_driver = text "nats";
}

mux_publish-Delivers_example :
    (is_empty (mux_publish_for_drivers ℕ counting mux (text "t") push_event (text "NATS" ∷ []) 0).0
        ≡ true
      → Delivers ℕ counting mux
          (text "t")
          push_event
          (targets_of ℕ counting mux (text "NATS" ∷ []))
          0
          (mux_publish_for_drivers ℕ counting mux (text "t") push_event (text "NATS" ∷ []) 0).1)
    × ((v : ℕ)
        → Delivers ℕ counting mux
            (text "t")
            push_event
            (targets_of ℕ counting mux (text "NATS" ∷ []))
            0
            v
        → (is_empty
              (mux_publish_for_drivers ℕ counting mux (text "t") push_event (text "NATS" ∷ []) 0).0
            ≡ true)
          × ((mux_publish_for_drivers ℕ counting mux (text "t") push_event (text "NATS" ∷ []) 0).1
              ≡ v))
mux_publish-Delivers_example =
    mux_publish-Delivers ℕ counting mux (text "t") push_event (text "NATS" ∷ []) 0

attempts_count :
    Counts ℕ counting.wait (pos 1000000) (refusing.publish (text "t") push_event) (λ w. w)
attempts_count = record { one_more = λ w. refl; waits = λ w. refl }

retrying_publish_attempts_example :
    (1
      ≤ (retrying_publish ℕ counting.wait refusing (pos 3) (pos 1000000) (text "t") push_event 0).1)
    × ((retrying_publish ℕ counting.wait refusing (pos 3) (pos 1000000) (text "t") push_event 0).1
        ≤ 3)
retrying_publish_attempts_example =
    retrying_publish_attempts ℕ counting.wait refusing (pos 3) (pos 1000000) (text "t") push_event
      (λ w. w) 0 attempts_count

abbrev made : PublisherMux ℕ
made =
    (build_drivers ℕ counting to_nats (configured_drivers to_nats)
      (record { publishers = []; default_drivers = []; dlq_driver = [] }) 0).0
