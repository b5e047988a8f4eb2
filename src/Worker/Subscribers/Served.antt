-- ===== src/Worker/Subscribers/Served.antt =====
-- BuildSubscriber of subscriber.go, sdk/go/worker: the drivers that it serves.
use relaymesh.Prelude.{
  ◌≡◌, refl, ap, sym, subst, ◌⊎◌, true, false, false≢true, List, [], ◌∷◌, ◌++◌, map, Bool-cases,
  inl, inr, All, if◌then◌else◌, arith,
}
use relaymesh.Prelude.Text.{
  Text, text, same, same_iff, same_refl, is_ascii, to_lower, to_lower_idem, trim_space,
}
use relaymesh.Prelude.Outcome.{ok, >>=-eq-ok}
use relaymesh.Worker.{CallContext, MessageHandler, Subscriber}
use relaymesh.Worker.Topics.{contains}
use relaymesh.Worker.Topics.Distinct.{IsDistinct}
use relaymesh.Worker.Subscribers.{
  SourceCodecs, SubscriberConfig, unique_names, MultiSubscriber, Adapters, multi, broker_of,
  start_broker, relaybus_subscriber, new_single_subscriber, is_supported, build_multi,
  wanted_drivers, build_for, build_subscriber,
}

-- The drivers of several subscribers.
abbrev pub served : {W : Type 0} → MultiSubscriber W → List Text
served subs = map (λ s. s.0) subs

ok_inj : {A : Type 0} (a b : A) → ok a ≡ ok b → b ≡ a
ok_inj a b h = cc h

module _ (json : SourceCodecs) where
  seen-unique_names :
      (v : Text) (seen vs : List Text)
      → contains v seen ≡ true
      → contains v (unique_names json seen vs) ≡ false
  unfolding unique_names contains
  seen-unique_names v seen [] h = refl
  seen-unique_names v seen (x ∷ xs) h = ground (
    arith,
    same_iff (to_lower json.wide_lower (trim_space x)) v,
    seen-unique_names v seen xs,
    seen-unique_names v (to_lower json.wide_lower (trim_space x) ∷ seen) xs,
  )

  unique_names-IsDistinct : (seen vs : List Text) → IsDistinct (unique_names json seen vs)
  unfolding unique_names contains
  unique_names-IsDistinct seen [] = tt
  unique_names-IsDistinct seen (x ∷ xs) =
      let name = to_lower json.wide_lower (trim_space x) in
      elim (Bool-cases (same name [])) [
        | inl y ↦ rw (y, unique_names) (unique_names-IsDistinct seen xs)
        | inr n ↦ elim (Bool-cases (contains name seen)) [
          | inl y ↦ rw (n, y, unique_names) (unique_names-IsDistinct seen xs)
          | inr m ↦
              rw (n, m, unique_names)
                (
                  seen-unique_names name (name ∷ seen) xs (rw (same_refl name, contains) refl),
                  unique_names-IsDistinct (name ∷ seen) xs,
                )
        ]
      ]

  wanted_drivers-IsDistinct :
      (W : Type 0) (net : Adapters json W) (cfg : SubscriberConfig)
      → IsDistinct (wanted_drivers json W net cfg)
  unfolding wanted_drivers
  wanted_drivers-IsDistinct W net cfg = elim (Bool-cases (same cfg.driver [])) [
    | inl y ↦ rw (y, wanted_drivers) (unique_names-IsDistinct [] cfg.drivers)
    | inr n ↦ rw (n, wanted_drivers) (unique_names-IsDistinct [] _)
  ]

  module _ (W : Type 0) (net : Adapters json W) (cfg : SubscriberConfig) where
    -- What starting a subscriber of AMQP, NATS or Kafka does: the adapter of its driver is started, on
    -- the driver's own configuration, or the URL is missing.
    abbrev AmqpStart : Subscriber W → Type 0
    AmqpStart sub =
        (ctx : CallContext) (topic : Text) (handler : MessageHandler W) (w : W)
        → sub.start ctx topic handler w ≡ (
            if same cfg.amqp.url []
            then (text "amqp url is required" ∷ [], w)
            else net.start_amqp cfg.amqp ctx topic handler w)

    abbrev NatsStart : Subscriber W → Type 0
    NatsStart sub =
        (ctx : CallContext) (topic : Text) (handler : MessageHandler W) (w : W)
        → sub.start ctx topic handler w ≡ (
            if same cfg.nats.url []
            then (text "nats url is required" ∷ [], w)
            else net.start_nats cfg.nats ctx topic handler w)

    abbrev KafkaStart : Subscriber W → Type 0
    KafkaStart sub =
        (ctx : CallContext) (topic : Text) (handler : MessageHandler W) (w : W)
        → sub.start ctx topic handler w
          ≡ net.start_kafka cfg.kafka ctx (cfg.kafka.topic_prefix ++ topic) handler w

    -- A subscriber is the one of a driver, by its name without spaces and in lower case.
    abbrev pub Serves : Text → Subscriber W → Type 0
    Serves name sub =
        ((name ≡ text "amqp") × AmqpStart sub)
        ⊎ ((name ≡ text "nats") × NatsStart sub)
        ⊎ ((name ≡ text "kafka") × KafkaStart sub)

    abbrev pub driver_name : Text → Text
    driver_name driver = to_lower json.wide_lower (trim_space driver)

    prefixed :
        (prefix topic : Text)
        → (if same prefix [] then topic else prefix ++ topic) ≡ prefix ++ topic
    prefixed prefix topic = elim (Bool-cases (same prefix [])) [
      | inl y ↦ rw ((same_iff prefix []).0 y) (rw (same_refl []) refl)
      | inr n ↦ rw n refl
    ]

    relaybus_subscriber-Serves :
        (name : Text)
        → to_lower json.wide_lower name ≡ name
        → is_supported json name ≡ true
        → Serves name (relaybus_subscriber json W net name cfg)
    unfolding relaybus_subscriber is_supported broker_of start_broker
    relaybus_subscriber-Serves name lower h = elim (Bool-cases (same name (text "amqp"))) [
      | inl y ↦ inl ((same_iff name _).0 y, λ ctx topic handler w. rw y (ground arith))
      | inr a ↦ elim (Bool-cases (same name (text "nats"))) [
        | inl y ↦ inr (inl ((same_iff name _).0 y, λ ctx topic handler w. rw (a, y) (ground arith)))
        | inr n ↦ elim (Bool-cases (same name (text "kafka"))) [
          | inl y ↦ inr (
              inr (
                (same_iff name _).0 y,
                λ ctx topic handler w.
                    rw (a, n, y)
                      (ap (λ t. net.start_kafka cfg.kafka ctx t handler w)
                        (prefixed cfg.kafka.topic_prefix topic)),
              ))
          | inr k ↦ absurd (false≢true (rw (lower, is_supported, broker_of, a, n, k) at h))
        ]
      ]
    ]

    new_single_subscriber-Serves :
        (driver : Text) (sub : Subscriber W)
        → to_lower json.wide_lower (driver_name driver) ≡ driver_name driver
        → new_single_subscriber json W net cfg driver ≡ ok sub
        → Serves (driver_name driver) sub
    unfolding new_single_subscriber
    new_single_subscriber-Serves driver sub lower h =
        elim (Bool-cases (is_supported json (driver_name driver))) [
          | inl y ↦
              let made : relaybus_subscriber json W net (driver_name driver) cfg ≡ sub =
                ok_inj _ _ (sym (rw (y, new_single_subscriber) at h)) in
              subst (Serves (driver_name driver)) made
                (relaybus_subscriber-Serves (driver_name driver) lower y)
          | inr n ↦ absurd (cc (rw (n, new_single_subscriber) at h))
        ]

    module _
        (lowered : (t : Text)
          → to_lower json.wide_lower (to_lower json.wide_lower t)
            ≡ to_lower json.wide_lower t) where
      build_multi-served :
          (drivers : List Text) (subs : MultiSubscriber W)
          → build_multi json W net cfg drivers ≡ ok subs
          → (served subs ≡ drivers) × All (λ s. Serves (driver_name s.0) s.1) subs
      unfolding build_multi
      build_multi-served [] subs h = rw (ok_inj _ _ h) (refl, tt)
      build_multi-served (driver ∷ rest) subs h =
          let (sub, made, more) = >>=-eq-ok (new_single_subscriber json W net cfg driver) _ h in
          let (others, rest_made, last) = >>=-eq-ok (build_multi json W net cfg rest) _ more in
          let (same_names, serve) = build_multi-served rest others rest_made in
          rw (ok_inj _ _ last) (
            ap (λ x. driver ∷ x) same_names,
            (new_single_subscriber-Serves driver sub (lowered (trim_space driver)) made, serve),
          )

      build_for-served :
          (drivers : List Text) (subs : MultiSubscriber W)
          → build_for json W net cfg drivers ≡ ok (multi subs)
          → IsDistinct drivers
          → (served subs ≡ drivers)
            × IsDistinct (served subs)
            × All (λ s. Serves (driver_name s.0) s.1) subs
      unfolding build_for
      build_for-served [] subs h distinct = absurd (cc h)
      build_for-served (driver ∷ []) subs h distinct =
          let (sub, made, last) = >>=-eq-ok (new_single_subscriber json W net cfg driver) _ h in
          absurd (cc last)
      build_for-served (driver ∷ second ∷ rest) subs h distinct =
          let (others, made, last) =
            >>=-eq-ok (build_multi json W net cfg (driver ∷ second ∷ rest)) _ h in
          let (same_names, serve) = build_multi-served (driver ∷ second ∷ rest) others made in
          let same_subs : others ≡ subs = cc last in
          rw⁻¹ same_subs (same_names, rw same_names distinct, serve)

  -- The subscribers that are made of a configuration with several drivers are one for each wanted
  -- driver, in their order, and the drivers are distinct. Each starts the adapter of its own driver,
  -- AMQP, NATS or Kafka, on the configuration of that driver, and on the topic behind the prefix for
  -- Kafka; where AMQP or NATS has no URL it starts nothing and says so. This is where lower case beyond
  -- ASCII stays as it is when it is made lower case again.
  pub build_subscriber-served :
      (W : Type 0) (net : Adapters json W) (cfg : SubscriberConfig) (subs : MultiSubscriber W)
      → ((t : Text)
          → is_ascii t ≡ false
          → to_lower json.wide_lower (json.wide_lower t) ≡ json.wide_lower t)
      → build_subscriber json W net cfg ≡ ok (multi subs)
      → (served subs ≡ wanted_drivers json W net cfg)
        × IsDistinct (served subs)
        × All (λ s. Serves W net cfg (driver_name W net cfg s.0) s.1) subs
  unfolding build_subscriber
  build_subscriber-served W net cfg subs lower h =
      build_for-served W net cfg (to_lower_idem json.wide_lower lower) _ subs h
        (wanted_drivers-IsDistinct W net cfg)
