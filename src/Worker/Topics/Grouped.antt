-- ===== src/Worker/Topics/Grouped.antt =====
-- topicsByDriver and prepareRuleSubscriptions of sdk/go/worker/worker.go.
use relaymesh.Prelude.{
  ◌≡◌, refl, ap, ◌∙◌, Bool, true, false, List, [], ◌∷◌, ◌++◌, append-nil, append_assoc, is_empty,
  if◌then◌else◌, All, Bool-cases, inl, inr, arith,
}
use relaymesh.Prelude.Text.{Text, same, same_iff, trim_space, trim_space_idem, is_blank}
use relaymesh.Prelude.Table.{Table, lookup, insert, lookup-insert}
use relaymesh.Prelude.Outcome.{Errors, Outcome, ok, fail, ◌>>=◌}
use relaymesh.Worker.{CallContext, Handler, Worker}
use relaymesh.Worker.Topics.{
  topics_at, group_topics, topics_by_driver, RuleTarget, rule_subscription, subscription_of,
  subscribe_rule, prepare_loop, prepare_rule_subscriptions,
}

-- The topics of a driver, in the order of the map.
unfoldable pub topics_of : Text → Table Text → List Text
topics_of driver [] = []
topics_of driver ((topic, driver_id) ∷ rest) =
    let others = topics_of driver rest in
    if same (trim_space driver_id) driver then topic ∷ others else others

topics_at-insert :
    (k d : Text) (topics : List Text) (out : Table (List Text))
    → topics_at d (insert k topics out) ≡ (if same k d then topics else topics_at d out)
unfolding topics_at
topics_at-insert k d topics out = ground (arith, lookup-insert k d topics out)

step-topics :
    (b : Bool) (xs ys : List Text) (topic : Text)
    → (if b then xs ++ (topic ∷ []) else xs) ++ ys ≡ xs ++ (if b then topic ∷ ys else ys)
step-topics true xs ys topic = append_assoc xs (topic ∷ []) ys
step-topics false xs ys topic = refl

topics_at-grown :
    (k d topic : Text) (out : Table (List Text))
    → topics_at d (insert k (topics_at k out ++ (topic ∷ [])) out)
      ≡ (if same k d then topics_at d out ++ (topic ∷ []) else topics_at d out)
topics_at-grown k d topic out = elim (Bool-cases (same k d)) [
  | inl y ↦ topics_at-insert k d _ out ∙ rw (y, (same_iff k d).0 y) refl
  | inr n ↦ topics_at-insert k d _ out ∙ rw n refl
]

group_topics-at :
    (d : Text) (m : Table Text) (out r : Table (List Text))
    → group_topics m out ≡ ok r
    → topics_at d r ≡ topics_at d out ++ topics_of d m
unfolding group_topics topics_of
group_topics-at d [] out r h = cc (h, append-nil (topics_at d out))
group_topics-at d ((topic, driver_id) ∷ rest) out r h = elim (Bool-cases (is_blank driver_id)) [
  | inl y ↦ absurd (cc (rw (y, group_topics) at h))
  | inr n ↦
      let k = trim_space driver_id in
      let grown = insert k (topics_at k out ++ (topic ∷ [])) out in
      group_topics-at d rest grown r (rw (n, group_topics) at h)
      ∙ ap (λ x. x ++ topics_of d rest) (topics_at-grown k d topic out)
      ∙ step-topics (same k d) (topics_at d out) (topics_of d rest) topic
]

-- Where no driver is blank, the topics are grouped.
abbrev pub Driven : Table Text → Type 0
Driven = All (λ e. is_blank e.1 ≡ false)

Driven-insert :
    (k v : Text) (m : Table Text) → is_blank v ≡ false → Driven m → Driven (insert k v m)
unfolding insert
Driven-insert k v [] h d = (h, tt)
Driven-insert k v ((j, x) ∷ m) h d = elim (Bool-cases (same j k)) [
  | inl y ↦ rw y (h, d.1)
  | inr n ↦ rw n (d.0, Driven-insert k v m h d.1)
]

group_topics-Driven :
    (m : Table Text) (out : Table (List Text))
    → Driven m
    → (r : Table (List Text)) × (group_topics m out ≡ ok r)
unfolding group_topics
group_topics-Driven [] out d = (out, refl)
group_topics-Driven ((topic, driver_id) ∷ rest) out d =
    rw (d.0, group_topics) (group_topics-Driven rest _ d.1)

-- The topics by their drivers: each driver has the topics that are assigned to its name, with the
-- spaces around it dropped, and no others.
pub topics_by_driver_groups :
    (m : Table Text) (r : Table (List Text)) (d : Text)
    → topics_by_driver m ≡ ok r
    → topics_at d r ≡ topics_of d m
unfolding topics_by_driver topics_at lookup
topics_by_driver_groups [] r d h = absurd (cc h)
topics_by_driver_groups (e ∷ m) r d h = group_topics-at d (e ∷ m) [] r h

subscription_of-Driven :
    (rule_id : Text) (emit : List Text) (driver : Text) (target : Text × Text)
    → subscription_of rule_id emit driver ≡ ok target
    → is_blank target.1 ≡ false
unfolding subscription_of
subscription_of-Driven rule_id [] driver target h = absurd (cc h)
subscription_of-Driven rule_id (first ∷ others) driver target h =
    elim (Bool-cases (is_blank first)) [
      | inl y ↦ absurd (cc (rw (y, subscription_of) at h))
      | inr n ↦ elim (Bool-cases (is_blank driver)) [
        | inl z ↦ absurd (cc (rw (n, z, subscription_of) at h))
        | inr m ↦ named target (rw (n, m, subscription_of) at h) m
      ]
    ]
  where
    named :
        (t : Text × Text)
        → ok (trim_space first, trim_space driver) ≡ ok t
        → is_blank driver ≡ false
        → is_blank t.1 ≡ false
    named (a, b) e m =
        let same_driver : trim_space driver ≡ b = cc e in
        rw⁻¹ same_driver (rw (trim_space_idem driver) m)

module _ (W C O : Type 0) (get_rule : CallContext → Text → W → Outcome RuleTarget × W) where
  prepare_loop-Driven :
      (rules : Table (Handler W C)) (ctx : CallContext) (w : Worker W C O) (world : W)
      → Driven w.topic_drivers
      → Driven (prepare_loop W C O get_rule rules ctx w world).1.topic_drivers
  unfolding prepare_loop subscribe_rule rule_subscription
  prepare_loop-Driven [] ctx w world d = d
  prepare_loop-Driven ((rule_id, h) ∷ rest) ctx w world d =
      go ((get_rule ctx rule_id world).0 >>= rule_subscription rule_id)
        (λ t e. named (get_rule ctx rule_id world).0 t e)
        (λ target v r. prepare_loop-Driven rest ctx (subscribe_rule W C O h target w) v r)
    where
      named :
          (found : Outcome RuleTarget) (t : Text × Text)
          → (found >>= rule_subscription rule_id) ≡ ok t
          → is_blank t.1 ≡ false
      named (fail e) t x = absurd (cc x)
      named (ok r) t x = subscription_of-Driven rule_id r.emit r.driver_id t x

      go :
          (o : Outcome (Text × Text))
          → ((t : Text × Text) → o ≡ ok t → is_blank t.1 ≡ false)
          → ((t : Text × Text) (v : W)
              → Driven (subscribe_rule W C O h t w).topic_drivers
              → Driven
                  (prepare_loop W C O get_rule rest ctx
                    (subscribe_rule W C O h t w)
                    v).1.topic_drivers)
          → Driven
              (elim o as (λ x. Errors × Worker W C O × W) [
                | fail e ↦ (e, w, (get_rule ctx rule_id world).1)
                | ok target ↦
                    prepare_loop W C O get_rule rest ctx
                      (subscribe_rule W C O h target w)
                      (get_rule ctx rule_id world).1
              ]).1.topic_drivers
      go (fail e) q rec = d
      go (ok (topic, driver)) q rec =
          rec (topic, driver) _
            (Driven-insert topic driver w.topic_drivers (q (topic, driver) refl) d)

  -- Where no topic of a worker has a blank driver, subscribing its rules keeps this so, also if it
  -- stops at an error: the topics can then be grouped by their drivers, if there are any.
  pub prepare_rule_subscriptions-Driven :
      (ctx : CallContext) (w : Worker W C O) (world : W)
      → Driven w.topic_drivers
      → is_empty (prepare_rule_subscriptions W C O get_rule ctx w world).1.topic_drivers ≡ false
      → (r : Table (List Text)) × (topics_by_driver
            (prepare_rule_subscriptions W C O get_rule ctx w world).1.topic_drivers
          ≡ ok r)
  unfolding prepare_rule_subscriptions topics_by_driver
  prepare_rule_subscriptions-Driven ctx w world d h =
      rw h (group_topics-Driven _ [] (prepare_loop-Driven w.rule_handlers ctx w world d))
