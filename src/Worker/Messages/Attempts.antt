-- ===== src/Worker/Messages/Attempts.antt =====
-- The attempts of handleMessage, sdk/go/worker/worker.go, and NoRetry of retry.go.
use relaymesh.Prelude.{
  ℕ, zero, suc, ◌<◌, ◌≡◌, refl, sym, ◌∙◌, ap, ◌↔◌, ◌⊎◌, true, false, false≢true, none, some, [],
  ◌∷◌, is_empty, Bool-cases, inl, inr, arith,
}
use relaymesh.Prelude.Text.{Text, text, same, to_lower}
use relaymesh.Worker.Codec.{metadata_value}
use relaymesh.Prelude.Outcome.{Errors, ok}
use relaymesh.Core.Publisher.{Message, Act}
use relaymesh.Worker.{CallContext, WorkerEvent, Turn, Handler, Worker}
use relaymesh.Worker.Options.{no_retry_on_error}
use relaymesh.Worker.Messages.{
  log_id_of, message_context, should_nack, notify_message_start, wrap, attempt_loop, attempts_of,
  decide, handled, handler_for, run_handler, dispatch, decoded, handle_message, receive,
  should_requeue,
}

-- The event and the world behind `k` runs of a handler.
unfoldable pub turn_after : (W C : Type 0) → ℕ → Handler W C → CallContext → Turn W C → Turn W C
turn_after W C zero h ctx t = t
turn_after W C (suc k) h ctx t = turn_after W C k h ctx (h ctx t).1

-- One of the first `n` runs of a handler returns no error.
abbrev pub Succeeds : (W C : Type 0) → ℕ → Handler W C → CallContext → Turn W C → Type 0
Succeeds W C n h ctx t = (k : ℕ) × (k < n) × (is_empty (h ctx (turn_after W C k h ctx t)).0 ≡ true)

module _ (W C O : Type 0) (update : CallContext → Text → Text → Text → Act W) where
  pub attempt_loop_iff :
      (n : ℕ) (h : Handler W C) (ctx : CallContext) (e : Errors) (t : Turn W C)
      → is_empty e ≡ false
      → (is_empty (attempt_loop W C O update n h ctx e t).0 ≡ true) ↔ Succeeds W C n h ctx t
  unfolding attempt_loop turn_after
  attempt_loop_iff zero h ctx e t he =
      (λ y. absurd (false≢true (sym he ∙ y)), λ s. absurd (omega (arith, s.1)))
  attempt_loop_iff (suc n) h ctx e t he = elim (Bool-cases (is_empty (h ctx t).0)) [
    | inl y ↦ rw (y, attempt_loop) (λ _. (0, omega arith, y), λ _. y)
    | inr failed ↦
        let (to, from) = attempt_loop_iff n h ctx (h ctx t).0 (h ctx t).1 failed in
        rw (failed, attempt_loop) (λ y. later (to y), λ s. from (earlier failed s))
  ]
    where
      later : Succeeds W C n h ctx (h ctx t).1 → Succeeds W C (suc n) h ctx t
      later (k, below, good) = (suc k, omega (arith, below), good)

      earlier :
          is_empty (h ctx t).0 ≡ false
          → Succeeds W C (suc n) h ctx t
          → Succeeds W C n h ctx (h ctx t).1
      earlier failed (zero, below, good) = absurd (false≢true (sym failed ∙ good))
      earlier failed (suc k, below, good) = (k, omega (arith, below), good)

  handled_iff :
      (worker : Worker W C O) (ctx : CallContext) (id : Text) (r : Errors × Turn W C)
      → worker.retry ≡ no_retry_on_error W C
      → ((handled W C O update worker ctx id r).0 ≡ false) ↔ (is_empty r.0 ≡ true)
  unfolding handled decide no_retry_on_error should_nack
  handled_iff worker ctx id (e, t) h = elim (Bool-cases (is_empty e)) [
    | inl y ↦ rw (y, handled) ((λ _. refl), (λ _. refl))
    | inr n ↦ rw (n, handled, h) ((λ c. absurd (false≢true (sym c))), (λ c. absurd (false≢true c)))
  ]

  run_handler_iff :
      (worker : Worker W C O) (ctx : CallContext) (id : Text) (h : Handler W C) (t : Turn W C)
      (n : ℕ)
      → worker.retry ≡ no_retry_on_error W C
      → attempts_of worker.retry_count ≡ suc n
      → ((run_handler W C O update worker ctx id (some h) t).0 ≡ false)
        ↔ Succeeds W C (suc n) (wrap W C O update worker.middleware h) ctx t
  unfolding run_handler attempt_loop turn_after
  run_handler_iff worker ctx id h t n hr hn = rw hn (
      let wrapped = wrap W C O update worker.middleware h in
      let (to, from) =
        handled_iff worker ctx id (attempt_loop W C O update (suc n) wrapped ctx [] t) hr in
      let (there, back) = attempt_loop_iff (suc n) wrapped ctx ([] ∷ []) t refl in
      (λ x. there (to x), λ y. from (back y)))

-- A worker that never retries by its policy, has no client provider, and has a handler for a decoded
-- message asks for a nack exactly if none of the attempts, as many as its retries and one more,
-- returns no error. Each attempt runs the handler inside the middleware on what the attempts before
-- it left. The message is given back to the broker with an error only if it also says that its driver
-- is AMQP: it is acknowledged exactly if an attempt succeeds or it does not say so.
pub receive-Succeeds :
    (W C O : Type 0) (update : CallContext → Text → Text → Text → Act W) (worker : Worker W C O)
    (wide : Text → Text) (ctx : CallContext) (topic : Text) (msg : Message) (w : W)
    (evt : WorkerEvent C) (h : Handler W C) (n : ℕ)
    → worker.retry ≡ no_retry_on_error W C
    → attempts_of worker.retry_count ≡ suc n
    → worker.client_provider ≡ none
    → worker.codec topic (some msg) ≡ ok evt
    → handler_for W C O update worker topic
        (notify_message_start W C O update worker.listeners
          (message_context ctx (some msg))
          (evt, w)).0.type_
      ≡ some h
    → let started =
        notify_message_start W C O update worker.listeners
          (message_context ctx (some msg))
          (evt, w) in
      let wrapped = wrap W C O update worker.middleware h in
      (((handle_message W C O update worker ctx topic (some msg) w).0 ≡ false)
        ↔ Succeeds W C (suc n) wrapped (message_context ctx (some msg)) started)
      × (((receive W C O update worker wide topic ctx msg w).0 ≡ []) ↔ (
          Succeeds W C (suc n) wrapped (message_context ctx (some msg)) started
          ⊎ (same (to_lower wide (metadata_value msg.metadata (text "driver"))) (text "amqp")
              ≡ false)))
unfolding handle_message decoded dispatch handler_for wrap receive should_requeue
receive-Succeeds W C O update worker wide ctx topic msg w evt h n hr hn hp hc hh =
    let handled_so : ((handle_message W C O update worker ctx topic (some msg) w).0 ≡ false)
        ↔ Succeeds W C (suc n) (wrap W C O update worker.middleware h)
            (message_context ctx (some msg))
            (notify_message_start W C O update worker.listeners (message_context ctx (some msg))
              (evt, w)) =
      rw (hc, hp, hh)
        (run_handler_iff W C O update worker (message_context ctx (some msg)) (log_id_of (some msg))
          h
          (notify_message_start W C O update worker.listeners (message_context ctx (some msg))
            (evt, w))
          n hr hn) in
    (handled_so, given_back _ handled_so)
  where
    given_back :
        (S : Type 0)
        → ((handle_message W C O update worker ctx topic (some msg) w).0 ≡ false) ↔ S
        → ((receive W C O update worker wide topic ctx msg w).0 ≡ [])
          ↔ (S ⊎ (should_requeue wide (some msg) ≡ false))
    given_back S (to, from) =
        elim (Bool-cases (handle_message W C O update worker ctx topic (some msg) w).0) [
          | inr n ↦ rw (n, receive) (λ x. inl (to n), λ x. refl)
          | inl y ↦ elim (Bool-cases (should_requeue wide (some msg))) [
            | inr m ↦ rw (y, m, receive) (λ x. inr refl, λ x. refl)
            | inl z ↦
                rw (y, z, receive)
                  (
                    λ x. absurd (false≢true (ap is_empty x)),
                    λ x. elim x [
                      | inl s ↦ absurd (false≢true (sym (from s) ∙ y))
                      | inr e ↦ absurd (false≢true (sym e))
                    ],
                  )
          ]
        ]
