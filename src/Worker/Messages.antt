-- ===== src/Worker/Messages.antt =====
-- handleMessage of sdk/go/worker/worker.go, with updateEventLogStatus of event_log_updates.go and the
-- listeners: what becomes of one message. The lines that only log are left out.

pub mod Attempts
pub mod Ledger
pub mod Verdict
pub mod Reported
pub mod Concluded
use Prim.Native.Nat.{◌%◌, ◌^◌}
use relaymesh.Prelude.{
  ℕ, zero, suc, ◌+◌, Bool, true, false, ◌&&◌, ◌||◌, Option, none, some, List, [], ◌∷◌, is_empty,
  if◌then◌else◌,
}
use relaymesh.Prelude.Int.{ℤ, pos, negsuc, rounds, of_bits}
use relaymesh.Prelude.Text.{Text, text, same, to_lower, join}
use relaymesh.Prelude.Table.{Table, lookup}
use relaymesh.Prelude.Outcome.{Errors, Outcome, ok, fail}
use relaymesh.Core.Publisher.{Message, Act}
use relaymesh.Worker.{
  CallContext, with_tenant_id, WorkerEvent, RetryDecision, Turn, Handler, Middleware, Listener,
  ClientProvider, MessageHandler, Worker,
}
use relaymesh.Worker.Codec.{metadata_value}

-- `err.Error()`, "" for nil.
abbrev pub error_text : Errors → Text
error_text e = join e (10 ∷ [])

-- `logID`
unfoldable pub log_id_of : Option Message → Text
log_id_of none = []
log_id_of (some msg) = metadata_value msg.metadata (text "log_id")

-- The context that a message is handled in: with its tenant, if it has one.
unfoldable pub message_context : CallContext → Option Message → CallContext
message_context ctx none = ctx
message_context ctx (some msg) = with_tenant_id ctx (metadata_value msg.metadata (text "tenant_id"))

-- `decision.Retry || decision.Nack`
unfoldable pub should_nack : RetryDecision → Bool
should_nack d = d.retry || d.nack

-- The rounds of the loop up to `w.retryCount + 1`, on int64.
unfoldable pub attempts_of : ℤ → ℕ
attempts_of (pos n) = rounds (of_bits ((n + 1) % 2 ^ 64))
attempts_of (negsuc n) = 0

-- shouldRequeue
unfoldable pub should_requeue : (Text → Text) → Option Message → Bool
should_requeue wide_lower none = false
should_requeue wide_lower (some msg) =
    same (to_lower wide_lower (metadata_value msg.metadata (text "driver"))) (text "amqp")

-- `update` is UpdateStatus of the client that eventLogsClient makes.
module _ (W C O : Type 0) (update : CallContext → Text → Text → Text → Act W) where
  -- updateEventLogStatus
  unfoldable pub update_event_log_status : CallContext → Text → Text → Errors → W → W
  update_event_log_status ctx log_id status e world =
      if same log_id [] then world else (update ctx log_id status (error_text e) world).1

  abbrev pub message_start_hook : Listener W C → CallContext → Turn W C → Turn W C
  message_start_hook l ctx t = elim (l.on_message_start) [ none ↦ t | some hook ↦ hook ctx t ]

  -- notifyMessageStart
  unfoldable pub notify_message_start : List (Listener W C) → CallContext → Turn W C → Turn W C
  notify_message_start [] ctx t = t
  notify_message_start (l ∷ ls) ctx t = notify_message_start ls ctx (message_start_hook l ctx t)

  abbrev pub message_finish_hook : Listener W C → CallContext → Errors → Turn W C → Turn W C
  message_finish_hook l ctx e t = elim (l.on_message_finish) [ none ↦ t | some hook ↦ hook ctx e t ]

  -- notifyMessageFinish
  unfoldable pub notify_message_finish :
      List (Listener W C) → CallContext → Errors → Turn W C → Turn W C
  notify_message_finish [] ctx e t = t
  notify_message_finish (l ∷ ls) ctx e t =
      notify_message_finish ls ctx e (message_finish_hook l ctx e t)

  abbrev pub error_hook :
      Listener W C → CallContext → Errors → Option (WorkerEvent C) × W → Option (WorkerEvent C) × W
  error_hook l ctx e t = elim (l.on_error) [ none ↦ t | some hook ↦ hook ctx e t ]

  -- notifyError
  unfoldable pub notify_error :
      List (Listener W C)
      → CallContext
      → Errors
      → Option (WorkerEvent C) × W
      → Option (WorkerEvent C) × W
  notify_error [] ctx e t = t
  notify_error (l ∷ ls) ctx e t = notify_error ls ctx e (error_hook l ctx e t)

  -- wrap: the first middleware is the outermost.
  unfoldable pub wrap : List (Middleware W C) → Handler W C → Handler W C
  wrap [] h = h
  wrap (m ∷ ms) h = m (wrap ms h)

  -- The loop of attempts with the rounds left, and `handlerErr`.
  unfoldable pub attempt_loop :
      ℕ → Handler W C → CallContext → Errors → Turn W C → Errors × Turn W C
  attempt_loop zero h ctx last_err t = (last_err, t)
  attempt_loop (suc n) h ctx last_err t =
      let tried = h ctx t in
      elim (is_empty tried.0) [ true ↦ tried | false ↦ attempt_loop n h ctx tried.0 tried.1 ]

  module _ (worker : Worker W C O) where
    -- `w.retry.OnError`, and what handleMessage returns of it.
    decide : CallContext → Errors → Option (WorkerEvent C) × W → Bool × W
    decide ctx e t = let (decision, world) = worker.retry ctx e t in (should_nack decision, world)

    -- The branch of a message that is not decoded.
    pub decode_failed : CallContext → Text → Errors → W → Bool × W
    decode_failed ctx log_id e world = decide ctx e (
      none,
      (notify_error worker.listeners ctx e
          (none, update_event_log_status ctx log_id (text "failed") e world)).1,
    )

    -- The branch of a client that cannot be made.
    pub client_failed : CallContext → Text → Errors → Turn W C → Bool × W
    client_failed ctx log_id e (evt, world) = decide ctx e (
        notify_error worker.listeners ctx e
          (some evt, update_event_log_status ctx log_id (text "failed") e world))

    pub handled : CallContext → Text → Errors × Turn W C → Bool × W
    handled ctx log_id (e, t) =
        let (evt, world) = notify_message_finish worker.listeners ctx e t in
        let (seen, world_seen) = notify_error worker.listeners ctx e (some evt, world) in
        elim (is_empty e) [
          | true ↦ (false, update_event_log_status ctx log_id (text "success") e world)
          | false ↦
              decide ctx e (seen, update_event_log_status ctx log_id (text "failed") e world_seen)
        ]

    -- The handler of the topic, or else of the type.
    unfoldable pub handler_for : Text → Text → Option (Handler W C)
    handler_for topic type_ = elim (lookup topic worker.topic_handlers) [
      | some h ↦ some h
      | none ↦ lookup type_ worker.type_handlers
    ]

    run_handler : CallContext → Text → Option (Handler W C) → Turn W C → Bool × W
    run_handler ctx log_id none t = (
      false,
      update_event_log_status ctx log_id (text "success") []
          (notify_message_finish worker.listeners ctx [] t).1,
    )
    run_handler ctx log_id (some h) t =
        handled ctx log_id
          (attempt_loop (attempts_of worker.retry_count) (wrap worker.middleware h) ctx [] t)

    dispatch : CallContext → Text → Text → Turn W C → Bool × W
    dispatch ctx log_id topic t =
        let (evt, world) = notify_message_start worker.listeners ctx t in
        run_handler ctx log_id (handler_for topic evt.type_) (evt, world)

    with_client : CallContext → Text → Text → Outcome (Option C) × Turn W C → Bool × W
    with_client ctx log_id topic (fail e, t) = client_failed ctx log_id e t
    with_client ctx log_id topic (ok client, (evt, world)) =
        dispatch ctx log_id topic (record evt { client = client }, world)

    decoded : CallContext → Text → Text → Outcome (WorkerEvent C) → W → Bool × W
    decoded ctx log_id topic (fail e) world = decode_failed ctx log_id e world
    decoded ctx log_id topic (ok evt) world = elim (worker.client_provider) [
      | none ↦ dispatch ctx log_id topic (evt, world)
      | some provider ↦ with_client ctx log_id topic (provider.client_for ctx (evt, world))
    ]

    -- handleMessage
    unfoldable pub handle_message : CallContext → Text → Option Message → W → Bool × W
    unfolding decoded with_client dispatch run_handler handled client_failed decode_failed decide
    handle_message ctx topic msg world =
        decoded (message_context ctx msg) (log_id_of msg) topic (worker.codec topic msg) world

    -- The handler that Run hands to a subscriber, without the semaphore.
    unfoldable pub receive : (Text → Text) → Text → MessageHandler W
    receive wide_lower topic ctx msg world =
        let (nack, after) = handle_message ctx topic (some msg) world in
        if nack && should_requeue wide_lower (some msg)
        then (text "message nack requested" ∷ [], after)
        else ([], after)
