-- ===== src/Worker/Messages/Reported.antt =====
-- handleMessage of sdk/go/worker/worker.go: what the end of a message does, and the status that it gets
-- in the log of events.
use relaymesh.Prelude.{
  ◌≡◌, refl, subst, ◌∙◌, ap, Bool, true, false, ◌||◌, Option, none, some, List, is_empty,
}
use relaymesh.Prelude.Text.{Text, text}
use relaymesh.Prelude.Outcome.{Errors}
use relaymesh.Core.Publisher.{Act}
use relaymesh.Worker.{CallContext, WorkerEvent, Turn, Worker}
use relaymesh.Worker.Messages.{
  should_nack, notify_message_finish, notify_error, update_event_log_status, decide, decode_failed,
  client_failed, handled,
}
use relaymesh.Worker.Messages.Ledger.{
  Ledger, has_event, reported, ledger-update, ledger-finish, ledger-error,
}
use relaymesh.Worker.Messages.Verdict.{Verdict, success, failure}

module _ (W C O : Type 0) (update : CallContext → Text → Text → Text → Act W)
    (worker : Worker W C O) (g : Ledger W C O update worker) where
  open g use {ledger}

  -- What a verdict has done: the status of the log entry, and what is returned. The retry policy is asked
  -- with the error, the event or nil, behind the status.
  abbrev pub Reported : CallContext → Text → List (Text × Text) → Verdict → Bool × W → Type 0
  Reported ctx id before success r =
      (r.0 ≡ false) × (ledger r.1 ≡ reported W C O update worker g id (text "success") before)
  Reported ctx id before (failure seen e) r =
      (t : Option (WorkerEvent C) × W) × (has_event C t.0 ≡ seen)
      × (ledger t.1 ≡ reported W C O update worker g id (text "failed") before)
      × (r ≡ (
        (worker.retry ctx e t).0.retry || (worker.retry ctx e t).0.nack,
        (worker.retry ctx e t).1,
      ))

  pub decode_failed-Reported :
      (ctx : CallContext) (id : Text) (e : Errors) (w : W)
      → Reported ctx id (ledger w) (failure false e) (decode_failed W C O update worker ctx id e w)
  unfolding decode_failed decide should_nack
  decode_failed-Reported ctx id e w =
      let failed = update_event_log_status W C O update ctx id (text "failed") e w in
      let after = notify_error W C O update worker.listeners ctx e (none, failed) in
      (
        (none, after.1),
        refl,
        (ledger-error W C O update worker g worker.listeners ctx e (none, failed) g.errors).0
            ∙ ledger-update W C O update worker g ctx id (text "failed") e w,
        refl,
      )

  pub client_failed-Reported :
      (ctx : CallContext) (id : Text) (e : Errors) (t : Turn W C)
      → Reported ctx id (ledger t.1) (failure true e) (client_failed W C O update worker ctx id e t)
  unfolding client_failed decide should_nack
  client_failed-Reported ctx id e (evt, w) =
      let failed = update_event_log_status W C O update ctx id (text "failed") e w in
      let kept =
        ledger-error W C O update worker g worker.listeners ctx e (some evt, failed) g.errors in
      (
        notify_error W C O update worker.listeners ctx e (some evt, failed),
        kept.1,
        kept.0 ∙ ledger-update W C O update worker g ctx id (text "failed") e w,
        refl,
      )

  pub closed :
      (ctx : CallContext) (id status : Text) (e : Errors) (t : Turn W C) (v : W)
      → ledger v ≡ ledger t.1
      → ledger (update_event_log_status W C O update ctx id status e v)
        ≡ reported W C O update worker g id status (ledger t.1)
  closed ctx id status e t v h =
      ledger-update W C O update worker g ctx id status e v
      ∙ ap (reported W C O update worker g id status) h

  pub handled_success :
      (ctx : CallContext) (id : Text) (e : Errors) (t : Turn W C)
      → is_empty e ≡ true
      → Reported ctx id (ledger t.1) success (handled W C O update worker ctx id (e, t))
  unfolding handled
  handled_success ctx id e t y =
      rw (y, handled)
        (
          refl,
          closed ctx id (text "success") e t _
              (ledger-finish W C O update worker g worker.listeners ctx e t g.finishes),
        )

  pub handled_failure :
      (ctx : CallContext) (id : Text) (e : Errors) (t : Turn W C)
      → is_empty e ≡ false
      → Reported ctx id (ledger t.1) (failure true e) (handled W C O update worker ctx id (e, t))
  unfolding handled decide should_nack
  handled_failure ctx id e t n =
      let finished = notify_message_finish W C O update worker.listeners ctx e t in
      let seen = notify_error W C O update worker.listeners ctx e (some finished.0, finished.1) in
      let kept =
        ledger-error W C O update worker g worker.listeners ctx e (some finished.0, finished.1)
          g.errors in
      rw (n, handled)
        (
          (seen.0, update_event_log_status W C O update ctx id (text "failed") e seen.1),
          kept.1,
          closed ctx id (text "failed") e t seen.1
              (kept.0 ∙ ledger-finish W C O update worker g worker.listeners ctx e t g.finishes),
          refl,
        )

  pub Reported-moved :
      (ctx : CallContext) (id : Text) (v : Verdict) (r : Bool × W) (b c : List (Text × Text))
      → b ≡ c
      → Reported ctx id b v r
      → Reported ctx id c v r
  Reported-moved ctx id v r b c h x = subst (λ l. Reported ctx id l v r) h x
