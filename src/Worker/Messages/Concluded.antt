-- ===== src/Worker/Messages/Concluded.antt =====
-- handleMessage of sdk/go/worker/worker.go: every message ends in one of the ways of Verdict, and what this
-- does.
use relaymesh.Prelude.{
  ℕ, zero, suc, ◌≡◌, refl, sym, ◌∙◌, ap, inl, inr, Bool, true, false, false≢true, Option, none,
  some, List, [], ◌∷◌, is_empty, IfSome, Bool-cases,
}
use relaymesh.Prelude.Text.{Text, text}
use relaymesh.Prelude.Outcome.{Outcome, ok, fail}
use relaymesh.Core.Publisher.{Message, Act}
use relaymesh.Worker.{CallContext, WorkerEvent, Turn, Handler, ClientProvider, Worker}
use relaymesh.Worker.Messages.{
  log_id_of, message_context, attempt_loop, handled, run_handler, dispatch, with_client, decoded,
  handle_message, attempts_of,
}
use relaymesh.Worker.Messages.Attempts.{attempt_loop_iff}
use relaymesh.Worker.Messages.Ledger.{Ledger, ledger-start, ledger-finish, ledger-attempts}
use relaymesh.Worker.Messages.Verdict.{
  Verdict, success, failure, Started, bare, equipped, told, handler_of, inside, Ends, undecoded,
  refused, unhandled, unattempted, succeeded, exhausted, attempt_loop_last,
}
use relaymesh.Worker.Messages.Reported.{
  Reported, decode_failed-Reported, client_failed-Reported, closed, handled_success,
  handled_failure, Reported-moved,
}

module _ (W C O : Type 0) (update : CallContext → Text → Text → Text → Act W)
    (worker : Worker W C O) (g : Ledger W C O update worker) where
  open g use {ledger}

  -- What is shown of a message: how it ends, and what this has done.
  abbrev pub Concluded :
      CallContext → Text → Option Message → W → Text → List (Text × Text) → Bool × W → Type 0
  Concluded ctx topic msg w id before r =
      (v : Verdict) × Ends W C O update worker ctx topic msg w v
      × Reported W C O update worker g ctx id before v r

  module _ (ctx : CallContext) (topic : Text) (msg : Option Message) (w : W) (id : Text) where
    attempted :
        (t : Turn W C) (h : Handler W C) (n : ℕ)
        → Started W C O update worker ctx topic msg w t
        → handler_of W C O update worker ctx topic t ≡ some h
        → attempts_of worker.retry_count ≡ n
        → ((c : CallContext) (s : Turn W C)
            → ledger (inside W C O update worker h c s).1.1 ≡ ledger s.1)
        → Concluded ctx topic msg w id (ledger (told W C O update worker ctx t).1) (
            handled W C O update worker ctx id (
              attempt_loop W C O update n
                (inside W C O update worker h)
                ctx
                []
                (told W C O update worker ctx t)))
    unfolding attempt_loop
    attempted t h zero started found count quiet = (
      success,
      unattempted t h started found count refl,
      handled_success W C O update worker g ctx id [] (told W C O update worker ctx t) refl,
    )
    attempted t h (suc n) started found count quiet =
        let s = told W C O update worker ctx t in
        let wrapped = inside W C O update worker h in
        let last = attempt_loop W C O update (suc n) wrapped ctx [] s in
        let kept = ledger-attempts W C O update worker g (suc n) wrapped ctx [] s quiet in
        let (to, from) = attempt_loop_iff W C O update (suc n) wrapped ctx ([] ∷ []) s refl in
        elim (Bool-cases (is_empty last.0)) [
          | inl y ↦ (
            success,
            succeeded t h n started found count (to y) refl,
            Reported-moved W C O update worker g ctx id success
                (handled W C O update worker ctx id last) _ _ kept
                (handled_success W C O update worker g ctx id last.0 last.1 y),
          )
          | inr m ↦ (
            failure true last.0,
            exhausted t h n started found count (λ x. false≢true (sym m ∙ from x))
                (ap (failure true) (attempt_loop_last W C O update worker n wrapped ctx [] s m)),
            Reported-moved W C O update worker g ctx id (failure true last.0)
                (handled W C O update worker ctx id last) _ _ kept
                (handled_failure W C O update worker g ctx id last.0 last.1 m),
          )
        ]

    run_handler-Concluded :
        (t : Turn W C) (o : Option (Handler W C))
        → Started W C O update worker ctx topic msg w t
        → handler_of W C O update worker ctx topic t ≡ o
        → IfSome
            (λ h.
              (c : CallContext) (s : Turn W C)
              → ledger (inside W C O update worker h c s).1.1 ≡ ledger s.1)
            o
        → Concluded ctx topic msg w id
            (ledger (told W C O update worker ctx t).1)
            (run_handler W C O update worker ctx id o (told W C O update worker ctx t))
    unfolding run_handler
    run_handler-Concluded t none started found quiet =
        let s = told W C O update worker ctx t in
        (
          success,
          unhandled t started found refl,
          (
            refl,
            closed W C O update worker g ctx id (text "success") [] s _
                (ledger-finish W C O update worker g worker.listeners ctx [] s g.finishes),
          ),
        )
    run_handler-Concluded t (some h) started found quiet =
        attempted t h (attempts_of worker.retry_count) started found refl quiet

    dispatch-Concluded :
        (t : Turn W C)
        → Started W C O update worker ctx topic msg w t
        → Concluded ctx topic msg w id (ledger t.1) (dispatch W C O update worker ctx id topic t)
    unfolding dispatch
    dispatch-Concluded t started =
        let (v, ends, done) =
          run_handler-Concluded t (handler_of W C O update worker ctx topic t) started refl
            (g.handles topic (told W C O update worker ctx t).0.type_) in
        (
          v,
          ends,
          Reported-moved W C O update worker g ctx id v
              (dispatch W C O update worker ctx id topic t) _ _
              (ledger-start W C O update worker g worker.listeners ctx t g.starts) done,
        )

    with_client-Concluded :
        (evt : WorkerEvent C) (p : ClientProvider W C O) (made : Outcome (Option C) × Turn W C)
        → worker.codec topic msg ≡ ok evt
        → worker.client_provider ≡ some p
        → p.client_for ctx (evt, w) ≡ made
        → Concluded ctx topic msg w id
            (ledger made.1.1)
            (with_client W C O update worker ctx id topic made)
    unfolding with_client
    with_client-Concluded evt p (fail e, t) decoded_so there made_so = (
      failure true e,
      refused evt p e decoded_so there (ap (λ m. m.0) made_so) refl,
      client_failed-Reported W C O update worker g ctx id e t,
    )
    with_client-Concluded evt p (ok client, (after, v)) decoded_so there made_so =
        dispatch-Concluded (record after { client = client }, v)
          (equipped evt p client decoded_so there (ap (λ m. m.0) made_so)
            (ap (λ m. (record (m.1.0) { client = client }, m.1.1)) (sym made_so)))

    provided :
        (evt : WorkerEvent C) (o : Option (ClientProvider W C O))
        → worker.codec topic msg ≡ ok evt
        → worker.client_provider ≡ o
        → IfSome
            (λ p. (c : CallContext) (s : Turn W C) → ledger (p.client_for c s).1.1 ≡ ledger s.1)
            o
        → Concluded ctx topic msg w id (ledger w) (elim o [
          | none ↦ dispatch W C O update worker ctx id topic (evt, w)
          | some p ↦ with_client W C O update worker ctx id topic (p.client_for ctx (evt, w))
        ])
    provided evt none decoded_so there quiet =
        dispatch-Concluded (evt, w) (bare evt decoded_so there refl)
    provided evt (some p) decoded_so there quiet =
        let made = p.client_for ctx (evt, w) in
        let (v, ends, done) = with_client-Concluded evt p made decoded_so there refl in
        (
          v,
          ends,
          Reported-moved W C O update worker g ctx id v
              (with_client W C O update worker ctx id topic made) _ _ (quiet ctx (evt, w)) done,
        )

    decoded-Concluded :
        (o : Outcome (WorkerEvent C))
        → worker.codec topic msg ≡ o
        → Concluded ctx topic msg w id (ledger w) (decoded W C O update worker ctx id topic o w)
    unfolding decoded
    decoded-Concluded (fail e) decoded_so = (
      failure false e,
      undecoded e decoded_so refl,
      decode_failed-Reported W C O update worker g ctx id e w,
    )
    decoded-Concluded (ok evt) decoded_so =
        provided evt worker.client_provider decoded_so refl g.provides

-- Every message ends in one way. It is not decoded, or its client is not made, or all attempts of its
-- handler fail, the error being the one of the last: then its entry in the log of events gets the
-- status failed and no other, and the retry policy is asked with this error and the event, or with no
-- event where the message was not decoded; handleMessage asks for a nack exactly if the policy wants
-- a retry or a nack. Or it has no handler, or no attempt is made, or an attempt returns no error: then
-- its entry gets the status success and no other, and handleMessage asks for no nack. This is where
-- nothing but the update of a status writes to the log of events, and no hook makes an event nil, or
-- nil an event; an empty log id has no entry.
pub handle_message-Concluded :
    (W C O : Type 0) (update : CallContext → Text → Text → Text → Act W) (worker : Worker W C O)
    (g : Ledger W C O update worker) (ctx : CallContext) (topic : Text) (msg : Option Message)
    (w : W)
    → Concluded W C O update worker g
        (message_context ctx msg)
        topic
        msg
        w
        (log_id_of msg)
        (g.ledger w)
        (handle_message W C O update worker ctx topic msg w)
unfolding handle_message
handle_message-Concluded W C O update worker g ctx topic msg w =
    decoded-Concluded W C O update worker g (message_context ctx msg) topic msg w (log_id_of msg)
      (worker.codec topic msg) refl
