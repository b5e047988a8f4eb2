-- ===== src/Worker/Messages/Verdict.antt =====
-- handleMessage of sdk/go/worker/worker.go: how the handling of a message ends.
use relaymesh.Prelude.{
  ℕ, zero, suc, ◌≡◌, refl, sym, ◌∙◌, inl, inr, Bool, true, false, false≢true, Option, none, some,
  is_empty, Bool-cases,
}
use relaymesh.Prelude.Text.{Text}
use relaymesh.Prelude.Outcome.{Errors, ok, fail}
use relaymesh.Core.Publisher.{Message, Act}
use relaymesh.Worker.{CallContext, WorkerEvent, Turn, Handler, ClientProvider, Worker}
use relaymesh.Worker.Messages.{notify_message_start, wrap, attempt_loop, handler_for, attempts_of}
use relaymesh.Worker.Messages.Attempts.{Succeeds, turn_after}

-- How the handling of a message ends: without an error, or with one, for which an event is there or is
-- not.
pub data Verdict : Type 0 where
  success : Verdict
  failure : Bool → Errors → Verdict

module _ (W C O : Type 0) (update : CallContext → Text → Text → Text → Act W)
    (worker : Worker W C O) where
  -- The event and the world that the listeners are told of: decoded, with its client if a provider
  -- makes it.
  pub data Started (ctx : CallContext) (topic : Text) (msg : Option Message) (w : W) (t : Turn W C)
      : Type 0 where
    bare :
        (evt : WorkerEvent C)
        → worker.codec topic msg ≡ ok evt
        → worker.client_provider ≡ none
        → t ≡ (evt, w)
        → Started ctx topic msg w t
    equipped :
        (evt : WorkerEvent C) (p : ClientProvider W C O) (client : Option C)
        → worker.codec topic msg ≡ ok evt
        → worker.client_provider ≡ some p
        → (p.client_for ctx (evt, w)).0 ≡ ok client
        → t ≡ (
          record ((p.client_for ctx (evt, w)).1.0) { client = client },
          (p.client_for ctx (evt, w)).1.1,
        )
        → Started ctx topic msg w t

  -- The handler of a message that has started, and what its listeners left to it.
  abbrev pub told : CallContext → Turn W C → Turn W C
  told ctx t = notify_message_start W C O update worker.listeners ctx t

  abbrev pub handler_of : CallContext → Text → Turn W C → Option (Handler W C)
  handler_of ctx topic t = handler_for W C O update worker topic (told ctx t).0.type_

  abbrev pub inside : Handler W C → Handler W C
  inside h = wrap W C O update worker.middleware h

  -- The verdict on a message, from the codec, the provider of clients, the handler and its attempts.
  pub data Ends (ctx : CallContext) (topic : Text) (msg : Option Message) (w : W) (v : Verdict)
      : Type 0 where
    undecoded :
        (e : Errors)
        → worker.codec topic msg ≡ fail e
        → v ≡ failure false e
        → Ends ctx topic msg w v
    refused :
        (evt : WorkerEvent C) (p : ClientProvider W C O) (e : Errors)
        → worker.codec topic msg ≡ ok evt
        → worker.client_provider ≡ some p
        → (p.client_for ctx (evt, w)).0 ≡ fail e
        → v ≡ failure true e
        → Ends ctx topic msg w v
    unhandled :
        (t : Turn W C)
        → Started ctx topic msg w t
        → handler_of ctx topic t ≡ none
        → v ≡ success
        → Ends ctx topic msg w v
    unattempted :
        (t : Turn W C) (h : Handler W C)
        → Started ctx topic msg w t
        → handler_of ctx topic t ≡ some h
        → attempts_of worker.retry_count ≡ 0
        → v ≡ success
        → Ends ctx topic msg w v
    succeeded :
        (t : Turn W C) (h : Handler W C) (n : ℕ)
        → Started ctx topic msg w t
        → handler_of ctx topic t ≡ some h
        → attempts_of worker.retry_count ≡ suc n
        → Succeeds W C (suc n) (inside h) ctx (told ctx t)
        → v ≡ success
        → Ends ctx topic msg w v
    exhausted :
        (t : Turn W C) (h : Handler W C) (n : ℕ)
        → Started ctx topic msg w t
        → handler_of ctx topic t ≡ some h
        → attempts_of worker.retry_count ≡ suc n
        → ¬ (Succeeds W C (suc n) (inside h) ctx (told ctx t))
        → v ≡ failure true (inside h ctx (turn_after W C n (inside h) ctx (told ctx t))).0
        → Ends ctx topic msg w v

  -- If all attempts fail, the error is the one of the last.
  pub attempt_loop_last :
      (n : ℕ) (h : Handler W C) (ctx : CallContext) (e : Errors) (t : Turn W C)
      → is_empty (attempt_loop W C O update (suc n) h ctx e t).0 ≡ false
      → (attempt_loop W C O update (suc n) h ctx e t).0 ≡ (h ctx (turn_after W C n h ctx t)).0
  unfolding attempt_loop turn_after
  attempt_loop_last zero h ctx e t f = elim (Bool-cases (is_empty (h ctx t).0)) [
    | inl y ↦ rw (y, attempt_loop) refl
    | inr n ↦ rw (n, attempt_loop) refl
  ]
  attempt_loop_last (suc n) h ctx e t f = elim (Bool-cases (is_empty (h ctx t).0)) [
    | inl y ↦ absurd (false≢true (sym (rw (y, attempt_loop) at f) ∙ y))
    | inr m ↦
        rw (m, attempt_loop)
          (attempt_loop_last n h ctx (h ctx t).0 (h ctx t).1 (rw (m, attempt_loop) at f))
  ]
