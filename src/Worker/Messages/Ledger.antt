-- ===== src/Worker/Messages/Ledger.antt =====
-- The log of events in handleMessage of sdk/go/worker/worker.go: the calls that leave it as it is.
use relaymesh.Prelude.{
  ℕ, zero, suc, ◌≡◌, refl, ◌∙◌, inl, inr, Bool, true, false, Option, none, some, List, [], ◌∷◌,
  is_empty, if◌then◌else◌, All, IfSome, Bool-cases, arith,
}
use relaymesh.Prelude.Text.{Text, same}
use relaymesh.Prelude.Outcome.{Errors}
use relaymesh.Core.Publisher.{Act}
use relaymesh.Worker.{CallContext, WorkerEvent, Turn, Handler, Listener, Worker}
use relaymesh.Worker.Messages.{
  error_text, update_event_log_status, notify_message_start, notify_message_finish,
  message_start_hook, message_finish_hook, error_hook, notify_error, wrap, attempt_loop,
  handler_for,
}

-- Whether there is an event, or nil.
abbrev pub has_event : (C : Type 0) → Option (WorkerEvent C) → Bool
has_event C none = false
has_event C (some evt) = true

-- The states that were reported, the latest first; nothing but the update of a status adds to them. A
-- hook that is given an event leaves one, and one that is given nil leaves nil.
pub record Ledger (W C O : Type 0) (update : CallContext → Text → Text → Text → Act W)
    (worker : Worker W C O) : Type 0 where
  pub ledger : W → List (Text × Text)
  pub updates :
      (ctx : CallContext) (id status reason : Text) (w : W)
      → ledger (update ctx id status reason w).1 ≡ (id, status) ∷ ledger w
  pub starts :
      All
        (λ l.
          (ctx : CallContext) (t : Turn W C)
          → ledger (message_start_hook W C O update l ctx t).1 ≡ ledger t.1)
        worker.listeners
  pub finishes :
      All
        (λ l.
          (ctx : CallContext) (e : Errors) (t : Turn W C)
          → ledger (message_finish_hook W C O update l ctx e t).1 ≡ ledger t.1)
        worker.listeners
  pub errors :
      All
        (λ l.
          (ctx : CallContext) (e : Errors) (t : Option (WorkerEvent C) × W)
          → (ledger (error_hook W C O update l ctx e t).1 ≡ ledger t.1)
            × (has_event C (error_hook W C O update l ctx e t).0 ≡ has_event C t.0))
        worker.listeners
  pub handles :
      (topic type_ : Text)
      → IfSome
          (λ h.
            (ctx : CallContext) (t : Turn W C)
            → ledger (wrap W C O update worker.middleware h ctx t).1.1 ≡ ledger t.1)
          (handler_for W C O update worker topic type_)
  pub provides :
      IfSome
        (λ p. (ctx : CallContext) (t : Turn W C) → ledger (p.client_for ctx t).1.1 ≡ ledger t.1)
        worker.client_provider

module _ (W C O : Type 0) (update : CallContext → Text → Text → Text → Act W)
    (worker : Worker W C O) (g : Ledger W C O update worker) where
  open g use {ledger}

  -- The ledger after a message with this log id got a status: it has none where the id is empty.
  abbrev pub reported : Text → Text → List (Text × Text) → List (Text × Text)
  reported id status before = if same id [] then before else (id, status) ∷ before

  pub ledger-update :
      (ctx : CallContext) (id status : Text) (e : Errors) (w : W)
      → ledger (update_event_log_status W C O update ctx id status e w)
        ≡ reported id status (ledger w)
  unfolding update_event_log_status
  ledger-update ctx id status e w = ground (arith, g.updates ctx id status (error_text e) w)

  pub ledger-start :
      (ls : List (Listener W C)) (ctx : CallContext) (t : Turn W C)
      → All
          (λ l.
            (c : CallContext) (s : Turn W C)
            → ledger (message_start_hook W C O update l c s).1 ≡ ledger s.1)
          ls
      → ledger (notify_message_start W C O update ls ctx t).1 ≡ ledger t.1
  unfolding notify_message_start
  ledger-start [] ctx t q = refl
  ledger-start (l ∷ ls) ctx t q =
      ledger-start ls ctx (message_start_hook W C O update l ctx t) q.1 ∙ q.0 ctx t

  pub ledger-finish :
      (ls : List (Listener W C)) (ctx : CallContext) (e : Errors) (t : Turn W C)
      → All
          (λ l.
            (c : CallContext) (f : Errors) (s : Turn W C)
            → ledger (message_finish_hook W C O update l c f s).1 ≡ ledger s.1)
          ls
      → ledger (notify_message_finish W C O update ls ctx e t).1 ≡ ledger t.1
  unfolding notify_message_finish
  ledger-finish [] ctx e t q = refl
  ledger-finish (l ∷ ls) ctx e t q =
      ledger-finish ls ctx e (message_finish_hook W C O update l ctx e t) q.1 ∙ q.0 ctx e t

  pub ledger-error :
      (ls : List (Listener W C)) (ctx : CallContext) (e : Errors) (t : Option (WorkerEvent C) × W)
      → All
          (λ l.
            (c : CallContext) (f : Errors) (s : Option (WorkerEvent C) × W)
            → (ledger (error_hook W C O update l c f s).1 ≡ ledger s.1)
              × (has_event C (error_hook W C O update l c f s).0 ≡ has_event C s.0))
          ls
      → (ledger (notify_error W C O update ls ctx e t).1 ≡ ledger t.1)
        × (has_event C (notify_error W C O update ls ctx e t).0 ≡ has_event C t.0)
  unfolding notify_error
  ledger-error [] ctx e t q = (refl, refl)
  ledger-error (l ∷ ls) ctx e t q =
      let rest = ledger-error ls ctx e (error_hook W C O update l ctx e t) q.1 in
      (rest.0 ∙ (q.0 ctx e t).0, rest.1 ∙ (q.0 ctx e t).1)

  pub ledger-attempts :
      (n : ℕ) (h : Handler W C) (ctx : CallContext) (e : Errors) (t : Turn W C)
      → ((c : CallContext) (s : Turn W C) → ledger (h c s).1.1 ≡ ledger s.1)
      → ledger (attempt_loop W C O update n h ctx e t).1.1 ≡ ledger t.1
  unfolding attempt_loop
  ledger-attempts zero h ctx e t q = refl
  ledger-attempts (suc n) h ctx e t q = elim (Bool-cases (is_empty (h ctx t).0)) [
    | inl y ↦ rw (y, attempt_loop) (q ctx t)
    | inr failed ↦
        rw (failed, attempt_loop) (ledger-attempts n h ctx (h ctx t).0 (h ctx t).1 q ∙ q ctx t)
  ]
