-- ===== src/Core/Publisher/Retry/Attempts.antt =====
-- Publish of retryingPublisher, pkg/core/publisher.go: its attempts.
use relaymesh.Prelude.{
  ℕ, zero, suc, ◌+◌, ◌≤◌, ◌<◌, ◌≡◌, sym, ◌∙◌, ◌⊎◌, true, false, false≢true, not, ◌||◌, [], ◌++◌,
  is_empty, is_empty-append, arith, ◌==◌, Bool-cases, inl, inr,
}
use relaymesh.Prelude.Int.{ℤ, is_positive}
use relaymesh.Prelude.Text.{Text}
use relaymesh.Prelude.Outcome.{Errors}
use relaymesh.Core.Event.{Event}
use relaymesh.Core.Publisher.{Publisher, Act}
use relaymesh.Core.Publisher.Retry.{publish_loop, attempts_of, retrying_publish}

module _ (W : Type 0) (wait : ℤ → Act W) (delay : ℤ) (attempt : Act W) (count : W → ℕ)
    (one_more : (w : W) → count (attempt w).1 ≡ count w + 1)
    (waits : (w : W) → count (wait delay w).1 ≡ count w) where
  loop_attempts :
      (n : ℕ) (e : Errors) (w : W)
      → (count (publish_loop W wait n delay attempt e w).1 ≤ count w + n)
  unfolding publish_loop
  loop_attempts zero e w = omega arith
  loop_attempts (suc n) e w = ground (
    arith,
    one_more w,
    waits (attempt w).1,
    loop_attempts n (attempt w).0 (attempt w).1,
    loop_attempts n (attempt w).0 (wait delay (attempt w).1).1,
  )

  loop_grows :
      (n : ℕ) (e : Errors) (w : W) → count w ≤ count (publish_loop W wait n delay attempt e w).1
  unfolding publish_loop
  loop_grows zero e w = omega arith
  loop_grows (suc n) e w = ground (
    arith,
    one_more w,
    waits (attempt w).1,
    loop_grows n (attempt w).0 (attempt w).1,
    loop_grows n (attempt w).0 (wait delay (attempt w).1).1,
  )

  loop_first :
      (n : ℕ) (e : Errors) (w : W)
      → 0 < n
      → count w + 1 ≤ count (publish_loop W wait n delay attempt e w).1
  unfolding publish_loop
  loop_first zero e w h = absurd (omega arith)
  loop_first (suc n) e w h = ground (
    arith,
    one_more w,
    waits (attempt w).1,
    loop_grows n (attempt w).0 (attempt w).1,
    loop_grows n (attempt w).0 (wait delay (attempt w).1).1,
  )

  -- Without an end of the context, an error means that every round was used.
  loop_all :
      (n : ℕ) (e : Errors) (w : W)
      → ((v : W) → is_empty (wait delay v).0 ≡ true)
      → is_empty (publish_loop W wait n delay attempt e w).0 ≡ false
      → count (publish_loop W wait n delay attempt e w).1 ≡ count w + n
  unfolding publish_loop
  loop_all zero e w open_ h = omega arith
  loop_all (suc n) e w open_ h = ground (
    arith,
    one_more w,
    waits (attempt w).1,
    open_ (attempt w).1,
    loop_all n (attempt w).0 (attempt w).1,
    loop_all n (attempt w).0 (wait delay (attempt w).1).1,
  )

module _ (W : Type 0) (wait : ℤ → Act W) (delay : ℤ) (attempt : Act W) where
  -- Success is reported right behind an attempt that succeeded.
  loop_success :
      (n : ℕ) (e : Errors) (w : W)
      → (0 < n) ⊎ (is_empty e ≡ false)
      → is_empty (publish_loop W wait n delay attempt e w).0 ≡ true
      → (v : W) × (is_empty (attempt v).0 ≡ true)
        × ((publish_loop W wait n delay attempt e w) ≡ ([], (attempt v).1))
  unfolding publish_loop
  loop_success zero e w (inl n) h = absurd (omega arith)
  loop_success zero e w (inr full) h = absurd (false≢true (sym full ∙ (unfold publish_loop in h)))
  loop_success (suc n) e w he h = elim (Bool-cases (is_empty (attempt w).0)) [
    | inl y ↦ (w, y, rw (y, publish_loop))
    | inr failed ↦ elim (Bool-cases ((n == 0) || not (is_positive delay))) [
      | inl last ↦
          rw (failed, last, publish_loop)
            (loop_success n (attempt w).0 (attempt w).1 (inr failed)
              (rw (failed, last, publish_loop) at h))
      | inr more ↦ elim (Bool-cases (is_empty (wait delay (attempt w).1).0)) [
        | inl fired ↦
            rw (failed, more, fired, publish_loop)
              (loop_success n (attempt w).0 (wait delay (attempt w).1).1 (inr failed)
                (rw (failed, more, fired, publish_loop) at h))
        | inr ended ↦ absurd (both_full (rw (failed, more, ended, publish_loop) at h) failed)
      ]
    ]
  ]
    where
      both_full :
          is_empty ((attempt w).0 ++ (wait delay (attempt w).1).0) ≡ true
          → is_empty (attempt w).0 ≡ false
          → ⊥
      both_full y n = ground (arith, is_empty-append (attempt w).0 (wait delay (attempt w).1).0)

-- An attempt counts for one, and waiting for none.
pub record Counts (W : Type 0) (wait : ℤ → Act W) (delay : ℤ) (attempt : Act W) (count : W → ℕ)
    : Type 0 where
  pub one_more : (w : W) → count (attempt w).1 ≡ count w + 1
  pub waits : (w : W) → count (wait delay w).1 ≡ count w

attempts_of_positive : (attempts : ℤ) → 0 < attempts_of attempts
attempts_of_positive attempts = ground arith

-- Publishing with retries tries once at least, and no more often than the configured attempts (one,
-- if none are configured).
pub retrying_publish_attempts :
    (W : Type 0) (wait : ℤ → Act W) (base : Publisher W) (attempts delay : ℤ) (topic : Text)
    (event : Event) (count : W → ℕ) (w : W)
    → Counts W wait delay (base.publish topic event) count
    → (count w + 1 ≤ count (retrying_publish W wait base attempts delay topic event w).1)
      × (count (retrying_publish W wait base attempts delay topic event w).1
          ≤ count w + attempts_of attempts)
unfolding retrying_publish
retrying_publish_attempts W wait base attempts delay topic event count w c = (
  loop_first W wait delay (base.publish topic event) count c.one_more c.waits (attempts_of attempts)
      [] w (attempts_of_positive attempts),
  loop_attempts W wait delay (base.publish topic event) count c.one_more c.waits
      (attempts_of attempts) [] w,
)

-- If the context never ends during a wait, publishing with retries returns an error only after all
-- of the configured attempts.
pub retrying_publish_exhausted :
    (W : Type 0) (wait : ℤ → Act W) (base : Publisher W) (attempts delay : ℤ) (topic : Text)
    (event : Event) (count : W → ℕ) (w : W)
    → Counts W wait delay (base.publish topic event) count
    → ((v : W) → is_empty (wait delay v).0 ≡ true)
    → is_empty (retrying_publish W wait base attempts delay topic event w).0 ≡ false
    → count (retrying_publish W wait base attempts delay topic event w).1
      ≡ count w + attempts_of attempts
unfolding retrying_publish
retrying_publish_exhausted W wait base attempts delay topic event count w c =
    loop_all W wait delay (base.publish topic event) count c.one_more c.waits (attempts_of attempts)
      [] w

-- Where publishing with retries reports success, an attempt succeeded, and the world is the one that
-- this attempt left, with no attempt behind it.
pub retrying_publish_success :
    (W : Type 0) (wait : ℤ → Act W) (base : Publisher W) (attempts delay : ℤ) (topic : Text)
    (event : Event) (w : W)
    → is_empty (retrying_publish W wait base attempts delay topic event w).0 ≡ true
    → (v : W) × (is_empty (base.publish topic event v).0 ≡ true)
      × (retrying_publish W wait base attempts delay topic event w
          ≡ ([], (base.publish topic event v).1))
unfolding retrying_publish
retrying_publish_success W wait base attempts delay topic event w h =
    loop_success W wait delay (base.publish topic event) (attempts_of attempts) [] w
      (inl (attempts_of_positive attempts)) h
