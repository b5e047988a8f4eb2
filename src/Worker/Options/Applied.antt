-- ===== src/Worker/Options/Applied.antt =====
-- New and its options, sdk/go/worker/worker.go and options.go: what a new worker is configured with.
use relaymesh.Prelude.{
  ◌≡◌, refl, true, false, none, some, List, [], ◌∷◌, arith, inl, inr, Bool-cases, if◌then◌else◌,
}
use relaymesh.Prelude.Int.{ℤ, pos, is_positive, is_negative}
use relaymesh.Prelude.Text.{Text, text, trim_space, trim_space_idem}
use relaymesh.Worker.{Worker}
use relaymesh.Worker.Codec.{Formats}
use relaymesh.Worker.Options.{
  Environment, WorkerOption, apply_option, apply_options, fresh_worker, new_worker, env_tenant_id,
  with_concurrency, with_retry_count, with_endpoint, with_api_key, with_tenant, with_codec,
  with_retry,
}

-- At least one slot, no negative count of retries, and an endpoint, a key and a tenant without spaces
-- around.
pub record IsFit (concurrency retry_count : ℤ) (endpoint api_key tenant_id : Text) : Type 0 where
  pub slots : is_positive concurrency ≡ true
  pub retries : is_negative retry_count ≡ false
  pub tidy_endpoint : trim_space endpoint ≡ endpoint
  pub tidy_key : trim_space api_key ≡ api_key
  pub tidy_tenant : trim_space tenant_id ≡ tenant_id

abbrev pub IsConfigured : {W C O : Type 0} → Worker W C O → Type 0
IsConfigured w = IsFit w.concurrency w.retry_count w.endpoint w.api_key w.tenant_id

-- What a worker is configured with, one setting at a time.
module _ {n r : ℤ} {e k t : Text} (h : IsFit n r e k t) where
  with_slots : (m : ℤ) → is_positive m ≡ true → IsFit m r e k t
  with_slots m y = record {
    slots = y;
    retries = h.retries;
    tidy_endpoint = h.tidy_endpoint;
    tidy_key = h.tidy_key;
    tidy_tenant = h.tidy_tenant;
  }

  with_retries : (m : ℤ) → is_negative m ≡ false → IsFit n m e k t
  with_retries m y = record {
    slots = h.slots;
    retries = y;
    tidy_endpoint = h.tidy_endpoint;
    tidy_key = h.tidy_key;
    tidy_tenant = h.tidy_tenant;
  }

  with_settings :
      (f l u : Text) → trim_space f ≡ f → trim_space l ≡ l → trim_space u ≡ u → IsFit n r f l u
  with_settings f l u x y z = record {
    slots = h.slots;
    retries = h.retries;
    tidy_endpoint = x;
    tidy_key = y;
    tidy_tenant = z;
  }

count_not_negative : (n : ℤ) → is_negative (if is_negative n then pos 0 else n) ≡ false
count_not_negative n = ground arith

module _ (W C O : Type 0) (env : Environment) where
  apply_option-IsConfigured :
      (o : WorkerOption W C O env) (w : Worker W C O)
      → IsConfigured w
      → IsConfigured (apply_option W C O env o w)
  unfolding apply_option
  apply_option-IsConfigured (with_concurrency n) w h = elim (Bool-cases (is_positive n)) [
    | inl y ↦ rw y (with_slots h n y)
    | inr none_left ↦ rw none_left h
  ]
  apply_option-IsConfigured (with_retry_count n) w h = with_retries h _ (count_not_negative n)
  apply_option-IsConfigured (with_endpoint e) w h =
      with_settings h _ _ _ (trim_space_idem e) h.tidy_key h.tidy_tenant
  apply_option-IsConfigured (with_api_key k) w h =
      with_settings h _ _ _ h.tidy_endpoint (trim_space_idem k) h.tidy_tenant
  apply_option-IsConfigured (with_tenant t) w h =
      with_settings h _ _ _ h.tidy_endpoint h.tidy_key (trim_space_idem t)
  apply_option-IsConfigured (with_codec none) w h = h
  apply_option-IsConfigured (with_codec (some c)) w h = h
  apply_option-IsConfigured (with_retry none) w h = h
  apply_option-IsConfigured (with_retry (some c)) w h = h
  apply_option-IsConfigured _ w h = h

  apply_options-IsConfigured :
      (os : List (WorkerOption W C O env)) (w : Worker W C O)
      → IsConfigured w
      → IsConfigured (apply_options W C O env os w)
  unfolding apply_options
  apply_options-IsConfigured [] w h = h
  apply_options-IsConfigured (o ∷ os) w h =
      apply_options-IsConfigured os (apply_option W C O env o w) (apply_option-IsConfigured o w h)

-- Whatever options it is made with, a worker has at least one slot for concurrent messages and no
-- negative count of retries, and its endpoint, key and tenant have no spaces around them.
pub new_worker-IsConfigured :
    (W C O : Type 0) (env : Environment) (formats : Formats) (os : List (WorkerOption W C O env))
    (world : W)
    → IsConfigured (new_worker W C O env formats os world).0
unfolding new_worker fresh_worker env_tenant_id trim_space
new_worker-IsConfigured W C O env formats os world =
    apply_options-IsConfigured W C O env os (fresh_worker W C O env formats) (record {
      slots = refl;
      retries = refl;
      tidy_endpoint = refl;
      tidy_key = refl;
      tidy_tenant = trim_space_idem (env (text "RELAYMESH_TENANT_ID"));
    })
