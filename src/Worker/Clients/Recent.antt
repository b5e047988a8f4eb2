-- ===== src/Worker/Clients/Recent.antt =====
-- Client of scm_client_provider.go, sdk/go/worker: what the cache spares.
use relaymesh.Prelude.{
  ℕ, zero, suc, ◌+◌, ◌<◌, ◌≡◌, refl, ap, false, Option, none, some, List, [], ◌∷◌, length, ltb,
  Bool-cases, inl, inr, arith,
}
use relaymesh.Prelude.Text.{Text, same_refl}
use relaymesh.Prelude.Outcome.{Outcome, ok}
use relaymesh.Worker.{CallContext, WorkerEvent}
use relaymesh.Worker.Clients.{
  Entry, ClientCache, expired, find, drop_last, evict, cache_get, cache_add, get_found, add_found,
  ScmRecord, ScmProvider, client_target, client_key, client_of_target, scm_client, fetch_client,
  keep_client, made_client,
}

module _ (C : Type 0) where
  -- Eviction leaves the front.
  evict_front :
      (fuel size : ℕ) (e : Entry C) (l : List (Entry C))
      → 0 < size
      → (m : List (Entry C)) × (evict C fuel size (e ∷ l) ≡ e ∷ m)
  unfolding evict drop_last
  evict_front zero size e l h = (l, refl)
  evict_front (suc fuel) size e [] h = elim (Bool-cases (ltb size 1)) [
    | inl y ↦ absurd (ground arith)
    | inr n ↦ ([], rw (n, evict) refl)
  ]
  evict_front (suc fuel) size e (f ∷ l) h = elim (Bool-cases (ltb size (length (e ∷ f ∷ l)))) [
    | inl y ↦ rw (y, evict) (evict_front fuel size e (drop_last C (f ∷ l)) h)
    | inr n ↦ (f ∷ l, rw (n, evict) refl)
  ]

  find_front :
      (key : Text) (e : Entry C) (l : List (Entry C)) → e.key ≡ key → find C key (e ∷ l) ≡ some e
  unfolding find
  find_front key e l h = rw (h, same_refl key, find) refl

  add_found_front :
      (e : Entry C) (c : ClientCache C) (o : Option (Entry C))
      → 0 < c.size
      → find C e.key (add_found C e c o).order ≡ some e
  unfolding add_found
  add_found_front e c (some old) h = find_front e.key e _ refl
  add_found_front e c none h =
      let (m, front) = evict_front (length c.order + 1) c.size e c.order h in
      rw front (find_front e.key e m refl)

  -- A client that was just added is what the cache has for its key, until it expires.
  pub cache_get-cache_add :
      (now skew : ℕ) (key : Text) (client : C) (expires_at : ℕ) (c : ClientCache C)
      → 0 < c.size
      → expired now expires_at skew ≡ false
      → (cache_get C now key skew (cache_add C key client expires_at c)).0 ≡ some client
  unfolding cache_get cache_add
  cache_get-cache_add now skew key client expires_at c h fresh =
      rw
        (add_found_front (record { key = key; client = client; expires_at = expires_at }) c
          (find C key c.order) h)
        (rw (fresh, get_found) refl)

-- Where the cache has no client for an event's target, and the API answers with a record that a client
-- can be made of, the client is made and given. The next call for the same event gives this client
-- again, without a call of the API, if it has not expired by then.
pub scm_client_again :
    (C O W : Type 0) (now : W → ℕ)
    (get_scm_client : ScmProvider C O
      → CallContext
      → Text × Text × Text
      → W
      → Outcome ScmRecord × W)
    (new_provider_client : ScmRecord → Outcome (Option C)) (ctx again : CallContext)
    (evt : WorkerEvent C) (p : ScmProvider C O) (world after : W) (target : Text × Text × Text)
    (r : ScmRecord) (client : C)
    → client_target evt ≡ ok target
    → 0 < p.cache.size
    → cache_get C (now world) (client_key target) p.skew p.cache ≡ (none, p.cache)
    → get_scm_client p ctx target world ≡ (ok r, after)
    → made_client C O W now get_scm_client new_provider_client r ≡ ok (some client)
    → expired (now after) r.expires_at p.skew ≡ false
    → (q : ScmProvider C O) × (scm_client C O W now get_scm_client new_provider_client ctx evt p
          world
        ≡ (ok (some client), q, after))
      × ((scm_client C O W now get_scm_client new_provider_client again evt q after).0
          ≡ ok (some client))
      × ((scm_client C O W now get_scm_client new_provider_client again evt q after).2 ≡ after)
unfolding scm_client client_of_target fetch_client keep_client
scm_client_again C O W now get_scm_client new_provider_client ctx again evt p world after target r
      client ht room miss found made fresh =
    let q : ScmProvider C O = record p {
      cache = cache_add C (client_key target) client r.expires_at p.cache;
    } in
    let hit =
      cache_get-cache_add C (now after) p.skew (client_key target) client r.expires_at p.cache room
        fresh in
    let missed : (cache_get C (now world) (client_key target) p.skew p.cache).0 ≡ none =
      ap (λ x. x.0) miss in
    let kept : (cache_get C (now world) (client_key target) p.skew p.cache).1 ≡ p.cache =
      ap (λ x. x.1) miss in
    let answered : get_scm_client (record p { cache = p.cache }) ctx target world ≡ (ok r, after) =
      found in
    (
      q,
      rw (ht, scm_client, missed, client_of_target, kept, answered, made, fetch_client) refl,
      rw (ht, scm_client, hit, client_of_target) refl,
      rw (ht, scm_client, hit, client_of_target) refl,
    )
