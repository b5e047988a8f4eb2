-- ===== src/Worker/Clients/Bounded.antt =====
-- scmClientCache of scm_client_provider.go, sdk/go/worker: what its operations keep.
use relaymesh.Prelude.{
  ℕ, zero, suc, ◌+◌, ◌-◌, ◌≤◌, ◌<◌, ◌≡◌, refl, Bool, true, false, Option, none, some, List, [], ◌∷◌,
  length, ltb, if◌then◌else◌, Bool-cases, inl, inr, arith,
}
use relaymesh.Prelude.Int.{ℤ}
use relaymesh.Prelude.Text.{Text, same, same_iff}
use relaymesh.Worker.Clients.{
  Entry, ClientCache, expired, new_cache, find, drop_key, drop_last, evict, cache_get, cache_add,
  get_found, add_found,
}

module _ (C : Type 0) where
  -- Whether a key is in a list of elements.
  abbrev pub has_key : Text → List (Entry C) → Bool
  has_key key [] = false
  has_key key (e ∷ es) = let rest = has_key key es in if same e.key key then true else rest

  -- No key stands twice.
  abbrev pub IsKeyed : List (Entry C) → Type 0
  IsKeyed [] = Unit
  IsKeyed (e ∷ es) = (has_key e.key es ≡ false) × IsKeyed es

  -- A cache has room for one element at least, no more elements than room, and no key twice.
  pub record IsBounded (c : ClientCache C) : Type 0 where
    pub room : 0 < c.size
    pub fits : length c.order ≤ c.size
    pub keyed : IsKeyed c.order

  pub find-none : (key : Text) (l : List (Entry C)) → find C key l ≡ none → has_key key l ≡ false
  unfolding find
  find-none key [] h = refl
  find-none key (e ∷ es) h = elim (Bool-cases (same e.key key)) [
    | inl y ↦ absurd (cc (rw (y, find) at h))
    | inr n ↦ rw n (find-none key es (rw (n, find) at h))
  ]

  pub find-some :
      (key : Text) (l : List (Entry C)) (e : Entry C) → find C key l ≡ some e → e.key ≡ key
  unfolding find
  find-some key [] e h = absurd (cc h)
  find-some key (f ∷ es) e h = elim (Bool-cases (same f.key key)) [
    | inl y ↦ cc (rw (y, find) at h, (same_iff f.key key).0 y)
    | inr n ↦ find-some key es e (rw (n, find) at h)
  ]

  has_key-drop_key :
      (j key : Text) (l : List (Entry C))
      → has_key j l ≡ false
      → has_key j (drop_key C key l) ≡ false
  unfolding drop_key
  has_key-drop_key j key [] h = refl
  has_key-drop_key j key (e ∷ es) h = ground (arith, has_key-drop_key j key es)

  -- A dropped key is gone.
  gone : (key : Text) (l : List (Entry C)) → IsKeyed l → has_key key (drop_key C key l) ≡ false
  unfolding drop_key
  gone key [] k = refl
  gone key (e ∷ es) k = elim (Bool-cases (same e.key key)) [
    | inl y ↦ rw (y, drop_key) (rw⁻¹ ((same_iff e.key key).0 y) k.0)
    | inr n ↦ ground (arith, n, gone key es k.1)
  ]

  drop_key-IsKeyed : (key : Text) (l : List (Entry C)) → IsKeyed l → IsKeyed (drop_key C key l)
  unfolding drop_key
  drop_key-IsKeyed key [] k = tt
  drop_key-IsKeyed key (e ∷ es) k = elim (Bool-cases (same e.key key)) [
    | inl y ↦ rw (y, drop_key) k.1
    | inr n ↦ rw (n, drop_key) (has_key-drop_key e.key key es k.0, drop_key-IsKeyed key es k.1)
  ]

  length-drop_key : (key : Text) (l : List (Entry C)) → length (drop_key C key l) ≤ length l
  unfolding drop_key
  length-drop_key key [] = omega arith
  length-drop_key key (e ∷ es) = ground (arith, length-drop_key key es)

  length-drop_found :
      (key : Text) (l : List (Entry C))
      → has_key key l ≡ true
      → length (drop_key C key l) + 1 ≡ length l
  unfolding drop_key
  length-drop_found key [] h = absurd (cc h)
  length-drop_found key (e ∷ es) h = ground (arith, length-drop_found key es)

  has_key-drop_last :
      (key : Text) (l : List (Entry C))
      → has_key key l ≡ false
      → has_key key (drop_last C l) ≡ false
  unfolding drop_last
  has_key-drop_last key [] h = refl
  has_key-drop_last key (e ∷ []) h = refl
  has_key-drop_last key (e ∷ f ∷ es) h = ground (arith, has_key-drop_last key (f ∷ es))

  drop_last-IsKeyed : (l : List (Entry C)) → IsKeyed l → IsKeyed (drop_last C l)
  unfolding drop_last
  drop_last-IsKeyed [] k = tt
  drop_last-IsKeyed (e ∷ []) k = tt
  drop_last-IsKeyed (e ∷ f ∷ es) k =
      (has_key-drop_last e.key (f ∷ es) k.0, drop_last-IsKeyed (f ∷ es) k.1)

  length-drop_last : (l : List (Entry C)) → length (drop_last C l) ≡ length l - 1
  unfolding drop_last
  length-drop_last [] = omega arith
  length-drop_last (e ∷ []) = omega arith
  length-drop_last (e ∷ f ∷ es) = omega (arith, length-drop_last (f ∷ es))

  evict-IsKeyed : (fuel size : ℕ) (l : List (Entry C)) → IsKeyed l → IsKeyed (evict C fuel size l)
  unfolding evict
  evict-IsKeyed zero size l k = k
  evict-IsKeyed (suc fuel) size l k = elim (Bool-cases (ltb size (length l))) [
    | inl y ↦ rw (y, evict) (evict-IsKeyed fuel size (drop_last C l) (drop_last-IsKeyed l k))
    | inr n ↦ rw (n, evict) k
  ]

  -- Fuel for each element is enough.
  length-evict :
      (fuel size : ℕ) (l : List (Entry C))
      → length l ≤ fuel + size
      → length (evict C fuel size l) ≤ size
  unfolding evict
  length-evict zero size l h = omega (arith, h)
  length-evict (suc fuel) size l h =
      ground (arith, length-drop_last l, length-evict fuel size (drop_last C l))

  has_key_found :
      (key : Text) (l : List (Entry C)) (e : Entry C) → find C key l ≡ some e → has_key key l ≡ true
  unfolding find
  has_key_found key [] e h = absurd (cc h)
  has_key_found key (f ∷ es) e h = elim (Bool-cases (same f.key key)) [
    | inl y ↦ rw y refl
    | inr n ↦ rw n (has_key_found key es e (rw (n, find) at h))
  ]

  -- A new element in front, in place of the one with its key.
  renewed-IsBounded :
      (key : Text) (c : ClientCache C) (e old : Entry C)
      → e.key ≡ key
      → find C key c.order ≡ some old
      → IsBounded c
      → IsBounded (record c { order = e ∷ drop_key C key c.order })
  renewed-IsBounded key c e old named h b = record {
    room = b.room;
    fits = omega (arith, length-drop_found key c.order (has_key_found key c.order old h), b.fits);
    keyed = (rw named (gone key c.order b.keyed), drop_key-IsKeyed key c.order b.keyed);
  }

  get_found-IsBounded :
      (now : ℕ) (key : Text) (skew : ℕ) (c : ClientCache C) (o : Option (Entry C))
      → find C key c.order ≡ o
      → IsBounded c
      → IsBounded (get_found C now key skew c o).1
  unfolding get_found
  get_found-IsBounded now key skew c none h b = b
  get_found-IsBounded now key skew c (some e) h b =
      elim (Bool-cases (expired now e.expires_at skew)) [
        | inl y ↦
            rw (y, get_found)
              (record {
                room = b.room;
                fits = omega (arith, length-drop_key key c.order, b.fits);
                keyed = drop_key-IsKeyed key c.order b.keyed;
              })
        | inr n ↦ rw (n, get_found) (renewed-IsBounded key c e e (find-some key c.order e h) h b)
      ]

  add_found-IsBounded :
      (e : Entry C) (c : ClientCache C) (o : Option (Entry C))
      → find C e.key c.order ≡ o
      → IsBounded c
      → IsBounded (add_found C e c o)
  unfolding add_found
  add_found-IsBounded e c (some old) h b = renewed-IsBounded e.key c e old refl h b
  add_found-IsBounded e c none h b = record {
    room = b.room;
    fits = length-evict (length c.order + 1) c.size (e ∷ c.order) (omega arith);
    keyed =
        evict-IsKeyed (length c.order + 1) c.size (e ∷ c.order)
          (find-none e.key c.order h, b.keyed);
  }

-- A new cache of clients, whatever size is asked for, has room for one element at least, no more
-- elements than it has room for, and no key twice. Reading an entry and adding one keep this so.
pub client_cache-IsBounded :
    (C : Type 0) (size : ℤ) (c : ClientCache C) (now skew expires_at : ℕ) (key : Text) (client : C)
    → IsBounded C c
    → IsBounded C (new_cache C size)
      × IsBounded C (cache_get C now key skew c).1
      × IsBounded C (cache_add C key client expires_at c)
unfolding new_cache cache_get cache_add
client_cache-IsBounded C size c now skew expires_at key client b = (
  record { room = ground arith; fits = omega arith; keyed = tt },
  get_found-IsBounded C now key skew c (find C key c.order) refl b,
  add_found-IsBounded C _ c (find C key c.order) refl b,
)
