-- ===== src/Access/State/RoundTrip.antt =====
-- pkg/oauth/state.go: the state that comes back.
use relaymesh.Prelude.{◌≡◌, refl, false, ◌&&◌, [], Bool-cases, inl, inr, if◌then◌else◌}
use relaymesh.Prelude.Text.{Text, same, trim_space, is_blank}
use relaymesh.Prelude.Outcome.{ok}
use relaymesh.Access.State.{OauthState, StateCodec, encode_state, read_state, decode_state}

-- What the encodings promise: each is read back, and base64 has no spaces around it and gives text for
-- the text that JSON is.
pub record ReadsBack (codec : StateCodec) : Type 0 where
  pub marshals :
      (s : OauthState)
      → (raw : Text) × (codec.marshal s ≡ ok raw)
        × (codec.unmarshal raw ≡ ok s)
        × (same (codec.encode raw) [] ≡ false)
  pub decodes : (raw : Text) → codec.decode (codec.encode raw) ≡ ok raw
  pub tidy : (raw : Text) → trim_space (codec.encode raw) ≡ codec.encode raw

-- A state that is encoded with a tenant or an instance key comes back with both, without the spaces
-- around them. The state itself comes back too, or, if it was empty, the encoded text in its place.
pub decode_state-encode_state :
    (codec : StateCodec) (state tenant_id instance_key : Text)
    → ReadsBack codec
    → (is_blank tenant_id && is_blank instance_key) ≡ false
    → decode_state codec (encode_state codec state tenant_id instance_key) ≡ record {
      state = if same state [] then encode_state codec state tenant_id instance_key else state;
      tenant_id = trim_space tenant_id;
      instance_key = trim_space instance_key;
    }
unfolding decode_state encode_state read_state
decode_state-encode_state codec state tenant_id instance_key h some_key =
    let payload : OauthState = record {
      state = state;
      tenant_id = trim_space tenant_id;
      instance_key = trim_space instance_key;
    } in
    let (raw, marshalled, unmarshalled, full) = h.marshals payload in
    let sent : encode_state codec state tenant_id instance_key ≡ codec.encode raw =
      rw (some_key, encode_state, marshalled) refl in
    rw (sent) (elim (Bool-cases (same state [])) [
      | inl y ↦
          rw (h.tidy raw, decode_state, full, h.decodes raw, unmarshalled, y, read_state)
            (rw (h.tidy raw) refl)
      | inr n ↦ rw (h.tidy raw, decode_state, full, h.decodes raw, unmarshalled, n, read_state) refl
    ])
