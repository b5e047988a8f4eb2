-- ===== src/Access/State.antt =====
-- pkg/oauth/state.go: the state that goes through the provider and back. encoding/json and
-- encoding/base64 are parameters.
pub mod RoundTrip
use relaymesh.Prelude.{Bool, ◌&&◌, Option, none, some, [], if◌then◌else◌}
use relaymesh.Prelude.Text.{Text, same, trim_space}
use relaymesh.Prelude.Outcome.{Outcome, ok, fail, ◌>>=◌}

-- oauthState
pub record OauthState : Type 0 where
  pub state : Text
  pub tenant_id : Text
  pub instance_key : Text

pub record StateCodec : Type 0 where
  -- json.Marshal and json.Unmarshal of an oauthState
  pub marshal : OauthState → Outcome Text
  pub unmarshal : Text → Outcome OauthState
  -- base64.RawURLEncoding
  pub encode : Text → Text
  pub decode : Text → Outcome Text

-- A state alone
abbrev pub bare : Text → OauthState
bare value = record { state = value; tenant_id = []; instance_key = [] }

module _ (codec : StateCodec) where
  -- encodeState
  unfoldable pub encode_state : Text → Text → Text → Text
  encode_state state tenant_id instance_key =
      let tenant = trim_space tenant_id in
      let key = trim_space instance_key in
      let payload : OauthState = record { state = state; tenant_id = tenant; instance_key = key } in
      if same tenant [] && same key []
      then state
      else elim (codec.marshal payload) [ fail e ↦ state | ok raw ↦ codec.encode raw ]

  -- What decodeState makes of the payload that it reads from a value.
  unfoldable pub read_state : Text → Outcome OauthState → OauthState
  read_state value (fail e) = bare value
  read_state value (ok payload) =
      if same payload.state [] then record payload { state = value } else payload

  -- decodeState
  unfoldable pub decode_state : Text → OauthState
  unfolding read_state
  decode_state value =
      let trimmed = trim_space value in
      if same trimmed []
      then bare []
      else read_state trimmed (codec.decode trimmed >>= codec.unmarshal)
