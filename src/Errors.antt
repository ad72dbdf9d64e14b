-- ===== src/Errors.antt =====
-- src/types/errors.rs: the error enumerations, and the outcome of fallible code. The payloads that
-- only carry a foreign error (of std::io, clap, tokio, serde_json, hex) are left out.
use smo_multi_rs.Base.{ℕ, List}

pub data EncodingError : Type 0 where
  not_enough_data bad_utf8 int_conversion hex_conversion connection_reset : EncodingError
  connection_close custom_error : EncodingError

pub data ClientInitError : Type 0 where
  too_many_players banned_ip banned_id bad_handshake : ClientInitError

pub data SmoError : Type 0 where
  invalid_id : List ℕ → SmoError
  encoding : EncodingError → SmoError
  io clap send_channel recv_channel thread_join json_error udp_not_init : SmoError
  client_init : ClientInitError → SmoError

-- What a call comes to: a value, an `Err`, or a panic, which unwinds the task.
pub data Outcome {ℓ κ} (E : Type ℓ) (A : Type κ) : Type (ℓ ⊔ κ) where
  ok : A → Outcome E A
  err : E → Outcome E A
  panic : Outcome E A

-- `serde::ser::Error::custom` and `serde::de::Error::custom` for `EncodingError`: the message is
-- dropped.
unfoldable pub custom : List ℕ → EncodingError
custom msg = custom_error
