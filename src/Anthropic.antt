-- ===== src/Anthropic.antt =====
-- internal/anthropic/request.go: the request after decoding. `Block.media` is left out: it is set by
-- the media decoder, and nothing modelled here reads it.
pub mod LatestUser
pub mod Stream
pub mod Bracketing
pub mod WellFormed
use dax_kiro_proxy.Common.{
  ℕ, zero, suc, Bool, true, false, List, [], ◌∷◌, Option, none, some, Bytes, Bytes_eq, bytes, ◌==◌,
  get_elem?, length, if◌then◌else◌,
}
use dax_kiro_proxy.Json.{Fields}

abbrev pub max_body_bytes : ℕ
max_body_bytes = 16777216

pub record Block : Type 0 where
  pub type : Bytes
  pub text : Bytes
  pub raw : Bytes

pub record Message : Type 0 where
  pub role : Bytes
  pub content : List Block

pub record ClientIdentity : Type 0 where
  pub session : Bytes
  pub agent : Bytes
  pub parent_agent : Bytes

pub record Request : Type 0 where
  pub identity : ClientIdentity
  pub model : Bytes
  pub max_tokens : ℕ
  pub stream : Bool
  pub system : List Block
  pub messages : List Message
  pub tools : List Bytes
  pub effort : Bytes
  pub extra : Fields
  pub warnings : List Bytes

-- The roles, as bytes.
abbrev pub user : Bytes
user = bytes "user"

abbrev pub assistant : Bytes
assistant = bytes "assistant"

abbrev pub system : Bytes
system = bytes "system"

-- The loop of `LatestUserIndex`, from message `i - 1` down to message 0.
unfoldable pub latest_user_below : List Message → ℕ → Option ℕ
latest_user_below ms zero = none
latest_user_below ms (suc i) =
    let rest = latest_user_below ms i in
    elim (get_elem? ms i) [
      | none ↦ none
      | some m ↦ if m.role == system then rest else if m.role == user then some i else none
    ]

-- `none` is the index -1.
unfoldable pub latest_user_index : Request → Option ℕ
unfolding latest_user_below
latest_user_index r = latest_user_below r.messages (length r.messages)
