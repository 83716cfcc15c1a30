-- ===== src/Json.antt =====
-- What the program takes from encoding/json and unicode/utf8: parameters of every model that reads
-- or writes JSON. A decoder is the list of the tokens that it would hand out before io.EOF.
use dax_kiro_proxy.Common.{Bytes, List, Option, Bool}

-- `bad` stands for a token that the decoder answers with an error.
pub data Token : Type 0 where
  open_brace close_brace open_bracket close_bracket : Token
  string : Bytes → Token
  scalar bad : Token

abbrev pub Fields : Type 0
Fields = List (Bytes × Bytes)

pub record Json : Type 0 where
  -- `utf8.Valid`
  pub valid_utf8 : Bytes → Bool
  -- `json.NewDecoder`, its `Token` and `More`
  pub tokens : Bytes → List Token
  -- `json.Unmarshal` into a `map[string]json.RawMessage`, a `[]json.RawMessage` and a `string`
  pub unmarshal_fields : Bytes → Option Fields
  pub unmarshal_items : Bytes → Option (List Bytes)
  pub unmarshal_string : Bytes → Option Bytes
  -- `json.Marshal` of such values
  pub marshal_fields : Fields → Option Bytes
  pub marshal_items : List Bytes → Option Bytes
  -- `json.Marshal` of the map with "type" "text" and this "text"
  pub marshal_text : Bytes → Bytes
  -- `json.Marshal` of a struct of a role and raw contents
  pub marshal_message : Bytes → List Bytes → Option Bytes
  -- `Decode` of a frame into a `map[string]any` with `UseNumber`, and `json.Marshal` of the value
  pub recode : Bytes → Option Bytes
