-- ===== src/Kiro/Effort.antt =====
-- internal/kirofeature/effort.go: the effort of a session's model, one function for each method under the
-- lock. The answer of the peer is an argument; `calls` collects the pairs that were asked for.
use dax_kiro_proxy.Common.{
  ℕ, Bool, true, false, not, ◌&&◌, ◌||◌, List, [], ◌∷◌, Option, none, some, ℕ_eq, Bytes_eq, Bytes,
  bytes, ◌==◌, length, ltb, leb, if◌then◌else◌, is_empty, lookup, ◌>>=◌, ◌>>◌, check,
}
use dax_kiro_proxy.Json.{Json, Fields}
use dax_kiro_proxy.Ndjson.{object}

pub data Capability : Type 0 where
  unknown current unsupported unavailable configured : Capability

pub record Pair : Type 0 where
  pub model : Bytes
  pub effort : Bytes

-- `==` on pairs.
unfoldable pub same_pair : Pair → Pair → Bool
same_pair p q = p.model == q.model && p.effort == q.effort

unfoldable pub has_pair : Pair → List Pair → Bool
has_pair p [] = false
has_pair p (q ∷ qs) = same_pair p q || has_pair p qs

-- The reasons are texts for the display.
pub record Status : Type 0 where
  pub state : Capability
  pub model : Bytes
  pub requested : Bytes
  pub applied : Bytes
  pub rejected : Bool

pub record Effort : Type 0 where
  pub advertised : Bool
  pub available : Bool
  pub known_unsupported : List Pair
  pub rejected : List Pair
  pub applied : Pair
  pub status : Status

abbrev pub max_probes : ℕ
max_probes = 1280

abbrev pub no_pair : Pair
no_pair = record { model = []; effort = [] }

abbrev pub unknown_status : Status
unknown_status = record {
  state = unknown;
  model = [];
  requested = [];
  applied = [];
  rejected = false;
}

-- `Normalize`, after `strings.ToLower` and `strings.TrimSpace`.
unfoldable pub normalize : (Bytes → Bytes) → Bytes → Bytes
normalize clean value =
    let s = clean value in
    if s == bytes "low"
      || s == bytes "medium"
      || s == bytes "high"
      || s == bytes "xhigh"
      || s == bytes "max"
    then s
    else []

unfoldable pub add_unsupported : (Bytes → Bytes) → List Pair → List Pair → List Pair
add_unsupported clean [] known = known
add_unsupported clean (p ∷ ps) known =
    let pair : Pair = record { model = p.model; effort = normalize clean p.effort } in
    let fits =
      ltb 0 (length p.model)
      && leb (length p.model) 256
      && not (is_empty pair.effort)
      && not (has_pair pair known) in
    let next = add_unsupported clean ps (if fits then pair ∷ known else known) in
    if leb max_probes (length known) then known else next

-- `NewEffort`.
unfoldable pub new_effort : (Bytes → Bytes) → List Pair → Effort
new_effort clean pairs = record {
  advertised = false;
  available = false;
  known_unsupported = add_unsupported clean pairs [];
  rejected = [];
  applied = no_pair;
  status = unknown_status;
}

abbrev pub model_changed : Effort → Effort
model_changed c = record c { applied = no_pair; status = unknown_status }

abbrev pub process_changed : Effort → Effort
process_changed c = record c {
  advertised = false;
  available = false;
  applied = no_pair;
  status = unknown_status;
}

-- What the peer answers: no answer, a refusal, or a result, which may confirm.
pub data Answer : Type 0 where
  broken refused : Answer
  result : Bool → Answer

-- What `Sync` returns: an error or the status, with the pair that it asked for.
pub record Outcome : Type 0 where
  pub after : Effort
  pub failed : Bool
  pub asked : Option Pair

abbrev pub saved : Effort → Status → Outcome
saved c s = record { after = record c { status = s }; failed = false; asked = none }

-- What `Sync` makes of the answer for a pair.
unfoldable pub probe : Answer → Pair → Status → Effort → Outcome
probe broken pair s c = record { after = c; failed = true; asked = some pair }
probe refused pair s c =
    let s' = record s { rejected = true } in
    record {
      after = record c { rejected = pair ∷ c.rejected; status = s' };
      failed = false;
      asked = some pair;
    }
probe (result false) pair s c =
    let s' = record s { rejected = true } in
    record {
      after = record c { rejected = pair ∷ c.rejected; status = s' };
      failed = false;
      asked = some pair;
    }
probe (result true) pair s c =
    let s' = record s { state = current; applied = pair.effort } in
    record { after = record c { applied = pair; status = s' }; failed = false; asked = some pair }

-- `Sync`, from a valid pair on.
unfoldable pub sync_pair : Answer → Pair → Status → Effort → Outcome
sync_pair a pair s c =
    if pair.model == bytes "auto" || has_pair pair c.known_unsupported
    then saved c (record s { state = unsupported })
    else if not c.advertised
    then saved c s
    else if not c.available
    then saved c (record s { state = unavailable })
    else if same_pair c.applied pair
    then saved c (record s { state = current })
    else if has_pair pair c.rejected
    then saved c (record s { rejected = true })
    else if leb max_probes (length c.rejected)
    then saved c s
    else probe a pair s c

-- `Sync`.
unfoldable pub sync : (Bytes → Bytes) → Answer → Bytes → Bytes → Bytes → Effort → Outcome
sync clean a session model requested c =
    let value = normalize clean requested in
    let s : Status = record {
      state = unknown;
      model = model;
      requested = value;
      applied = if c.applied.model == model then c.applied.effort else [];
      rejected = false;
    } in
    if is_empty model || ltb 256 (length model) || is_empty session || ltb 1024 (length session)
    then record { after = c; failed = true; asked = none }
    else if is_empty value
    then saved c s
    else sync_pair a (record { model = model; effort = value }) s c

abbrev starts_text : Bytes → Bool
starts_text [] = false
starts_text (b ∷ s) = b == 34

abbrev starts_list : Bytes → Bool
starts_list [] = false
starts_list (b ∷ s) = b == 91

abbrev field : Bytes → Fields → Bytes
field k fs = elim (lookup k fs) [ none ↦ [] | some raw ↦ raw ]

module _ (json : Json) where
  -- `stringField`.
  unfoldable pub string_field : Bytes → Option Bytes
  string_field raw = if starts_text raw then json.unmarshal_string raw else none

  -- The answer that a result of the peer is.
  unfoldable pub answer_of : Bytes → Answer
  answer_of raw = result (elim (object json raw) [
    | none ↦ false
    | some fs ↦ field (bytes "success") fs == bytes "true"
  ])

  -- Whether a command of the list is the one for efforts.
  unfoldable pub has_effort : List Bytes → Option Bool
  has_effort [] = some false
  has_effort (raw ∷ raws) = do
    obj ← object json raw
    name ← string_field (field (bytes "name") obj)
    check (leb (length name) 256)
    others ← has_effort raws
    some (name == bytes "/effort" || name == bytes "effort" || others)

  -- `Advertise`; an error leaves the effort.
  unfoldable pub advertise : Bytes → Effort → Option Effort
  advertise raw c = do
    check (leb (length raw) 65536)
    fields ← object json raw
    let items = field (bytes "commands") fields
    check (starts_list items)
    commands ← json.unmarshal_items items
    check (leb (length commands) 128)
    available ← has_effort commands
    some (record c { advertised = true; available = available })
