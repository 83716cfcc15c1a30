-- ===== src/Examples/EffortExamples.antt =====
-- An effort that the peer refuses.
use dax_kiro_proxy.Common.{
  ◌≤◌, ◌≡◌, refl, true, false, not, ◌||◌, List, [], ◌∷◌, none, some, Bytes, bytes, equal, length,
  lookup,
}
use dax_kiro_proxy.Json.{Json, open_brace, close_brace}
use dax_kiro_proxy.Ndjson.{object, document, members, scan, read_key, read_value, more, finish}
use dax_kiro_proxy.Kiro.Effort.{
  Pair, same_pair, has_pair, Effort, refused, result, normalize, add_unsupported, new_effort, probe,
  sync_pair, sync, advertise, has_effort, string_field,
}
use dax_kiro_proxy.Kiro.Refusals.{
  Event, advertises, syncs, step, run, Distinct, is_current, status_pair, refusal, refusals,
}
use dax_kiro_proxy.Kiro.Probes.{run-sync, run-refusals}

-- The peer has one command, which is for efforts.
abbrev json : Json
json = record {
  valid_utf8 = λ b. true;
  tokens = λ b. open_brace ∷ close_brace ∷ [];
  unmarshal_fields = λ b. some ((bytes "commands", bytes "[") ∷ (bytes "name", bytes "\"") ∷ []);
  unmarshal_items = λ b. some (bytes "{}" ∷ []);
  unmarshal_string = λ b. some (bytes "effort");
  marshal_fields = λ m. none;
  marshal_items = λ m. none;
  marshal_text = λ t. t;
  marshal_message = λ role raws. none;
  recode = λ b. none;
}

abbrev clean : Bytes → Bytes
clean b = b

abbrev events : List Event
events = advertises [] ∷ syncs refused (bytes "s") (bytes "m") (bytes "high") ∷ []

abbrev before : Effort
before = run json clean events (new_effort clean [])

abbrev pair : Bytes → Pair
pair effort = record { model = bytes "m"; effort = effort }

rejects_high : before.rejected ≡ pair (bytes "high") ∷ []
unfolding run step new_effort add_unsupported advertise has_effort string_field sync sync_pair probe
    normalize has_pair same_pair object document members scan read_key read_value more finish equal
    lookup
rejects_high = refl

asks_low :
    (sync clean (result true) (bytes "s") (bytes "m") (bytes "low") before).asked
    ≡ some (pair (bytes "low"))
unfolding run step new_effort add_unsupported advertise has_effort string_field sync sync_pair probe
    normalize has_pair same_pair object document members scan read_key read_value more finish equal
    lookup
asks_low = refl

refuses_high : refusals json clean events (new_effort clean []) ≡ pair (bytes "high") ∷ []
unfolding refusals refusal step new_effort add_unsupported advertise has_effort string_field sync
    sync_pair probe normalize has_pair same_pair object document members scan read_key read_value
    more finish equal lookup
refuses_high = refl

run-sync_example :
    has_pair (pair (bytes "low")) (refusals json clean events (new_effort clean [])) ≡ false
run-sync_example =
    run-sync json clean [] events (result true) (bytes "s") (bytes "m") (bytes "low")
      (pair (bytes "low")) asks_low

run-refusals_example :
    Distinct (refusals json clean events (new_effort clean []))
    × (length (refusals json clean events (new_effort clean [])) ≤ 1280)
    × ((not (is_current before.status.state)
          || same_pair before.applied (status_pair before.status))
        ≡ true)
run-refusals_example = run-refusals json clean [] events
