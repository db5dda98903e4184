-- ===== src/Crates/Json/Laws.antt =====
-- What a JSON map holds after an insertion.
use rowdy.Prelude.{String, some, ◌≡◌, refl, arith, eq_iff, ◌==◌, if◌then◌else◌}
use rowdy.Crates.Json.{JsonValue, JsonMap, end, entry, json_get, json_insert}

-- An insertion changes the value of its own key only.
pub json_get-json_insert :
    (k wanted : String) (v : JsonValue) (m : JsonMap)
    → json_get wanted (json_insert k v m) ≡ (if k == wanted then some v else json_get wanted m)
unfolding json_get json_insert
json_get-json_insert k wanted v end = refl
json_get-json_insert k wanted v (entry j w m) =
    ground (arith, eq_iff k wanted, eq_iff j k, eq_iff j wanted, json_get-json_insert k wanted v m)
