-- ===== src/Crates/Json.antt =====
-- `serde_json::Value`, with the documented variants, its maps and `as_str`.
pub mod Laws
use rowdy.Prelude.{String, ℕ, Bool, Option, none, some, List, [], ◌∷◌, ◌==◌, if◌then◌else◌}

-- `array` and `object` hold lists of values, which are types of the same block.
mutual
  pub data JsonValue : Type 0 where
    null : JsonValue
    boolean : Bool → JsonValue
    number : ℕ → JsonValue
    string : String → JsonValue
    array : JsonItems → JsonValue
    object : JsonMap → JsonValue

  pub data JsonItems : Type 0 where
    nil : JsonItems
    cons : JsonValue → JsonItems → JsonItems

  pub data JsonMap : Type 0 where
    end : JsonMap
    entry : String → JsonValue → JsonMap → JsonMap

unfoldable pub as_str : JsonValue → Option String
as_str (string s) = some s
as_str _ = none

-- `JsonMap::get` and `JsonMap::insert`.
unfoldable pub json_get : String → JsonMap → Option JsonValue
json_get k end = none
json_get k (entry j v m) = if j == k then some v else json_get k m

unfoldable pub json_insert : String → JsonValue → JsonMap → JsonMap
json_insert k v end = entry k v end
json_insert k v (entry j w m) = if j == k then entry k v m else entry j w (json_insert k v m)

-- `collect` into a map: the last pair of a key counts.
unfoldable pub json_collect : JsonMap → List (String × JsonValue) → JsonMap
json_collect m [] = m
json_collect m ((k, v) ∷ ps) = json_collect (json_insert k v m) ps
