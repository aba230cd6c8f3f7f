-- ===== src/Patch/Json.antt =====
-- The values that encoding/json decodes into `any`. A map[string]any is an association list in which
-- the first pair of a key counts; the order of the pairs stands for nothing.
use kubectl_hpa_status.Prelude.{Bool, Option, none, some, String, str_eq, if◌then◌else◌}

mutual
  pub data Json : Type 0 where
    null : Json
    bool : Bool → Json
    -- A number or a string, by its text.
    scalar : String → Json
    array : Items → Json
    object : Fields → Json

  pub data Items : Type 0 where
    nil : Items
    cons : Json → Items → Items

  pub data Fields : Type 0 where
    empty : Fields
    field : String → Json → Fields → Fields

-- existing, exists := m[k]
unfoldable pub lookup : String → Fields → Option Json
lookup k empty = none
lookup k (field j v m) = if str_eq j k then some v else lookup k m

-- m[k] = v
unfoldable pub set : String → Json → Fields → Fields
set k v empty = field k v empty
set k v (field j w m) = if str_eq j k then field j v m else field j w (set k v m)
