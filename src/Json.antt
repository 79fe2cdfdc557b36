-- ===== src/Json.antt =====
-- The JSON columns: `dict[str, Any]` and what it holds. Of the numbers only the naturals are
-- needed, and a decimal or a float is kept by the text that it is written as.
use lance_laker.Base.{ℕ, String, Bool, Option, none, some, str_eq, if◌then◌else◌}

mutual
  pub data Json : Type 0 where
    null : Json
    truth : Bool → Json
    num : ℕ → Json
    str : String → Json
    arr : Items → Json
    obj : Fields → Json

  pub data Items : Type 0 where
    nil : Items
    cons : Json → Items → Items

  pub data Fields : Type 0 where
    end : Fields
    field : String → Json → Fields → Fields

-- `get` of a dict: a dict has a key once.
unfoldable pub get_field : String → Fields → Option Json
get_field key end = none
get_field key (field k value rest) = if str_eq k key then some value else get_field key rest
