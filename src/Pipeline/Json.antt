-- ===== src/Pipeline/Json.antt =====
-- The values of Python's `json` module: what `json.loads` returns and `json.dumps` takes.
use ragent.Common.{
  ℕ, zero, String, Option, none, some, Bool, true, false, str_eq, ◌||◌, if◌then◌else◌,
}

mutual
  pub data Json : Type 0 where
    null : Json
    bool : Bool → Json
    int : ℕ → Json
    -- -(n + 1)
    negative : ℕ → Json
    -- a float, by its text
    float : String → Json
    str : String → Json
    arr : Items → Json
    obj : Fields → Json

  pub data Items : Type 0 where
    nil : Items
    cons : Json → Items → Items

  pub data Fields : Type 0 where
    end : Fields
    field : String → Json → Fields → Fields

-- data.get(key)
abbrev pub field_of : Fields → String → Option Json
field_of end key = none
field_of (field k v rest) key = if str_eq k key then some v else field_of rest key

-- `v or …` takes the other side for these values.
abbrev pub is_falsy : Json → Bool
is_falsy null = true
is_falsy (bool false) = true
is_falsy (int zero) = true
is_falsy (float t) = str_eq t "0.0" || str_eq t "-0.0"
is_falsy (str t) = str_eq t ""
is_falsy (arr nil) = true
is_falsy (obj end) = true
is_falsy _ = false
