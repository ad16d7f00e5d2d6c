-- ===== src/Shared/Json.antt =====
-- The values that `JSON.parse` returns. A number is a natural number, the negative of a successor, or
-- no integer.
use file_share_app.Base.{
  ℕ, Bool, true, false, Option, none, some, Utf16, utf16_eq, ◌==◌, eqb, if◌then◌else◌, [],
}

mutual
  pub data Json : Type 0 where
    null fraction : Json
    boolean : Bool → Json
    number negative : ℕ → Json
    string : Utf16 → Json
    array : Items → Json
    object : Fields → Json

  pub data Items : Type 0 where
    end : Items
    item : Json → Items → Items

  pub data Fields : Type 0 where
    nil : Fields
    field : Utf16 → Json → Fields → Fields

-- The field of a parsed object; of a repeated name the last counts.
unfoldable pub get_field : Utf16 → Fields → Option Json
get_field name nil = none
get_field name (field n v rest) = or_first (get_field name rest) (n == name) v
  where
    or_first : Option Json → Bool → Json → Option Json
    or_first (some w) b v = some w
    or_first none true v = some v
    or_first none false v = none

-- `v.name` of a value other than null: `undefined` is `none`.
unfoldable pub property : Utf16 → Json → Option Json
property name (object fields) = get_field name fields
property name _ = none

-- `!v`
unfoldable pub is_falsy : Option Json → Bool
is_falsy none = true
is_falsy (some null) = true
is_falsy (some (boolean b)) = if b then false else true
is_falsy (some (number n)) = eqb n 0
is_falsy (some (string [])) = true
is_falsy (some _) = false
