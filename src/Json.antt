-- ===== src/Json.antt =====
-- Values of the type `unknown` as they come out of JSON, and records of them. A number is an
-- integer; a record holds each of its names once.
use tosdk.Prelude.{ℤ, Bool, Option, none, some, if◌then◌else◌}
use tosdk.Strings.{Text, text_eq}

mutual
  pub data Json : Type 0 where
    null : Json
    boolean : Bool → Json
    number : ℤ → Json
    string : Text → Json
    array : Items → Json
    object : Fields → Json

  pub data Items : Type 0 where
    nil : Items
    cons : Json → Items → Items

  -- Record<string, unknown>
  pub data Fields : Type 0 where
    empty : Fields
    field : Text → Json → Fields → Fields

-- record[name], `none` for undefined
unfoldable pub get_field : Text → Fields → Option Json
get_field name empty = none
get_field name (field n value rest) =
    let later = get_field name rest in if text_eq n name then some value else later

-- record[name] = value
unfoldable pub set_field : Text → Json → Fields → Fields
set_field name value empty = field name value empty
set_field name value (field n v rest) =
    let later = set_field name value rest in
    if text_eq n name then field n value rest else field n v later

-- typeof value === 'string' ? value : undefined
unfoldable pub as_string : Option Json → Option Text
as_string (some (string s)) = some s
as_string _ = none

-- typeof value === 'object' && value ? value : undefined, for a value read as a record
unfoldable pub as_record : Option Json → Option Fields
as_record (some (object fields)) = some fields
as_record _ = none
