-- ===== src/Directory/Settings.antt =====
-- backend/src/common/utils/json-settings.util.ts: fields of a settings namespace, whose JSON has no
-- fixed schema. Numbers in it are whole and not negative.
use text.Mathlib.Text.{◌==◌}
use kapis_receptionist.Prelude.{ℕ, Bool, Option, none, some, String, if◌then◌else◌}

mutual
  pub data Json : Type 0 where
    null : Json
    number : ℕ → Json
    string : String → Json
    boolean : Bool → Json
    array : Fields → Json
    object : Fields → Json

  -- The properties of an object, or the items of an array under their indices.
  pub data Fields : Type 0 where
    end : Fields
    field : String → Json → Fields → Fields

-- `namespace[key]`
unfoldable pub field_of : String → Fields → Option Json
field_of key end = none
field_of key (field k v rest) = if k == key then some v else field_of key rest

abbrev number_or : Option Json → ℕ → ℕ
number_or (some (number n)) fallback = n
number_or _ fallback = fallback

-- `value.length > 0`
abbrev text_or : Option Json → String → String
text_or (some (string s)) fallback = if s == "" then fallback else s
text_or _ fallback = fallback

abbrev boolean_or : Option Json → Bool → Bool
boolean_or (some (boolean b)) fallback = b
boolean_or _ fallback = fallback

abbrev object_or_empty : Option Json → Fields
object_or_empty (some (object fields)) = fields
object_or_empty _ = end

unfoldable pub read_number_setting : Fields → String → ℕ → ℕ
unfolding field_of
read_number_setting namespace key fallback = number_or (field_of key namespace) fallback

unfoldable pub read_string_setting : Fields → String → String → String
unfolding field_of
read_string_setting namespace key fallback = text_or (field_of key namespace) fallback

unfoldable pub read_boolean_setting : Fields → String → Bool → Bool
unfolding field_of
read_boolean_setting namespace key fallback = boolean_or (field_of key namespace) fallback

unfoldable pub read_object_setting : Fields → String → Fields
unfolding field_of
read_object_setting namespace key = object_or_empty (field_of key namespace)
