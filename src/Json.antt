-- ===== src/Json.antt =====
-- The JSON values that a recovery state carries in `stop_payload` (src/core/coordinator/state.ts,
-- `z.record(z.string(), z.unknown())`). A number that is no natural is kept by its text.
use browserlogin_client.Prelude.{
  ℕ, String, Bool, false, Option, none, some, str_eq, if◌then◌else◌, ◌==◌,
}

mutual
  pub data Json : Type 0 where
    null : Json
    bool : Bool → Json
    num : ℕ → Json
    real : String → Json
    str : String → Json
    arr : Items → Json
    obj : Fields → Json

  pub data Items : Type 0 where
    nil : Items
    cons : Json → Items → Items

  pub data Fields : Type 0 where
    end : Fields
    field : String → Json → Fields → Fields

-- `o[key]`; none is `undefined`.
abbrev pub get : String → Fields → Option Json
get key end = none
get key (field k v fs) = if str_eq k key then some v else get key fs

-- `value === n` for a natural n.
abbrev pub is_num : Option Json → ℕ → Bool
is_num (some (num m)) n = m == n
is_num _ n = false

-- `value === s` for a text s.
abbrev pub is_str : Option Json → String → Bool
is_str (some (str t)) s = str_eq t s
is_str _ s = false

-- `value === true`.
abbrev pub is_true : Option Json → Bool
is_true (some (bool b)) = b
is_true _ = false

-- `typeof v === "number" && Number.isInteger(v) && v >= 0`.
abbrev pub natural : Option Json → Option ℕ
natural (some (num n)) = some n
natural _ = none
