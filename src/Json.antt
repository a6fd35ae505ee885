-- ===== src/Json.antt =====
-- The part of JsonCpp that the program calls: a parameter of the model, since its sources are not in
-- the repository. `none` is its exception `Json::LogicError`.
-- `operator[]` of a value that is not const inserts a null member where the key is missing. That is
-- not modelled beyond its result, null: the program asks no size and no member names of a value
-- after such a read of it.
pub mod Tree
use tabmo_codding_challenge.Common.Text.{Bytes, ◌=s=◌}
use tabmo_codding_challenge.Common.Int.{ℤ, IsInt}
use tabmo_codding_challenge.Common.{
  ℕ, ◌<◌, ◌≡◌, ◌↔◌, Bool, true, false, Option, none, some, List, [], if◌then◌else◌, length,
}

pub record Json : Type 1 where
  pub Value : Type 0
  -- A default-constructed value, and a text.
  pub null : Value
  pub text : Bytes → Value
  -- `v[key]`, `v[key] = text`.
  pub get : Value → Bytes → Option Value
  pub put : Value → Bytes → Bytes → Value
  pub as_string : Value → Option Bytes
  pub as_int : Value → Option ℤ
  pub as_bool : Value → Option Bool
  pub get_member_names : Value → Option (List Bytes)
  pub empty : Value → Bool
  pub size : Value → ℕ
  -- The values from `begin()` to `end()`.
  pub items : Value → List Value

-- What JsonCpp documents of a value that is null or an object.
module _ (j : Json) where
  open j use {Value, null, text, get, put, as_string, size, items}

  pub record IsJson : Type 1 where
    pub IsObject : Value → Type 0
    pub null-IsObject : IsObject null
    pub put-IsObject : (v : Value) (k s : Bytes) → IsObject v → IsObject (put v k s)
    pub get-null : (k : Bytes) → get null k ≡ some null
    pub get-put :
        (v : Value) (k s i : Bytes)
        → IsObject v
        → get (put v k s) i ≡ (if k =s= i then some (text s) else get v i)
    pub as_string-text : (s : Bytes) → as_string (text s) ≡ some s
    pub as_string-null : as_string null ≡ some []
    pub size-items : (v : Value) → size v ≡ length (items v)
    pub size-null : size null ≡ 0
    pub size-put : (v : Value) (k s : Bytes) → IsObject v → 0 < size (put v k s)

-- What JsonCpp documents of `asInt`: it throws where the number is not in the range of `int`.
abbrev pub GivesInts : Json → Type 0
GivesInts j = (v : j.Value) (n : ℤ) → j.as_int v ≡ some n → IsInt n
