-- ===== src/Json.antt =====
-- Decoded JSON, as `encoding/json` gives it to pkg/coordination/parser/parser.go and
-- pkg/coordination/expressions/parser.go: `interface{}` values. `null` is a nil interface, a float64 is its
-- bit pattern, and the characters of a text stand for the bytes of a Go string. An object is a Go map:
-- the order of its entries stands for the order in which `range` visits them.
use quidditch.Common.{ℕ, String, Bool, true, false, Option, none, some, List, [], ◌∷◌, str_eq}

mutual
  pub data Json : Type 0 where
    null : Json
    bool : Bool → Json
    num : ℕ → Json
    str : String → Json
    arr : Items → Json
    obj : Fields → Json

  pub data Items : Type 0 where
    stop : Items
    item : Json → Items → Items

  pub data Fields : Type 0 where
    end : Fields
    entry : String → Json → Fields → Fields

-- `v, ok := m[k]`
unfoldable pub get : String → Fields → Option Json
get k end = none
get k (entry j v fs) = elim (str_eq j k) [ true ↦ some v | false ↦ get k fs ]

-- `v, ok := x.(string)` and the like, of a value that may be missing.
abbrev pub as_string : Option Json → Option String
as_string (some (str s)) = some s
as_string _ = none

abbrev pub as_number : Option Json → Option ℕ
as_number (some (num n)) = some n
as_number _ = none

abbrev pub as_object : Option Json → Option Fields
as_object (some (obj fs)) = some fs
as_object _ = none

abbrev pub as_array : Option Json → Option Items
as_array (some (arr xs)) = some xs
as_array _ = none

-- A field of a struct that is set when the assertion holds and keeps its zero value otherwise.
abbrev pub or_zero {ℓ} : {A : Type ℓ} → A → Option A → A
or_zero zero_value (some a) = a
or_zero zero_value none = zero_value

abbrev pub items : List Json → Items
items [] = stop
items (x ∷ xs) = item x (items xs)

-- An object of one entry.
abbrev pub single : String → Json → Fields
single k v = entry k v end
