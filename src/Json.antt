-- ===== src/Json.antt =====
-- Python's view of JSON: the values that `json.loads` makes, and what the code asks of them.
use lluna.Prelude.{
  ℕ, String, Bool, true, false, not, List, [], ◌∷◌, Option, none, some, ◌/◌, ◌^◌, suc, ◌-◌, ◌*◌,
  ◌≡◌, refl, nat_beq, arith, if◌then◌else◌,
}
use lluna.Prelude.Key.{◌==◌, string_key}
use lluna.Prelude.Dict.{Dict, get_or, put, discard, get_or-put, get_or-discard}
use lluna.Prelude.Int.{ℤ, int_lt}

mutual
  -- `decimal m k` is the number m / 10^k that is written with a point or an exponent.
  pub data Json : Type 0 where
    null : Json
    truth : Bool → Json
    whole : ℤ → Json
    decimal : ℤ → ℕ → Json
    text : String → Json
    array : Items → Json
    object : Fields → Json

  pub data Items : Type 0 where
    nil : Items
    cons : Json → Items → Items

  pub data Fields : Type 0 where
    end : Fields
    field : String → Json → Fields → Fields

-- The elements of a `list`, and back.
unfoldable pub elements : Items → List Json
elements nil = []
elements (cons x xs) = x ∷ elements xs

unfoldable pub items : List Json → Items
items [] = nil
items (x ∷ xs) = cons x (items xs)

-- The entries of a `dict`, and back.
unfoldable pub entries : Fields → Dict String Json
entries end = []
entries (field k v fs) = (k, v) ∷ entries fs

unfoldable pub fields : Dict String Json → Fields
fields [] = end
fields ((k, v) ∷ d) = field k v (fields d)

pub elements-items : (xs : List Json) → elements (items xs) ≡ xs
unfolding elements items
elements-items [] = refl
elements-items (x ∷ xs) = rw (elements-items xs) refl

pub entries-fields : (d : Dict String Json) → entries (fields d) ≡ d
unfolding entries fields
entries-fields [] = refl
entries-fields ((k, v) ∷ d) = rw (entries-fields d) refl

-- A `dict[str, Any]`.
abbrev pub Record : Type 0
Record = Dict String Json

-- `bool(value)`
unfoldable pub truthy : Json → Bool
truthy null = false
truthy (truth b) = b
truthy (whole (ℤ.pos n)) = not (nat_beq n 0)
truthy (whole (ℤ.negsuc n)) = true
truthy (decimal (ℤ.pos n) k) = not (nat_beq n 0)
truthy (decimal (ℤ.negsuc n) k) = true
truthy (text s) = not (s == "")
truthy (array nil) = false
truthy (array (cons x xs)) = true
truthy (object end) = false
truthy (object (field k v fs)) = true

-- `a or b`
abbrev pub or_else : Json → Json → Json
or_else a b = if truthy a then a else b

-- `d.get(k)`, where None is also what a missing key gives
abbrev pub lookup : String → Dict String Json → Json
lookup k d = get_or null k d

pub lookup-put :
    (k j : String) (v : Json) (d : Record)
    → (string_key.test j k ≡ false)
    → lookup j (put k v d) ≡ lookup j d
lookup-put k j v d h = rw (get_or-put Json.null k j v d, h) refl

pub lookup_same : (k : String) (v : Json) (d : Record) → lookup k (put k v d) ≡ v
lookup_same k v d = rw (get_or-put Json.null k k v d) (ground (arith, string_key.test_iff k k))

pub lookup-discard :
    (k j : String) (d : Record)
    → (string_key.test j k ≡ false)
    → lookup j (discard k d) ≡ lookup j d
lookup-discard k j d h = rw (get_or-discard Json.null k j d, h) refl

-- Towards 0, as `int` does with a float.
unfoldable pub truncate : ℤ → ℕ → ℤ
truncate (ℤ.pos n) k = ℤ.pos (n / 10 ^ k)
truncate (ℤ.negsuc n) k =
    let q = suc n / 10 ^ k in if nat_beq q 0 then ℤ.pos 0 else ℤ.negsuc (q - 1)

-- Python's conversions of values other than the usual ones: `str` of what is not a text, `int` of
-- a text, and `dict` of a list. None is an exception.
pub record Conversions : Type 0 where
  pub str_of : Json → String
  pub int_of : String → Option ℤ
  pub dict_of : Items → Option (Dict String Json)

module _ (python : Conversions) where
  -- `str(value)`
  unfoldable pub to_str : Json → String
  to_str (text s) = s
  to_str value = python.str_of value

  -- `int(value)`
  unfoldable pub to_int : Json → Option ℤ
  unfolding truncate
  to_int (truth b) = some (ℤ.pos (if b then 1 else 0))
  to_int (whole i) = some i
  to_int (decimal m k) = some (truncate m k)
  to_int (text s) = python.int_of s
  to_int value = none

  -- `dict(value)`
  unfoldable pub to_dict : Json → Option (Dict String Json)
  unfolding entries
  to_dict (object fs) = some (entries fs)
  to_dict (array xs) = python.dict_of xs
  to_dict (text s) = if s == "" then some [] else none
  to_dict value = none

-- A number, but not a Boolean: its mantissa, and how many of its digits stand behind the point.
unfoldable pub to_number : Json → Option (ℤ × ℕ)
to_number (whole i) = some (i, 0)
to_number (decimal m k) = some (m, k)
to_number value = none

scale : ℕ → ℤ → ℤ
scale factor (ℤ.pos n) = ℤ.pos (n * factor)
scale factor (ℤ.negsuc n) = ℤ.negsuc (suc n * factor - 1)

-- `x < y`, exactly, as Python compares an `int` and a `float`
unfoldable pub number_lt : ℤ × ℕ → ℤ × ℕ → Bool
unfolding scale
number_lt (m, j) (n, k) = int_lt (scale (10 ^ k) m) (scale (10 ^ j) n)
