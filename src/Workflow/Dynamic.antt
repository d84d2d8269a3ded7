-- ===== src/Workflow/Dynamic.antt =====
-- The dynamic values that internal/engine passes around as `interface{}`: what yaml.v3 and
-- encoding/json put there. A float64 is its 64-bit pattern.
use mirror_gha.Base.{
  ltb, ◌==◌, if◌then◌else◌, Text, text_eq, Map, lookup, ℕ, suc, ◌*◌, ◌%◌, ◌^◌, Bool, true, false,
  not, ◌&&◌, ◌||◌, none, some, List, [], ◌∷◌,
}

pub data ℤ : Type 0 where
  pos : ℕ → ℤ
  negsuc : ℕ → ℤ

mutual
  pub data Value : Type 0 where
    null : Value
    bool : Bool → Value
    int : ℤ → Value
    float : ℕ → Value
    str : Text → Value
    list : Values → Value
    dict : Fields → Value

  pub data Values : Type 0 where
    nil : Values
    cons : Value → Values → Values

  pub data Fields : Type 0 where
    end : Fields
    field : Text → Value → Fields → Fields

-- `v.([]interface{})`, as a list.
unfoldable pub items : Values → List Value
items nil = []
items (cons v vs) = v ∷ items vs

-- `v.(map[string]interface{})`, as an association list.
unfoldable pub entries : Fields → Map Value
entries end = []
entries (field k v fs) = (k, v) ∷ entries fs

unfoldable pub size_fields : Fields → ℕ
size_fields end = 0
size_fields (field k v fs) = suc (size_fields fs)

unfoldable pub int_eq : ℤ → ℤ → Bool
int_eq (pos a) (pos b) = a == b
int_eq (negsuc a) (negsuc b) = a == b
int_eq _ _ = false

abbrev sign_bit : ℕ
sign_bit = 2 ^ 63

abbrev exponent_mask : ℕ
exponent_mask = 2047 * 2 ^ 52

-- A NaN has all exponent bits and some bit of the fraction.
float_is_nan : ℕ → Bool
float_is_nan bits = ltb exponent_mask (bits % sign_bit)

float_is_zero : ℕ → Bool
float_is_zero bits = bits % sign_bit == 0

-- Go's `==` on float64: a NaN differs from itself, and the two zeros are equal.
unfoldable pub float_eq : ℕ → ℕ → Bool
unfolding float_is_nan float_is_zero
float_eq a b = not (float_is_nan a) && (a == b || float_is_zero a && float_is_zero b)

-- `reflect.DeepEqual`: two maps are equal if they have the same keys with equal values.
unfoldable mutual
  unfolding entries lookup size_fields int_eq float_eq text_eq

  pub deep_equal : Value → Value → Bool
  deep_equal null w = elim w [ null ↦ true | _ ↦ false ]
  deep_equal (bool a) w = elim w [ bool b ↦ if a then b else not b | _ ↦ false ]
  deep_equal (int a) w = elim w [ int b ↦ int_eq a b | _ ↦ false ]
  deep_equal (float a) w = elim w [ float b ↦ float_eq a b | _ ↦ false ]
  deep_equal (str a) w = elim w [ str b ↦ text_eq a b | _ ↦ false ]
  deep_equal (list a) w = elim w [ list b ↦ deep_equal_items a b | _ ↦ false ]
  deep_equal (dict a) w = elim w [
    | dict b ↦ size_fields a == size_fields b && deep_equal_fields a b
    | _ ↦ false
  ]

  pub deep_equal_items : Values → Values → Bool
  deep_equal_items nil w = elim w [ nil ↦ true | cons v vs ↦ false ]
  deep_equal_items (cons v vs) w = elim w [
    | nil ↦ false
    | cons u us ↦ deep_equal v u && deep_equal_items vs us
  ]

  pub deep_equal_fields : Fields → Fields → Bool
  deep_equal_fields end w = true
  deep_equal_fields (field k v fs) w =
      elim (lookup k (entries w)) [ none ↦ false | some u ↦ deep_equal v u ]
      && deep_equal_fields fs w
