-- ===== src/Settings/Value.antt =====
-- The values of settings, as `json.loads` gives them.
use concierge_agent.Prelude.{
  ℕ, zero, suc, ◌*◌, String, Bool, true, false, ◌&&◌, Option, none, some, leb, if◌then◌else◌, ◌==◌,
  nat_eq, string_eq,
}

mutual
  -- A float is a sign, a number m and a number k for m / 2^k.
  pub data Value : Type 0 where
    null : Value
    str : String → Value
    bool : Bool → Value
    int negative : ℕ → Value  -- n, and -(n + 1)
    float : Bool → ℕ → ℕ → Value
    arr : Items → Value
    obj : Fields → Value

  pub data Items : Type 0 where
    no_items : Items
    push : Value → Items → Items

  pub data Fields : Type 0 where
    no_fields : Fields
    with_field : String → Value → Fields → Fields

abbrev pub is_null : Value → Bool
is_null null = true
is_null _ = false

abbrev pub is_bool : Value → Bool
is_bool (bool b) = true
is_bool _ = false

abbrev pub is_str : Value → Bool
is_str (str s) = true
is_str _ = false

abbrev pub is_obj : Value → Bool
is_obj (obj fs) = true
is_obj _ = false

-- isinstance(v, int) and low <= v: True is 1 and False is 0
abbrev pub is_at_least : ℕ → Value → Bool
is_at_least low (int n) = leb low n
is_at_least low (bool b) = leb low (if b then 1 else 0)
is_at_least low _ = false

-- isinstance(v, int) and low <= v <= high
abbrev pub is_between : ℕ → ℕ → Value → Bool
is_between low high (int n) = leb low n && leb n high
is_between low high (bool b) = leb low (if b then 1 else 0) && leb (if b then 1 else 0) high
is_between low high _ = false

pow2 : ℕ → ℕ
pow2 zero = 1
pow2 (suc k) = 2 * pow2 k

-- The fraction m / 2^k of a number that is not below zero.
abbrev fraction : Value → Option (ℕ × ℕ)
fraction (int n) = some (n, 0)
fraction (bool b) = some (if b then 1 else 0, 0)
fraction (float false m k) = some (m, k)
fraction (float true zero k) = some (0, 0)
fraction _ = none

-- a / 2^p <= m / 2^k
abbrev fraction_leb : ℕ × ℕ → ℕ × ℕ → Bool
unfolding pow2
fraction_leb (a, p) (m, k) = leb (a * pow2 k) (m * pow2 p)

-- isinstance(v, int | float) and low <= float(v) <= high
unfoldable pub is_number_between : ℕ × ℕ → ℕ × ℕ → Value → Bool
unfolding fraction_leb
is_number_between low high v = elim (fraction v) [
  | none ↦ false
  | some q ↦ fraction_leb low q && fraction_leb q high
]

-- isinstance(v, int | float) and float(v) > 0
unfoldable pub is_positive : Value → Bool
is_positive v = elim (fraction v) [ none ↦ false | some (m, k) ↦ leb 1 m ]

-- isinstance(v, int | float) and float(v) >= 0
unfoldable pub is_not_negative : Value → Bool
is_not_negative v = elim (fraction v) [ none ↦ false | some q ↦ true ]

-- isinstance(v, list) and all(isinstance(x, str) and test(x) for x in v)
abbrev all_texts : (String → Bool) → Items → Bool
all_texts test no_items = true
all_texts test (push (str s) rest) = test s && all_texts test rest
all_texts test (push _ rest) = false

unfoldable pub is_list_of : (String → Bool) → Value → Bool
is_list_of test (arr xs) = all_texts test xs
is_list_of test _ = false

-- row.get(key): a missing key is null
unfoldable pub get_field : Fields → String → Value
get_field no_fields key = null
get_field (with_field k v rest) key = if k == key then v else get_field rest key
