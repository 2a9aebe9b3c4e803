-- ===== src/Factory/Json.antt =====
-- The values of a workflow document, as `json.loads` gives them: a number is an integer.
use concierge_agent.Prelude.{
  ℕ, ◌≡◌, ◌↔◌, String, Bool, true, false, not, Option, none, some, arith, if◌then◌else◌, Comparable,
  ◌==◌, nat_eq, string_eq, eq_iff,
}

mutual
  pub data Json : Type 0 where
    null : Json
    bool : Bool → Json
    int : ℕ → Json
    negative : ℕ → Json  -- -(n + 1)
    str : String → Json
    arr : Items → Json
    obj : Fields → Json

  pub data Items : Type 0 where
    nil : Items
    cons : Json → Items → Items

  pub data Fields : Type 0 where
    end : Fields
    field : String → Json → Fields → Fields

-- The hashable values, up to Python's `==`: `True` is 1 and `False` is 0.
pub data Key : Type 0 where
  none_key : Key
  int_key : ℕ → Key
  negative_key : ℕ → Key
  text : String → Key

-- `none` stands for the TypeError of a list or a dictionary where a hash is taken.
unfoldable pub key_of : Json → Option Key
key_of null = some none_key
key_of (bool true) = some (int_key 1)
key_of (bool false) = some (int_key 0)
key_of (int n) = some (int_key n)
key_of (negative n) = some (negative_key n)
key_of (str s) = some (text s)
key_of (arr xs) = none
key_of (obj fs) = none

unfoldable pub key_beq : Key → Key → Bool
key_beq none_key none_key = true
key_beq (int_key a) (int_key b) = a == b
key_beq (negative_key a) (negative_key b) = a == b
key_beq (text a) (text b) = a == b
key_beq _ _ = false

pub key_beq_iff : (a b : Key) → (key_beq a b ≡ true) ↔ (a ≡ b)
unfolding key_beq
key_beq_iff none_key none_key = ground arith
key_beq_iff (text a) (text b) = ground (arith, eq_iff a b)
key_beq_iff (int_key a) b = ground arith
key_beq_iff _ _ = ground arith

instance abbrev pub key_eq : Comparable Key
key_eq = record { beq = key_beq; decides = key_beq_iff }

-- d.get(k), where an absent key and a null are one value
unfoldable pub get_field : Fields → String → Json
get_field end k = null
get_field (field j v rest) k = if j == k then v else get_field rest k

-- k in d
unfoldable pub has_field : Fields → String → Bool
has_field end k = false
has_field (field j v rest) k = if j == k then true else has_field rest k

-- bool(v)
unfoldable pub truthy : Json → Bool
truthy null = false
truthy (bool b) = b
truthy (int n) = not (n == 0)
truthy (negative n) = true
truthy (str s) = not (s == "")
truthy (arr nil) = false
truthy (arr (cons x xs)) = true
truthy (obj end) = false
truthy (obj (field k v rest)) = true
