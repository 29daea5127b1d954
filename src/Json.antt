-- ===== src/Json.antt =====
-- JSON values as `serde_json::Value` gives them, with the accessors that the source uses.
-- An object is read as a map from keys to values. Reading and writing JSON text is the library's
-- own work: a codec is a parameter of what uses it.
use codex_proxy_rs.Base.{
  ℕ, Bool, List, [], ◌∷◌, Option, none, some, Str, Bytes, text_eq, lookup, ℤ, pos, negsuc,
}

-- `float` keeps the text of a number that is not an integer of 64 bits.
pub data Number : Type 0 where
  pos_int : ℕ → Number
  neg_int : ℕ → Number
  float : Str → Number

mutual
  pub data Value : Type 0 where
    null : Value
    boolean : Bool → Value
    number : Number → Value
    text : Str → Value
    array : Items → Value
    object : Fields → Value

  pub data Items : Type 0 where
    nil : Items
    cons : Value → Items → Items

  pub data Fields : Type 0 where
    end : Fields
    field : Str → Value → Fields → Fields

-- An `i64` as JSON; `neg_int n` is -(n + 1).
abbrev pub int_value : ℤ → Value
int_value (pos n) = number (pos_int n)
int_value (negsuc n) = number (neg_int n)

abbrev pub items : Items → List Value
items nil = []
items (cons v vs) = v ∷ items vs

abbrev pub of_items : List Value → Items
of_items [] = nil
of_items (v ∷ vs) = cons v (of_items vs)

abbrev pub fields : Fields → List (Str × Value)
fields end = []
fields (field k v fs) = (k, v) ∷ fields fs

abbrev pub of_fields : List (Str × Value) → Fields
of_fields [] = end
of_fields ((k, v) ∷ fs) = field k v (of_fields fs)

-- `Value::get` with a key: `None` for anything but an object.
unfoldable pub get : Str → Value → Option Value
get key (object fs) = lookup key (fields fs)
get key _ = none

unfoldable pub as_str : Value → Option Str
as_str (text s) = some s
as_str _ = none

unfoldable pub as_bool : Value → Option Bool
as_bool (boolean b) = some b
as_bool _ = none

unfoldable pub as_array : Value → Option (List Value)
as_array (array vs) = some (items vs)
as_array _ = none

-- `as_object`, as the value itself, so that `get` serves for both.
unfoldable pub as_object : Value → Option Value
as_object (object fs) = some (object fs)
as_object _ = none

unfoldable pub as_u64 : Value → Option ℕ
as_u64 (number (pos_int n)) = some n
as_u64 _ = none

infixl 5 ◌>>=◌
abbrev pub ◌>>=◌ {ℓ κ} : {A : Type ℓ} {B : Type κ} → Option A → (A → Option B) → Option B
none >>= k = none
some a >>= k = k a

-- `get(key).and_then(Value::as_str)`.
unfoldable pub get_str : Str → Value → Option Str
unfolding get as_str
get_str key v = get key v >>= as_str

-- What the source takes from `serde_json` to read and to write JSON text.
pub record JsonCodec : Type 0 where
  pub from_slice : Bytes → Option Value
  pub to_vec : Value → Option Bytes
