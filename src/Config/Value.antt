-- ===== src/Config/Value.antt =====
-- The JSON documents of `serde_json` that crates/rshome-config/src walks: the constructors of
-- `Value`, and a `Map` as the list of its entries in the order of its iteration, which is the
-- order of the keys.
use zt_edge.Common.{
  ℕ, Bool, true, false, Option, none, some, String, ◌≡◌, refl, ite, if◌then◌else◌, text_discrete,
  arith,
}
use zt_edge.Common.Sort.{text_lt}

-- A number is an integer that is not negative, a negative one, or a float by its 64 bits.
pub data Number : Type 0 where
  pos_int neg_int float : ℕ → Number

mutual
  pub data Value : Type 0 where
    null : Value
    bool : Bool → Value
    number : Number → Value
    string : String → Value
    array : Items → Value
    object : Fields → Value

  pub data Items : Type 0 where
    nil : Items
    cons : Value → Items → Items

  pub data Fields : Type 0 where
    end : Fields
    field : String → Value → Fields → Fields

-- `Map::get`.
unfoldable pub find : String → Fields → Option Value
find k end = none
find k (field j v m) = ite (text_discrete j k) (some v) (find k m)

-- `Map::insert`, also that of a vacant entry.
unfoldable pub put : String → Value → Fields → Fields
put k v end = field k v end
put k v (field j w m) =
    let rest = put k v m in
    ite (text_discrete j k) (field k v m)
      (if text_lt k j then field k v (field j w m) else field j w rest)

-- `Value::get` with a key.
unfoldable pub get : String → Value → Option Value
get k (object m) = find k m
get k _ = none

abbrev pub as_str : Value → Option String
as_str (string s) = some s
as_str _ = none

abbrev pub as_bool : Value → Option Bool
as_bool (bool b) = some b
as_bool _ = none

-- `Value::as_u64`.
abbrev pub as_u64 : Value → Option ℕ
as_u64 (number (pos_int n)) = some n
as_u64 _ = none

abbrev pub is_object : Value → Bool
is_object (object m) = true
is_object _ = false

abbrev pub is_null : Value → Bool
is_null null = true
is_null _ = false

pub find-put :
    (k j : String) (v : Value) (m : Fields)
    → find j (put k v m) ≡ ite (text_discrete k j) (some v) (find j m)
unfolding find put
find-put k j v end = refl
find-put k j v (field i w m) = ground (arith, find-put k j v m)
