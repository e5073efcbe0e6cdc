-- ===== src/Models/Shape.antt =====
-- What an annotation of models.py says of a value, and what a `TypedDict` says of a dict: a key of a
-- total class is required, a key of a class with `total=False` is optional, and no other key is
-- there. A `bool` is an `int`, as in Python.
use mathlib.Core.List.{[], ◌∷◌}
use mizan_client_sdks.Base.{String, Bool, true, false, ◌&&◌, ◌||◌, Option, none, some, List}
use mizan_client_sdks.Python.Value.{
  Value, null, bool, int, float, str, arr, obj, Items, nil, cons, Fields, end, field, get, contains,
}
use mizan_client_sdks.Builders.Metadata.{all_keys}

mutual
  pub data Kind : Type 0 where
    text integer boolean number anything nothing : Kind
    literal : List String → Kind
    either : Kind → Kind → Kind
    list_of dict_of : Kind → Kind
    typed : Shape → Kind

  pub data Shape : Type 0 where
    closed : Shape
    required optional : String → Kind → Shape → Shape

-- a class with the keys of a base in front of its own
unfoldable pub extend : Shape → Shape → Shape
extend closed own = own
extend (required k t s) own = required k t (extend s own)
extend (optional k t s) own = optional k t (extend s own)

unfoldable pub keys : Shape → List String
keys closed = []
keys (required k t s) = k ∷ keys s
keys (optional k t s) = k ∷ keys s

unfoldable pub all_items : (Value → Bool) → Items → Bool
all_items test nil = true
all_items test (cons v vs) = test v && all_items test vs

unfoldable pub all_values : (Value → Bool) → Fields → Bool
all_values test end = true
all_values test (field k v fs) = test v && all_values test fs

-- an entry that has to be there, and one that may be missing
abbrev pub present : (Value → Bool) → Option Value → Bool
present test none = false
present test (some v) = test v

abbrev pub allowed : (Value → Bool) → Option Value → Bool
allowed test none = true
allowed test (some v) = test v

unfoldable mutual
  pub has_kind : Kind → Value → Bool
  has_kind text (str s) = true
  has_kind integer (int n) = true
  has_kind integer (bool b) = true
  has_kind boolean (bool b) = true
  has_kind number (float t f) = true
  has_kind anything v = true
  has_kind nothing null = true
  has_kind (literal names) (str s) = contains names s
  has_kind (either a b) v = has_kind a v || has_kind b v
  has_kind (list_of t) (arr xs) = all_items (has_kind t) xs
  has_kind (dict_of t) (obj fs) = all_values (has_kind t) fs
  has_kind (typed s) (obj fs) = all_keys (keys s) fs && has_entries s fs
  has_kind _ v = false

  pub has_entries : Shape → Fields → Bool
  has_entries closed fs = true
  has_entries (required k t s) fs = present (has_kind t) (get k fs) && has_entries s fs
  has_entries (optional k t s) fs = allowed (has_kind t) (get k fs) && has_entries s fs

-- the dict is one of the class
abbrev pub has_shape : Shape → Fields → Bool
has_shape s fs = has_kind (typed s) (obj fs)
