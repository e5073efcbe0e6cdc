-- ===== src/Python/Value.antt =====
-- Python values as far as the SDK observes them: `None`, `bool`, `int`, `float`, `str`, `list` and a
-- `dict` with text keys. A float is observed only through `str` and `math.isfinite`. A `StrEnum`
-- member is the text of its wire value. A `dict` is its entries in insertion order.
use mizan_client_sdks.Base.{
  ℕ, suc, String, ◌≡◌, refl, ◌⊎◌, inl, inr, Bool, true, false, ◌||◌, Option, none, some, List,
  arith, ◌==◌, eq_iff, if◌then◌else◌,
}
use mathlib.Core.List.{[], ◌∷◌}
use mizan_client_sdks.Base.Int.{ℤ}

mutual
  pub data Value : Type 0 where
    null : Value
    bool : Bool → Value
    int : ℤ → Value
    float : (text : String) (finite : Bool) → Value
    str : String → Value
    arr : Items → Value
    obj : Fields → Value

  -- a dict, from its first entry on
  pub data Fields : Type 0 where
    end : Fields
    field : (key : String) (value : Value) (rest : Fields) → Fields

  -- a list
  pub data Items : Type 0 where
    nil : Items
    cons : (first : Value) (rest : Items) → Items

-- An exception that leaves a function: `ValueError` with its message, the `TypeError` of an
-- unhashable value or a bad conversion, or any other exception.
pub data Exception : Type 0 where
  value_error : String → Exception
  type_error : Exception
  foreign : Exception

pub data Result (A : Type 0) : Type 0 where
  ok : A → Result A
  err : Exception → Result A

infixl 5 ◌>>=◌ ◌>>◌
abbrev pub ◌>>=◌ : {A B : Type 0} → Result A → (A → Result B) → Result B
ok a >>= f = f a
err e >>= f = err e

abbrev pub ◌>>◌ : {B : Type 0} → Result (Unit {0}) → Result B → Result B
m >> k = m >>= λ _. k

pub ok-injective : {A : Type 0} {a b : A} → ok a ≡ ok b → a ≡ b
ok-injective h = cc

pub err-ne-ok : {A : Type 0} {e : Exception} {a : A} → err e ≡ ok a → ⊥
err-ne-ok h = cc

pub Result-cases :
    {A : Type 0} (r : Result A) → ((a : A) × (r ≡ ok a)) ⊎ ((e : Exception) × (r ≡ err e))
Result-cases (ok a) = inl (a, refl)
Result-cases (err e) = inr (e, refl)

-- `if not test: raise e`
abbrev pub require : Bool → Exception → Result (Unit {0})
require b e = if b then ok tt else err e

require-ok : (b : Bool) (e : Exception) → require b e ≡ ok tt → b ≡ true
require-ok true e h = refl
require-ok false e h = cc

-- Inversion of a chain that returns.
pub >>-ok :
    {B : Type 0} (m : Result (Unit {0})) (k : Result B) {b : B}
    → (m >> k) ≡ ok b
    → (m ≡ ok tt) × (k ≡ ok b)
>>-ok (ok tt) k h = (refl, h)
>>-ok (err e) k h = cc

pub >>=-ok :
    {A B : Type 0} (first : Result A) (next : A → Result B) {end_value : B}
    → (first >>= next) ≡ ok end_value
    → (middle : A) × (first ≡ ok middle) × (next middle ≡ ok end_value)
>>=-ok (ok middle) next h = (middle, refl, h)
>>=-ok (err e) next h = cc

-- d.get(k), with `None` for a missing key told apart as `none`
unfoldable pub get : String → Fields → Option Value
get k end = none
get k (field j v fs) = if j == k then some v else get k fs

-- k in d
abbrev pub has_key : String → Fields → Bool
has_key k fs = elim (get k fs) [ none ↦ false | some v ↦ true ]

-- d[k] = v: a key that is there keeps its place
unfoldable pub put : String → Value → Fields → Fields
put k v end = field k v end
put k v (field j w fs) = if j == k then field j v fs else field j w (put k v fs)

-- d.get(k), `None` for a missing key
abbrev pub get_or_null : String → Fields → Value
get_or_null k fs = elim (get k fs) [ none ↦ null | some v ↦ v ]

-- len(d)
unfoldable pub size : Fields → ℕ
size end = 0
size (field k v fs) = suc (size fs)

-- x in {"a", "b"}, for a text
unfoldable pub contains : List String → String → Bool
contains [] s = false
contains (x ∷ xs) s = (x == s) || contains xs s

-- x in {"a", "b"}, for any value: a list or a dict has no hash
unfoldable pub in_set : List String → Value → Result Bool
in_set names (str s) = ok (contains names s)
in_set names (arr xs) = err type_error
in_set names (obj fs) = err type_error
in_set names _ = ok false

-- isinstance(v, dict)
abbrev pub is_dict : Value → Bool
is_dict (obj fs) = true
is_dict _ = false

-- d.get(k) after d[j] = v
pub get-put :
    (k j : String) (v : Value) (fs : Fields)
    → get j (put k v fs) ≡ (if k == j then some v else get j fs)
unfolding get put
get-put k j v end = ground arith
get-put k j v (field i w fs) = ground (arith, eq_iff i k, eq_iff i j, eq_iff k j, get-put k j v fs)
