-- ===== src/Models/Laws.antt =====
-- How the shape of a dict goes along with its changes.
use mathlib.Core.Bool.{and-eq-true_iff}
use mathlib.Core.List.{[], ◌∷◌}
use mizan_client_sdks.Base.{
  String, ◌≡◌, refl, sym, ap, ◌∙◌, inl, inr, Bool, true, false, ◌&&◌, ◌||◌, Option, some, List,
  arith, ◌==◌, eq_iff, Bool-cases, Option-cases, if◌then◌else◌,
}
use mizan_client_sdks.Python.Value.{Value, Fields, end, field, get, get-put, put, has_key, contains}
use mizan_client_sdks.Builders.Metadata.{all_keys}
use mizan_client_sdks.Models.Shape.{
  Kind, Shape, closed, required, optional, extend, keys, present, allowed, has_kind, has_entries,
  has_shape,
}

-- the kinds that the shape gives to the key are all kinds of the value
unfoldable pub accepts : Shape → String → Value → Bool
accepts closed k v = true
accepts (required j t s) k v = (if k == j then has_kind t v else true) && accepts s k v
accepts (optional j t s) k v = (if k == j then has_kind t v else true) && accepts s k v

-- the shape with some of its optional keys required
unfoldable pub promote : List String → Shape → Shape
promote ks closed = closed
promote ks (required k t s) = required k t (promote ks s)
promote ks (optional k t s) =
    let rest = promote ks s in if contains ks k then required k t rest else optional k t rest

unfoldable pub has_all : List String → Fields → Bool
has_all [] fs = true
has_all (k ∷ ks) fs = has_key k fs && has_all ks fs

entry-put :
    (merge : (Value → Bool) → Option Value → Bool) (test : Value → Bool) (k j : String) (v : Value)
    (fs : Fields)
    → ((w : Value) → merge test (some w) ≡ test w)
    → (if k == j then test v else true) ≡ true
    → merge test (get j fs) ≡ true
    → merge test (get j (put k v fs)) ≡ true
entry-put merge test k j v fs some_lem a h =
    rw (get-put k j v fs)
      (elim (Bool-cases (k == j)) [ inl e ↦ rw e (some_lem v ∙ (rw e at a)) | inr e ↦ rw e h ])

has_entries-put :
    (s : Shape) (k : String) (v : Value) (fs : Fields)
    → accepts s k v ≡ true
    → has_entries s fs ≡ true
    → has_entries s (put k v fs) ≡ true
unfolding accepts has_entries
has_entries-put closed k v fs a h = refl
has_entries-put (required j t s) k v fs a h =
    let (here, later) = (and-eq-true_iff _ _).0 a in
    let (first, rest) = (and-eq-true_iff _ _).0 h in
    (and-eq-true_iff _ _).1 (
      entry-put present (has_kind t) k j v fs (λ w. refl) here first,
      has_entries-put s k v fs later rest,
    )
has_entries-put (optional j t s) k v fs a h =
    let (here, later) = (and-eq-true_iff _ _).0 a in
    let (first, rest) = (and-eq-true_iff _ _).0 h in
    (and-eq-true_iff _ _).1 (
      entry-put allowed (has_kind t) k j v fs (λ w. refl) here first,
      has_entries-put s k v fs later rest,
    )

all_keys-put :
    (names : List String) (k : String) (v : Value) (fs : Fields)
    → contains names k ≡ true
    → all_keys names fs ≡ true
    → all_keys names (put k v fs) ≡ true
unfolding all_keys put
all_keys-put names k v end c h = rw c refl
all_keys-put names k v (field j w fs) c h = ground (arith, all_keys-put names k v fs)

-- a dict keeps its class under the write of a key of the class, with a value of the key's kind
pub has_shape-put :
    (s : Shape) (k : String) (v : Value) (fs : Fields)
    → contains (keys s) k ≡ true
    → accepts s k v ≡ true
    → has_shape s fs ≡ true
    → has_shape s (put k v fs) ≡ true
unfolding has_kind
has_shape-put s k v fs c a h =
    let (known, entries) = (and-eq-true_iff _ _).0 h in
    (and-eq-true_iff _ _).1
      (all_keys-put (keys s) k v fs c known, has_entries-put s k v fs a entries)

keys-promote : (ks : List String) (s : Shape) → keys (promote ks s) ≡ keys s
unfolding keys promote
keys-promote ks closed = refl
keys-promote ks (required k t s) = ap (λ names. k ∷ names) (keys-promote ks s)
keys-promote ks (optional k t s) = elim (Bool-cases (contains ks k)) [
  | inl e ↦ rw (e, keys) (ap (λ names. k ∷ names) (keys-promote ks s))
  | inr e ↦ rw (e, keys) (ap (λ names. k ∷ names) (keys-promote ks s))
]

has_key-has_all :
    (ks : List String) (k : String) (fs : Fields)
    → has_all ks fs ≡ true
    → contains ks k ≡ true
    → has_key k fs ≡ true
unfolding has_all contains
has_key-has_all [] k fs h c = cc
has_key-has_all (j ∷ ks) k fs h c = ground (arith, has_key-has_all ks k fs, eq_iff j k)

present-allowed :
    (test : Value → Bool) (k : String) (fs : Fields)
    → has_key k fs ≡ true
    → allowed test (get k fs) ≡ true
    → present test (get k fs) ≡ true
present-allowed test k fs h a = elim (Option-cases (get k fs)) [
  | inl e ↦ absurd (cc (rw (e, has_key) at h))
  | inr (v, e) ↦ rw e (rw e at a)
]

has_entries-promote :
    (ks : List String) (s : Shape) (fs : Fields)
    → has_all ks fs ≡ true
    → has_entries s fs ≡ true
    → has_entries (promote ks s) fs ≡ true
unfolding has_entries promote
has_entries-promote ks closed fs a h = refl
has_entries-promote ks (required k t s) fs a h =
    let (first, rest) = (and-eq-true_iff _ _).0 h in
    (and-eq-true_iff _ _).1 (first, has_entries-promote ks s fs a rest)
has_entries-promote ks (optional k t s) fs a h =
    let (first, rest) = (and-eq-true_iff _ _).0 h in
    let later = has_entries-promote ks s fs a rest in
    elim (Bool-cases (contains ks k)) [
      | inl e ↦
          rw (e, has_entries)
            ((and-eq-true_iff _ _).1
              (present-allowed (has_kind t) k fs (has_key-has_all ks k fs a e) first, later))
      | inr e ↦ rw (e, has_entries) ((and-eq-true_iff _ _).1 (first, later))
    ]

-- a dict of the class that has the promoted keys
pub has_shape-promote :
    (ks : List String) (s : Shape) (fs : Fields)
    → has_all ks fs ≡ true
    → has_shape s fs ≡ true
    → has_shape (promote ks s) fs ≡ true
unfolding has_kind
has_shape-promote ks s fs a h =
    let (known, entries) = (and-eq-true_iff _ _).0 h in
    rw keys-promote ((and-eq-true_iff _ _).1 (known, has_entries-promote ks s fs a entries))

all_keys_mono :
    (names others : List String) (fs : Fields)
    → ((k : String) → contains names k ≡ contains others k)
    → all_keys names fs ≡ true
    → all_keys others fs ≡ true
unfolding all_keys
all_keys_mono names others end same h = refl
all_keys_mono names others (field k v fs) same h =
    let (known, rest) = (and-eq-true_iff _ _).0 h in
    (and-eq-true_iff _ _).1 (sym (same k) ∙ known, all_keys_mono names others fs same rest)

contains-swap :
    (base : Shape) (j k : String) (u t : Kind) (x : String)
    → contains (keys (extend base (optional j u (required k t closed)))) x
      ≡ contains (keys (extend base (required k t (optional j u closed)))) x
unfolding contains keys extend
contains-swap closed j k u t x = ground arith
contains-swap (required i s base) j k u t x = ap (λ b. (i == x) || b) (contains-swap base j k u t x)
contains-swap (optional i s base) j k u t x = ap (λ b. (i == x) || b) (contains-swap base j k u t x)

has_entries-swap :
    (base : Shape) (j k : String) (u t : Kind) (fs : Fields)
    → has_entries (extend base (optional j u (required k t closed))) fs
      ≡ has_entries (extend base (required k t (optional j u closed))) fs
unfolding has_entries extend
has_entries-swap closed j k u t fs =
    and_swap (allowed (has_kind u) (get j fs)) (present (has_kind t) (get k fs))
  where
    and_swap : (a b : Bool) → (a && (b && true)) ≡ (b && (a && true))
    and_swap true true = refl
    and_swap true false = refl
    and_swap false true = refl
    and_swap false false = refl
has_entries-swap (required i s base) j k u t fs =
    ap (λ b. present (has_kind s) (get i fs) && b) (has_entries-swap base j k u t fs)
has_entries-swap (optional i s base) j k u t fs =
    ap (λ b. allowed (has_kind s) (get i fs) && b) (has_entries-swap base j k u t fs)

-- the order of the last two keys does not matter
pub has_shape-swap :
    (base : Shape) (j k : String) (u t : Kind) (fs : Fields)
    → has_shape (extend base (optional j u (required k t closed))) fs ≡ true
    → has_shape (extend base (required k t (optional j u closed))) fs ≡ true
unfolding has_kind
has_shape-swap base j k u t fs h =
    let (known, entries) = (and-eq-true_iff _ _).0 h in
    (and-eq-true_iff _ _).1 (
      all_keys_mono _ _ fs (contains-swap base j k u t) known,
      sym (has_entries-swap base j k u t fs) ∙ entries,
    )
