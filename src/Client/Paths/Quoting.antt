-- ===== src/Client/Paths/Quoting.antt =====
-- A quoted text stays inside its path segment.
use Prim.Native.String.{[], ◌∷◌}
use mathlib.Core.List.{[], ◌∷◌}
use text.Mathlib.TextLemmas.{cons-ne-nil}
use mizan_client_sdks.Base.{
  ℕ, zero, suc, ◌/◌, ◌%◌, Char, code, String, ◌≡◌, ◌≢◌, refl, sym, ap, ◌⊎◌, inl, inr, Bool, true,
  false, List, Option, none, some, ltb, nat_eq, ◌==◌, eq_iff, Bool-cases, if◌then◌else◌,
}
use mizan_client_sdks.Python.Value.{ok, ok-injective, err-ne-ok}
use mizan_client_sdks.Python.Text.{append}
use mizan_client_sdks.Python.Runtime.{Python}
use mizan_client_sdks.Python.Numbers.Print.{digit}
use mizan_client_sdks.Client.Paths.{utf8, hex, percent, is_unreserved, quote, business_path}

-- a letter, a digit or one of "_.-~%": none of the characters that end a path segment
abbrev pub IsSegment : String → Type 0
IsSegment [] = Unit
IsSegment (c ∷ s) = ((is_unreserved c ≡ true) ⊎ (code c ≡ b'%')) × IsSegment s

digit-unreserved : (n : ℕ) → is_unreserved (digit n) ≡ true
unfolding is_unreserved digit
digit-unreserved zero = refl
digit-unreserved (suc zero) = refl
digit-unreserved (suc (suc zero)) = refl
digit-unreserved (suc (suc (suc zero))) = refl
digit-unreserved (suc (suc (suc (suc zero)))) = refl
digit-unreserved (suc (suc (suc (suc (suc zero))))) = refl
digit-unreserved (suc (suc (suc (suc (suc (suc zero)))))) = refl
digit-unreserved (suc (suc (suc (suc (suc (suc (suc zero))))))) = refl
digit-unreserved (suc (suc (suc (suc (suc (suc (suc (suc zero)))))))) = refl
digit-unreserved (suc (suc (suc (suc (suc (suc (suc (suc (suc n))))))))) = refl

if-unreserved :
    (b : Bool) (c d : Char)
    → is_unreserved c ≡ true
    → is_unreserved d ≡ true
    → is_unreserved (if b then c else d) ≡ true
if-unreserved true c d p q = p
if-unreserved false c d p q = q

hex-unreserved : (n : ℕ) → is_unreserved (hex n) ≡ true
unfolding hex
hex-unreserved n = if-unreserved (ltb n 10) (digit n) _ (digit-unreserved n) (
    if-unreserved (nat_eq n 10) "A" _ (unfold is_unreserved in refl) (
      if-unreserved (nat_eq n 11) "B" _ (unfold is_unreserved in refl) (
        if-unreserved (nat_eq n 12) "C" _ (unfold is_unreserved in refl) (
          if-unreserved (nat_eq n 13) "D" _ (unfold is_unreserved in refl) (
            if-unreserved (nat_eq n 14) "E" "F" (unfold is_unreserved in refl)
              (unfold is_unreserved in refl))))))

percent-IsSegment : (bs : List ℕ) (rest : String) → IsSegment rest → IsSegment (percent bs rest)
unfolding percent
percent-IsSegment [] rest h = h
percent-IsSegment (b ∷ bs) rest h = (
  inr refl,
  (inl (hex-unreserved (b / 16)), (inl (hex-unreserved (b % 16)), percent-IsSegment bs rest h)),
)

-- A quoted text holds none of "/", "?" and "#": only unreserved characters and "%".
pub quote-IsSegment : (s : String) → IsSegment (quote s)
unfolding quote
quote-IsSegment [] = tt
quote-IsSegment (c ∷ s) = elim (Bool-cases (is_unreserved c)) [
  | inl plain ↦ rw (plain, quote) (inl plain, quote-IsSegment s)
  | inr other ↦ rw (other, quote) (percent-IsSegment (utf8 (code c)) (quote s) (quote-IsSegment s))
]

-- A path that is built names the caller's business, which is not empty and is the one that the
-- client is bound to, if it is bound, as one segment.
pub business_path-ok :
    (py : Python) (bound : Option String) (business_id suffix : String) {path : String}
    → business_path py bound business_id suffix ≡ ok path
    → (business_id ≢ "")
      × ((bound ≡ none) ⊎ (bound ≡ some business_id))
      × (path ≡ append "/v1/businesses/" (append (quote business_id) (append "/" suffix)))
      × IsSegment (quote business_id)
unfolding business_path
business_path-ok py none [] suffix h = cc
business_path-ok py none (c ∷ s) suffix h =
    (cons-ne-nil c s, inl refl, ok-injective (sym h), quote-IsSegment (c ∷ s))
business_path-ok py (some own) [] suffix h = cc
business_path-ok py (some own) (c ∷ s) suffix h = elim (Bool-cases ((c ∷ s) == own)) [
  | inl same ↦ (
    cons-ne-nil c s,
    inr (ap some (sym ((eq_iff (c ∷ s) own).0 same))),
    ok-injective (sym (rw (same, business_path) at h)),
    quote-IsSegment (c ∷ s),
  )
  | inr different ↦ absurd (err-ne-ok (rw (different, business_path) at h))
]
