-- ===== src/Client/Paths/Isolation.antt =====
-- The businesses of two equal paths (`_business_path` of client.py).
use Prim.Native.String.{[], ◌∷◌}
use mathlib.Core.List.{[], ◌∷◌}
use text.Mathlib.TextEquality.{Char-path}
use text.Mathlib.TextLemmas.{
  cons-append, nil-append, append_cancel_left, head-eq_of_cons-eq, tail-eq_of_cons-eq, nil≢cons,
  cons≢nil,
}
use mizan_client_sdks.Base.{
  ℕ, Char, code, String, ◌≡◌, refl, sym, ap, ◌∙◌, ◌⊎◌, inl, inr, true, false, List, Option, arith,
  Bool-cases,
}
use mizan_client_sdks.Python.Value.{ok}
use mizan_client_sdks.Python.Text.{append}
use mizan_client_sdks.Python.Runtime.{Python}
use mizan_client_sdks.Client.Paths.{utf8, percent, is_unreserved, quote, business_path}
use mizan_client_sdks.Client.Paths.Encoding.{
  code_bound, Encoded, one, two, three, four, utf8-Encoded, Encoded-injective,
}
use mizan_client_sdks.Client.Paths.Quoting.{IsSegment, business_path-ok}

quote-plain : (c : Char) (s : String) → is_unreserved c ≡ true → quote (c ∷ s) ≡ c ∷ quote s
unfolding quote
quote-plain c s p = rw p refl

quote-other :
    (c : Char) (s : String)
    → is_unreserved c ≡ false
    → quote (c ∷ s) ≡ percent (utf8 (code c)) (quote s)
unfolding quote
quote-other c s p = rw p refl

percent_head :
    {n : ℕ} {bs : List ℕ}
    → Encoded n bs
    → (rest : String) → (t : String) × (percent bs rest ≡ "%" ∷ t)
unfolding percent
percent_head (one p) rest = (_, refl)
percent_head (two p q) rest = (_, refl)
percent_head (three p q) rest = (_, refl)
percent_head (four p) rest = (_, refl)

-- a character that is kept is no "%"
plain-percent :
    (c d : Char) (s t : String) → is_unreserved c ≡ true → c ∷ s ≡ percent (utf8 (code d)) t → ⊥
plain-percent c d s t p e =
    let (rest, shown) = percent_head (utf8-Encoded (code d)) t in
    let same = head-eq_of_cons-eq (e ∙ shown) in
    let kept : is_unreserved "%" ≡ true = rw same at p in unfold is_unreserved in cc

quote_some : (c : Char) (s : String) → (d : Char) × (t : String) × (quote (c ∷ s) ≡ d ∷ t)
quote_some c s = elim (Bool-cases (is_unreserved c)) [
  | inl p ↦ (c, quote s, quote-plain c s p)
  | inr p ↦
      let (t, e) = percent_head (utf8-Encoded (code c)) (quote s) in ("%", t, quote-other c s p ∙ e)
]

quote_empty : quote [] ≡ []
unfolding quote
quote_empty = refl

-- quoting loses nothing
quote-injective : (s t : String) → quote s ≡ quote t → s ≡ t
quote-injective [] [] e = refl
quote-injective [] (d ∷ t) e =
    let (h, rest, some) = quote_some d t in absurd (nil≢cons (sym quote_empty ∙ e ∙ some))
quote-injective (c ∷ s) [] e =
    let (h, rest, some) = quote_some c s in absurd (cons≢nil (sym some ∙ e ∙ quote_empty))
quote-injective (c ∷ s) (d ∷ t) e = elim (Bool-cases (is_unreserved c)) [
  | inl p ↦ elim (Bool-cases (is_unreserved d)) [
    | inl q ↦
        let same = sym (quote-plain c s p) ∙ e ∙ quote-plain d t q in
        let tails = quote-injective s t (tail-eq_of_cons-eq same) in
        λ i. head-eq_of_cons-eq same i ∷ tails i
    | inr q ↦
        absurd (
          plain-percent c d (quote s) (quote t) p (sym (quote-plain c s p) ∙ e ∙ quote-other d t q))
  ]
  | inr p ↦ elim (Bool-cases (is_unreserved d)) [
    | inl q ↦ absurd (
        plain-percent d c (quote t) (quote s) q
          (sym (quote-plain d t q) ∙ sym e ∙ quote-other c s p))
    | inr q ↦
        let (same, tails) =
          Encoded-injective (code c) (code d) (quote s) (quote t) (code_bound c) (code_bound d)
            (utf8-Encoded (code c)) (utf8-Encoded (code d))
            (sym (quote-other c s p) ∙ e ∙ quote-other d t q) in
        let rest = quote-injective s t tails in λ i. Char-path c d same i ∷ rest i
  ]
]

slash_no : (c : Char) → (is_unreserved c ≡ true) ⊎ (code c ≡ b'%') → code c ≡ b'/' → ⊥
unfolding is_unreserved
slash_no c h e = ground arith

slash_first :
    (c : Char) (s x y : String) → append [] (append "/" x) ≡ append (c ∷ s) y → code c ≡ b'/'
slash_first c s x y e = ap code (
    head-eq_of_cons-eq
      (sym (sym (cons-append "/" [] x) ∙ sym (nil-append (append "/" x)) ∙ e ∙ cons-append c s y)))

-- the segment in front of the first "/"
segment-injective :
    (s t x y : String)
    → IsSegment s
    → IsSegment t
    → append s (append "/" x) ≡ append t (append "/" y)
    → s ≡ t
segment-injective [] [] x y h k e = refl
segment-injective [] (d ∷ t) x y h k e =
    absurd (slash_no d k.0 (slash_first d t x (append "/" y) e))
segment-injective (c ∷ s) [] x y h k e =
    absurd (slash_no c h.0 (slash_first c s y (append "/" x) (sym e)))
segment-injective (c ∷ s) (d ∷ t) x y h k e =
    let same = sym (cons-append c s (append "/" x)) ∙ e ∙ cons-append d t (append "/" y) in
    let rest = segment-injective s t x y h.1 k.1 (tail-eq_of_cons-eq same) in
    λ i. head-eq_of_cons-eq same i ∷ rest i

-- Two calls that reach one path name the same business, whatever the suffixes and the clients' own
-- businesses.
pub business_path-injective :
    (py : Python) (bound bound' : Option String) (business_id business_id' suffix suffix' : String)
    {path : String}
    → business_path py bound business_id suffix ≡ ok path
    → business_path py bound' business_id' suffix' ≡ ok path
    → business_id ≡ business_id'
business_path-injective py bound bound' a b suffix suffix' h k =
    let (full, own, spelled, segment) = business_path-ok py bound a suffix h in
    let (full', own', spelled', segment') = business_path-ok py bound' b suffix' k in
    quote-injective a b (
      segment-injective (quote a) (quote b) suffix suffix' segment segment'
        (append_cancel_left "/v1/businesses/" _ _ (sym spelled ∙ spelled')))
