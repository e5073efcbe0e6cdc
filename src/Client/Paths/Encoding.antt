-- ===== src/Client/Paths/Encoding.antt =====
-- Reading a percent-encoded character from the front of a text (`quote` in paths of client.py).
use Prim.Native.String.{[], ◌∷◌}
use Prim.Native.Char.{char}
use mathlib.Core.List.{[], ◌∷◌}
use text.Mathlib.TextLemmas.{head-eq_of_cons-eq, tail-eq_of_cons-eq}
use mizan_client_sdks.Base.{
  ℕ, zero, suc, ◌+◌, ◌-◌, ◌/◌, ◌%◌, ◌<◌, ◌≤◌, Char, code, String, ◌≡◌, refl, sym, ap, ◌∙◌, inl, inr,
  List, ltb, leb, arith, Bool-cases, if◌then◌else◌,
}
use mizan_client_sdks.Python.Numbers.Print.{digit}
use mizan_client_sdks.Client.Paths.{utf8, hex, percent}

unhex : Char → ℕ
unhex c = if leb (code c) 57 then code c - 48 else code c - 55

unhex-hex : (n : ℕ) → n < 16 → unhex (hex n) ≡ n
unfolding unhex hex digit
unhex-hex zero h = refl
unhex-hex (suc zero) h = refl
unhex-hex (suc (suc zero)) h = refl
unhex-hex (suc (suc (suc zero))) h = refl
unhex-hex (suc (suc (suc (suc zero)))) h = refl
unhex-hex (suc (suc (suc (suc (suc zero))))) h = refl
unhex-hex (suc (suc (suc (suc (suc (suc zero)))))) h = refl
unhex-hex (suc (suc (suc (suc (suc (suc (suc zero))))))) h = refl
unhex-hex (suc (suc (suc (suc (suc (suc (suc (suc zero)))))))) h = refl
unhex-hex (suc (suc (suc (suc (suc (suc (suc (suc (suc zero))))))))) h = refl
unhex-hex (suc (suc (suc (suc (suc (suc (suc (suc (suc (suc zero)))))))))) h = refl
unhex-hex (suc (suc (suc (suc (suc (suc (suc (suc (suc (suc (suc zero))))))))))) h = refl
unhex-hex (suc (suc (suc (suc (suc (suc (suc (suc (suc (suc (suc (suc zero)))))))))))) h = refl
unhex-hex (suc (suc (suc (suc (suc (suc (suc (suc (suc (suc (suc (suc (suc zero))))))))))))) h =
    refl
unhex-hex (suc (suc (suc (suc (suc (suc (suc (suc (suc (suc (suc (suc (suc (suc zero))))))))))))))
      h =
    refl
unhex-hex
      (suc (suc (suc (suc (suc (suc (suc (suc (suc (suc (suc (suc (suc (suc (suc zero)))))))))))))))
      h =
    refl
unhex-hex
      (suc
        (suc (suc (suc (suc (suc (suc (suc (suc (suc (suc (suc (suc (suc (suc (suc n))))))))))))))))
      h =
    absurd (omega arith)

hex-injective : (m n : ℕ) → m < 16 → n < 16 → hex m ≡ hex n → m ≡ n
hex-injective m n h k e = sym (unhex-hex m h) ∙ ap unhex e ∙ unhex-hex n k

pub code_bound : (c : Char) → code c < 1_114_112
code_bound (char n p) = ground arith

-- one percent-encoded byte in front of each of two equal texts
percent-injective :
    (b b' : ℕ) (bs bs' : List ℕ) (rest rest' : String)
    → b < 256
    → b' < 256
    → percent (b ∷ bs) rest ≡ percent (b' ∷ bs') rest'
    → (b ≡ b') × (percent bs rest ≡ percent bs' rest')
unfolding percent
percent-injective b b' bs bs' rest rest' l l' e =
    let one = tail-eq_of_cons-eq e in
    let two = tail-eq_of_cons-eq one in
    let high =
      hex-injective (b / 16) (b' / 16) (omega arith) (omega arith) (head-eq_of_cons-eq one) in
    let low =
      hex-injective (b % 16) (b' % 16) (omega arith) (omega arith) (head-eq_of_cons-eq two) in
    (omega arith, tail-eq_of_cons-eq two)

-- the four lengths of an encoding
pub data Encoded (c : ℕ) : List ℕ → Type 0 where
  one : c < 0x80 → Encoded c (c ∷ [])
  two : 0x80 ≤ c → c < 0x800 → Encoded c ((0xc0 + c / 64) ∷ (0x80 + c % 64) ∷ [])
  three :
      0x800 ≤ c
      → c < 0x10000
      → Encoded c ((0xe0 + c / 4096) ∷ (0x80 + c / 64 % 64) ∷ (0x80 + c % 64) ∷ [])
  four :
      0x10000 ≤ c
      → Encoded c (
          (0xf0 + c / 262144)
          ∷ (0x80 + c / 4096 % 64)
          ∷ (0x80 + c / 64 % 64)
          ∷ (0x80 + c % 64)
          ∷ [])

pub utf8-Encoded : (c : ℕ) → Encoded c (utf8 c)
unfolding utf8
utf8-Encoded c = elim (Bool-cases (ltb c 0x80)) [
  | inl a ↦ rw a (one (ground arith))
  | inr a ↦ elim (Bool-cases (ltb c 0x800)) [
    | inl b ↦ rw (a, b) (two (ground arith) (ground arith))
    | inr b ↦ elim (Bool-cases (ltb c 0x10000)) [
      | inl d ↦ rw (a, b, d) (three (ground arith) (ground arith))
      | inr d ↦ rw (a, b, d) (four (ground arith))
    ]
  ]
]

module _ (a b : ℕ) (rest rest' : String) (h : a < 1_114_112) (k : b < 1_114_112) where
  pub Encoded-injective :
      {bs bs' : List ℕ}
      → Encoded a bs
      → Encoded b bs'
      → percent bs rest ≡ percent bs' rest'
      → (a ≡ b) × (rest ≡ rest')
  unfolding percent
  Encoded-injective (one p) (one p') e =
      let (s0, e0) = percent-injective (a) (b) [] [] rest rest' (omega arith) (omega arith) e in
      (omega arith, e0)
  Encoded-injective (one p) (two p' q') e = absurd (
      omega (
        arith,
        (percent-injective (a) (0xc0 + b / 64) [] ((0x80 + b % 64) ∷ []) rest rest' (omega arith)
            (omega arith) e).0,
      ))
  Encoded-injective (one p) (three p' q') e = absurd (
      omega (
        arith,
        (percent-injective (a) (0xe0 + b / 4096) [] ((0x80 + b / 64 % 64) ∷ (0x80 + b % 64) ∷ [])
            rest rest' (omega arith) (omega arith) e).0,
      ))
  Encoded-injective (one p) (four p') e = absurd (
      omega (
        arith,
        (percent-injective (a) (0xf0 + b / 262144) []
            ((0x80 + b / 4096 % 64) ∷ (0x80 + b / 64 % 64) ∷ (0x80 + b % 64) ∷ []) rest rest'
            (omega arith) (omega arith) e).0,
      ))
  Encoded-injective (two p q) (one p') e = absurd (
      omega (
        arith,
        (percent-injective (0xc0 + a / 64) (b) ((0x80 + a % 64) ∷ []) [] rest rest' (omega arith)
            (omega arith) e).0,
      ))
  Encoded-injective (two p q) (two p' q') e =
      let (s0, e0) =
        percent-injective (0xc0 + a / 64) (0xc0 + b / 64) ((0x80 + a % 64) ∷ [])
          ((0x80 + b % 64) ∷ []) rest rest' (omega arith) (omega arith) e in
      let (s1, e1) =
        percent-injective (0x80 + a % 64) (0x80 + b % 64) [] [] rest rest' (omega arith)
          (omega arith) e0 in
      (omega arith, e1)
  Encoded-injective (two p q) (three p' q') e = absurd (
      omega (
        arith,
        (percent-injective (0xc0 + a / 64) (0xe0 + b / 4096) ((0x80 + a % 64) ∷ [])
            ((0x80 + b / 64 % 64) ∷ (0x80 + b % 64) ∷ []) rest rest' (omega arith) (omega arith)
            e).0,
      ))
  Encoded-injective (two p q) (four p') e = absurd (
      omega (
        arith,
        (percent-injective (0xc0 + a / 64) (0xf0 + b / 262144) ((0x80 + a % 64) ∷ [])
            ((0x80 + b / 4096 % 64) ∷ (0x80 + b / 64 % 64) ∷ (0x80 + b % 64) ∷ []) rest rest'
            (omega arith) (omega arith) e).0,
      ))
  Encoded-injective (three p q) (one p') e = absurd (
      omega (
        arith,
        (percent-injective (0xe0 + a / 4096) (b) ((0x80 + a / 64 % 64) ∷ (0x80 + a % 64) ∷ []) []
            rest rest' (omega arith) (omega arith) e).0,
      ))
  Encoded-injective (three p q) (two p' q') e = absurd (
      omega (
        arith,
        (percent-injective (0xe0 + a / 4096) (0xc0 + b / 64)
            ((0x80 + a / 64 % 64) ∷ (0x80 + a % 64) ∷ []) ((0x80 + b % 64) ∷ []) rest rest'
            (omega arith) (omega arith) e).0,
      ))
  Encoded-injective (three p q) (three p' q') e =
      let (s0, e0) =
        percent-injective (0xe0 + a / 4096) (0xe0 + b / 4096)
          ((0x80 + a / 64 % 64) ∷ (0x80 + a % 64) ∷ [])
          ((0x80 + b / 64 % 64) ∷ (0x80 + b % 64) ∷ []) rest rest' (omega arith) (omega arith) e in
      let (s1, e1) =
        percent-injective (0x80 + a / 64 % 64) (0x80 + b / 64 % 64) ((0x80 + a % 64) ∷ [])
          ((0x80 + b % 64) ∷ []) rest rest' (omega arith) (omega arith) e0 in
      let (s2, e2) =
        percent-injective (0x80 + a % 64) (0x80 + b % 64) [] [] rest rest' (omega arith)
          (omega arith) e1 in
      (omega arith, e2)
  Encoded-injective (three p q) (four p') e = absurd (
      omega (
        arith,
        (percent-injective (0xe0 + a / 4096) (0xf0 + b / 262144)
            ((0x80 + a / 64 % 64) ∷ (0x80 + a % 64) ∷ [])
            ((0x80 + b / 4096 % 64) ∷ (0x80 + b / 64 % 64) ∷ (0x80 + b % 64) ∷ []) rest rest'
            (omega arith) (omega arith) e).0,
      ))
  Encoded-injective (four p) (one p') e = absurd (
      omega (
        arith,
        (percent-injective (0xf0 + a / 262144) (b)
            ((0x80 + a / 4096 % 64) ∷ (0x80 + a / 64 % 64) ∷ (0x80 + a % 64) ∷ []) [] rest rest'
            (omega arith) (omega arith) e).0,
      ))
  Encoded-injective (four p) (two p' q') e = absurd (
      omega (
        arith,
        (percent-injective (0xf0 + a / 262144) (0xc0 + b / 64)
            ((0x80 + a / 4096 % 64) ∷ (0x80 + a / 64 % 64) ∷ (0x80 + a % 64) ∷ [])
            ((0x80 + b % 64) ∷ []) rest rest' (omega arith) (omega arith) e).0,
      ))
  Encoded-injective (four p) (three p' q') e = absurd (
      omega (
        arith,
        (percent-injective (0xf0 + a / 262144) (0xe0 + b / 4096)
            ((0x80 + a / 4096 % 64) ∷ (0x80 + a / 64 % 64) ∷ (0x80 + a % 64) ∷ [])
            ((0x80 + b / 64 % 64) ∷ (0x80 + b % 64) ∷ []) rest rest' (omega arith) (omega arith)
            e).0,
      ))
  Encoded-injective (four p) (four p') e =
      let (s0, e0) =
        percent-injective (0xf0 + a / 262144) (0xf0 + b / 262144)
          ((0x80 + a / 4096 % 64) ∷ (0x80 + a / 64 % 64) ∷ (0x80 + a % 64) ∷ [])
          ((0x80 + b / 4096 % 64) ∷ (0x80 + b / 64 % 64) ∷ (0x80 + b % 64) ∷ []) rest rest'
          (omega arith) (omega arith) e in
      let (s1, e1) =
        percent-injective (0x80 + a / 4096 % 64) (0x80 + b / 4096 % 64)
          ((0x80 + a / 64 % 64) ∷ (0x80 + a % 64) ∷ [])
          ((0x80 + b / 64 % 64) ∷ (0x80 + b % 64) ∷ []) rest rest' (omega arith) (omega arith) e0 in
      let (s2, e2) =
        percent-injective (0x80 + a / 64 % 64) (0x80 + b / 64 % 64) ((0x80 + a % 64) ∷ [])
          ((0x80 + b % 64) ∷ []) rest rest' (omega arith) (omega arith) e1 in
      let (s3, e3) =
        percent-injective (0x80 + a % 64) (0x80 + b % 64) [] [] rest rest' (omega arith)
          (omega arith) e2 in
      (omega arith, e3)
