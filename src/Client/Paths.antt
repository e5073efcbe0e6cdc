-- ===== src/Client/Paths.antt =====
-- `urllib.parse.quote` and `urlencode` as client.py uses them, and the paths of the API.
pub mod Quoting
pub mod Encoding
pub mod Isolation
use Prim.Native.String.{[], ◌∷◌}
use mathlib.Core.List.{[], ◌∷◌}
use mizan_client_sdks.Base.{
  ℕ, ◌+◌, ◌/◌, ◌%◌, Char, code, String, Bool, ◌&&◌, ◌||◌, List, Option, none, some, ltb, leb,
  nat_eq, ◌==◌, if◌then◌else◌,
}
use mizan_client_sdks.Python.Value.{value_error, Result, ok, err}
use mizan_client_sdks.Python.Text.{append, is_empty}
use mizan_client_sdks.Python.Runtime.{Python}
use mizan_client_sdks.Python.Numbers.Print.{digit}

-- the UTF-8 bytes of a code point
unfoldable pub utf8 : ℕ → List ℕ
utf8 c =
    if ltb c 0x80
    then c ∷ []
    else if ltb c 0x800
    then (0xc0 + c / 64) ∷ (0x80 + c % 64) ∷ []
    else if ltb c 0x10000
    then (0xe0 + c / 4096) ∷ (0x80 + c / 64 % 64) ∷ (0x80 + c % 64) ∷ []
    else (0xf0 + c / 262144) ∷ (0x80 + c / 4096 % 64) ∷ (0x80 + c / 64 % 64) ∷ (0x80 + c % 64) ∷ []

unfoldable pub hex : ℕ → Char
hex n =
    if ltb n 10
    then digit n
    else if nat_eq n 10
    then "A"
    else if nat_eq n 11
    then "B"
    else if nat_eq n 12
    then "C"
    else if nat_eq n 13
    then "D"
    else if nat_eq n 14
    then "E"
    else "F"

-- "%{:02X}" of each byte, in front of `rest`
unfoldable pub percent : List ℕ → String → String
percent [] rest = rest
percent (b ∷ bs) rest = "%" ∷ (hex (b / 16) ∷ (hex (b % 16) ∷ percent bs rest))

-- a letter, a digit or one of "_.-~"
unfoldable pub is_unreserved : Char → Bool
is_unreserved c =
    let n = code c in
    (leb b'a' n && leb n b'z')
    || (leb b'A' n && leb n b'Z')
    || (leb b'0' n && leb n b'9')
    || nat_eq n b'_'
    || nat_eq n b'.'
    || nat_eq n b'-'
    || nat_eq n b'~'

-- quote(s, safe="")
unfoldable pub quote : String → String
quote [] = ""
quote (c ∷ s) =
    let rest = quote s in if is_unreserved c then c ∷ rest else percent (utf8 (code c)) rest

-- quote_plus(s), as `urlencode` uses it
unfoldable pub quote_plus : String → String
quote_plus [] = ""
quote_plus (c ∷ s) =
    let rest = quote_plus s in
    if nat_eq (code c) b' '
    then "+" ∷ rest
    else if is_unreserved c
    then c ∷ rest
    else percent (utf8 (code c)) rest

-- self._business_path(business_id, suffix), for the business that the client is bound to
unfoldable pub business_path : Python → Option String → String → String → Result String
business_path py bound business_id suffix =
    if is_empty business_id then err (value_error "business_id is required") else elim bound [
      | none ↦ ok (append "/v1/businesses/" (append (quote business_id) (append "/" suffix)))
      | some own ↦
          if business_id == own
          then ok (append "/v1/businesses/" (append (quote business_id) (append "/" suffix)))
          else err (
              value_error (
                append "client is bound to business_id "
                  (append (py.repr own) (append ", not " (py.repr business_id)))))
    ]
