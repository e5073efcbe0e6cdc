-- ===== src/Python/Text.antt =====
-- `str` methods and slices over code points.
use Prim.Native.String.{[], ◌∷◌}
use mizan_client_sdks.Base.{
  ℕ, suc, Char, code, String, Bool, true, false, ◌&&◌, nat_eq, if◌then◌else◌,
}

-- len(s)
unfoldable pub length : String → ℕ
length [] = 0
length (c ∷ s) = suc (length s)

-- not s
abbrev pub is_empty : String → Bool
is_empty [] = true
is_empty (c ∷ s) = false

-- s + t
abbrev pub append : String → String → String
append s t = Prim.Native.String.◌++◌ s t

-- s.replace("Z", "+00:00")
unfoldable pub replace_z : String → String
replace_z [] = ""
replace_z (c ∷ s) =
    let rest = replace_z s in if nat_eq (code c) b'Z' then append "+00:00" rest else c ∷ rest

-- s.startswith("-")
unfoldable pub starts_minus : String → Bool
starts_minus [] = false
starts_minus (c ∷ s) = nat_eq (code c) b'-'

-- s[1:]
unfoldable pub tail : String → String
tail [] = ""
tail (c ∷ s) = s

-- s.lstrip(), s.rstrip() and s.strip(), for what counts as white space
module _ (space : Char → Bool) where
  unfoldable pub lstrip : String → String
  lstrip [] = ""
  lstrip (c ∷ s) = if space c then lstrip s else c ∷ s

  unfoldable pub rstrip : String → String
  rstrip [] = ""
  rstrip (c ∷ s) = let rest = rstrip s in if space c && is_empty rest then "" else c ∷ rest

unfoldable pub strip : (Char → Bool) → String → String
unfolding lstrip rstrip
strip space s = rstrip space (lstrip space s)

-- s.rstrip("/")
unfoldable pub rstrip_slash : String → String
unfolding rstrip
rstrip_slash s = rstrip (λ c. nat_eq (code c) b'/') s
