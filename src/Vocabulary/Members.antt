-- ===== src/Vocabulary/Members.antt =====
-- `StrEnum` of enums.py: an enumeration by its members, in the order of their declaration, and the wire
-- value of each.
use mathlib.Core.List.{[], ◌∷◌}
use mizan_client_sdks.Base.{String, ◌≡◌, Option, none, some, List, ◌==◌, if◌then◌else◌}

pub record StrEnum (E : Type 0) : Type 0 where
  pub members : List E
  pub wire : E → String

wires : {E : Type 0} → (E → String) → List E → List String
wires wire [] = []
wires wire (x ∷ xs) = wire x ∷ wires wire xs

-- values(enum_type)
unfoldable pub values : {E : Type 0} → StrEnum E → List String
unfolding wires
values e = wires e.wire e.members

find_in : {E : Type 0} → (E → String) → String → List E → Option E
find_in wire s [] = none
find_in wire s (x ∷ xs) = if wire x == s then some x else find_in wire s xs

-- the first member with the wire value
unfoldable pub find : {E : Type 0} → StrEnum E → String → Option E
unfolding find_in
find e s = find_in e.wire s e.members

-- Every member is listed, and is the only one with its wire value.
abbrev pub IsClosed : {E : Type 0} → StrEnum E → Type 0
IsClosed {E} e = (x : E) → find e (e.wire x) ≡ some x
