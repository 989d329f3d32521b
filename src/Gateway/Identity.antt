-- ===== src/Gateway/Identity.antt =====
-- internal/gateway/domain/identity.go: MusicBrainz identifiers. The pipeline has the same function
-- in internal/pipeline/domain/release_match.go.
use denyra.Base.{
  ℕ, ◌/◌, ◌%◌, Bool, true, false, not, ◌&&◌, ◌||◌, Option, none, some, ◌==◌, leb, if◌then◌else◌,
  length, get_elem?, keep, any,
}
use denyra.Base.Text.{Str, same, to_lower}

abbrev dash : ℕ
dash = b'-'

-- `value[i] == '-'`, where `i` is in range
abbrev dash_at : Str → ℕ → Bool
dash_at s i = elim (get_elem? s i) [ some c ↦ c == dash | none ↦ false ]

abbrev is_hex : ℕ → Bool
is_hex c = (leb b'0' c && leb c b'9') || (leb b'a' c && leb c b'f') || (leb b'A' c && leb c b'F')

-- `strings.ReplaceAll(value, "-", "")`
abbrev without_dashes : Str → Str
without_dashes = keep (λ c. not (c == dash))

-- `hex.DecodeString` accepts pairs of digits only, and returns a byte for each pair.
abbrev decodes_to : Str → ℕ → Bool
decodes_to s n = length s % 2 == 0 && not (any (λ c. not (is_hex c)) s) && length s / 2 == n

-- `CanonicalMBID`, which has one error. Only ASCII letters are lowered here: a value that other
-- letters would make unequal to its lower case is refused by `hex.DecodeString` in any case.
unfoldable pub canonical_mbid : Str → Option Str
canonical_mbid value =
    if not (same value (to_lower value))
      || not (length value == 36)
      || not (dash_at value 8)
      || not (dash_at value 13)
      || not (dash_at value 18)
      || not (dash_at value 23)
    then none
    else if decodes_to (without_dashes value) 16
    then some value
    else none

unfoldable pub is_mbid : Str → Bool
unfolding canonical_mbid
is_mbid value = elim (canonical_mbid value) [ some v ↦ true | none ↦ false ]
