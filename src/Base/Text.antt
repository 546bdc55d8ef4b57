-- ===== src/Base/Text.antt =====
-- Texts: identifiers are native strings, compared as wholes; a text that the code walks is the
-- list of its code points.
use Prim.Native.Nat.{ℕ, suc}
use Prim.Native.Char.{code}
use Prim.Native.String.{String}
use mathlib.Core.Bool.{Bool, true, ◌&&◌, ◌||◌}
use mathlib.Core.List.{List, [], ◌∷◌}
use text.Mathlib.Text.{◌==◌ as str_eq}
use wagering_wallet_service.Base.Tests.{leb, ◌==◌}

-- The code points of a text: its bytes, if it is ASCII.
abbrev pub codes : String → List ℕ
codes String.[] = []
codes (String.◌∷◌ c s) = code c ∷ codes s

module _ {ℓ} {A : Type ℓ} where
  abbrev pub length : List A → ℕ
  length [] = 0
  length (x ∷ xs) = suc (length xs)

  -- Every element passes the test.
  abbrev pub all : (A → Bool) → List A → Bool
  all p [] = true
  all p (x ∷ xs) = p x && all p xs

-- The comparison with Go's empty string.
abbrev pub is_empty : String → Bool
is_empty s = str_eq s ""

-- `unicode.IsSpace`.
unfoldable pub is_space : ℕ → Bool
is_space c =
    (leb 9 c && leb c 13)
    || c == 32
    || c == 0x85
    || c == 0xa0
    || c == 0x1680
    || (leb 0x2000 c && leb c 0x200a)
    || c == 0x2028
    || c == 0x2029
    || c == 0x202f
    || c == 0x205f
    || c == 0x3000

-- `strings.TrimSpace(s) == ""`: the text has white space only.
unfoldable pub is_blank : String → Bool
unfolding is_space
is_blank s = all is_space (codes s)

abbrev pub is_digit : ℕ → Bool
is_digit c = leb b'0' c && leb c b'9'

-- A character of the class `[0-9a-f]`.
abbrev pub is_lower_hex : ℕ → Bool
is_lower_hex c = is_digit c || (leb b'a' c && leb c b'f')

-- The regular expression `^[0-9a-f]{64}$`.
unfoldable pub is_payload_hash : String → Bool
is_payload_hash s = length (codes s) == 64 && all is_lower_hex (codes s)
