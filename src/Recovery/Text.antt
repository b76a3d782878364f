-- ===== src/Recovery/Text.antt =====
-- The regular expressions of src/core/coordinator/state.ts, as tests on the text's characters.
-- A length counts UTF-16 code units, as JavaScript's does.
use Prim.Native.Char.{code}
use browserlogin_client.Prelude.{
  ℕ, ◌+◌, String, Bool, true, false, not, List, [], ◌∷◌, ◌&&◌, ◌||◌, ◌==◌, leb, all, if◌then◌else◌,
  length,
}

-- The code points of a text. `String` has its own `[]` and `∷`.
abbrev pub codes : String → List ℕ
codes String.[] = []
codes (String.◌∷◌ c s) = code c ∷ codes s

-- `text.length`.
abbrev pub units : List ℕ → ℕ
units [] = 0
units (c ∷ cs) = (if leb c 65535 then 1 else 2) + units cs

abbrev is_digit : ℕ → Bool
is_digit c = leb b'0' c && leb c b'9'

abbrev is_hex : ℕ → Bool
is_hex c = is_digit c || (leb b'a' c && leb c b'f')

-- `[^\0\r\n]`.
abbrev is_safe_char : ℕ → Bool
is_safe_char c = not (c == 0) && (not (c == 13) && not (c == 10))

-- /^[^\0\r\n]{1,256}$/
unfoldable pub safe_id : String → Bool
safe_id s = let cs = codes s in all is_safe_char cs && (leb 1 (units cs) && leb (units cs) 256)

-- /^[^\0\r\n]+$/
unfoldable pub safe_text : String → Bool
safe_text s = let cs = codes s in all is_safe_char cs && leb 1 (units cs)

-- /^[0-9a-f]{64}$/
unfoldable pub hex64 : String → Bool
hex64 s = let cs = codes s in all is_hex cs && length cs == 64

-- /^[0-9a-f]{32}$/
unfoldable pub run_id_text : String → Bool
run_id_text s = let cs = codes s in all is_hex cs && length cs == 32

-- One character of a date's shape: `0` stands for `\d`, any other for itself.
abbrev fits : ℕ → ℕ → Bool
fits shape c = if shape == b'0' then is_digit c else shape == c

matches : List ℕ → List ℕ → Bool
matches [] [] = true
matches (p ∷ ps) (c ∷ cs) = fits p c && matches ps cs
matches _ _ = false

-- /^\d{4}-\d{2}-\d{2}T\d{2}:\d{2}:\d{2}(?:\.\d{3})?Z$/
unfoldable pub iso_date : String → Bool
unfolding matches
iso_date s =
    matches (codes "0000-00-00T00:00:00Z") (codes s)
    || matches (codes "0000-00-00T00:00:00.000Z") (codes s)

-- The `i` flag folds the ASCII letters.
abbrev lower : ℕ → ℕ
lower c = if leb b'A' c && leb c b'Z' then c + 32 else c

-- The text starts with the pattern, whose `?` stands for `[_-]?`.
starts : List ℕ → List ℕ → Bool
starts [] cs = true
starts (p ∷ ps) [] = p == b'?' && starts ps []
starts (p ∷ ps) (c ∷ cs) =
    let here = starts ps cs in
    let without = starts ps (c ∷ cs) in
    if p == b'?' then (if c == b'_' || c == b'-' then here else without) else p == lower c && here

abbrev forbidden_words : List (List ℕ)
forbidden_words =
    codes "api?key"
    ∷ codes "license?key"
    ∷ codes "authorization"
    ∷ codes "password"
    ∷ codes "secret"
    ∷ codes "token"
    ∷ codes "credential"
    ∷ codes "upload?url"
    ∷ []

some_start : List (List ℕ) → List ℕ → Bool
some_start [] cs = false
some_start (w ∷ ws) cs = starts w cs || some_start ws cs

anywhere : List ℕ → Bool
anywhere [] = some_start forbidden_words []
anywhere (c ∷ cs) = some_start forbidden_words (c ∷ cs) || anywhere cs

-- /api[_-]?key|license[_-]?key|authorization|password|secret|token|credential|upload[_-]?url/i
unfoldable pub forbidden : String → Bool
unfolding anywhere some_start starts
forbidden s = anywhere (codes s)
