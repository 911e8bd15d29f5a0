-- ===== src/Text.antt =====
-- C strings and the text routines of the C and C++ libraries that the extension uses.
pub mod Strncpy
pub mod Decimal
use Prim.Native.Char.{code}
use Prim.Native.String.{String}
use clientprefs_redis.Base.{◌∷◌, ℕ, List, ◌-◌, take, Option, none, some, [], ◌≢◌, All}

-- The bytes before the terminating NUL.
abbrev pub Text : Type 0
Text = List ℕ

-- No byte of a C string is NUL.
abbrev pub IsText : Text → Type 0
IsText = All (λ c. c ≢ 0)

-- What a reader finds in a buffer after `UTIL_strncpy(buffer, source, num)`; `none` is NULL.
-- (`Strncpy` proves this of the buffer.)
unfoldable pub clip : ℕ → Option Text → Text
clip num none = []
clip num (some source) = take (num - 1) source

-- The bytes of a literal in ASCII. `String` has its own `[]` and `∷`.
abbrev pub codes : String → Text
codes String.[] = []
codes (String.◌∷◌ c s) = code c ∷ codes s
