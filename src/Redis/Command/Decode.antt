-- ===== src/Redis/Command/Decode.antt =====
-- The Redis protocol's reader of a command, written from the protocol, takes what formatCommand
-- writes.
use clientprefs_redis.Base.{
  ℕ, zero, suc, ◌+◌, ◌*◌, ◌-◌, ◌≡◌, refl, ◌∙◌, List, [], ◌∷◌, ◌++◌, none, some, true, ◌==◌,
  if◌then◌else◌, length, append_assoc,
}
use clientprefs_redis.Base.Fault.{M, ◌>>=◌, ◌>>◌, pure}
use clientprefs_redis.Text.{Text}
use clientprefs_redis.Text.Decimal.{text_of_ℕ, is_digit, read-text_of_ℕ}
use clientprefs_redis.Redis.Command.{crlf, format_part, format_parts, format_command}

-- A reader over the bytes that are left; `none` is a protocol error.
abbrev Reader : Type 0 → Type 0
Reader A = M Text A

-- One byte that must be there.
byte : ℕ → Reader Unit
byte c [] = none
byte c (d ∷ t) = if d == c then some (tt, t) else none

-- The digits of a number that continue `n`, and the CRLF behind them.
number : ℕ → Reader ℕ
number n [] = none
number n (c ∷ t) =
    let rest = number (n * 10 + (c - 48)) t in
    let end = (do byte 13; byte 10; pure n) (c ∷ t) in if is_digit c then rest else end

-- Exactly `n` bytes.
bytes : ℕ → Reader Text
bytes zero t = some ([], t)
bytes (suc n) [] = none
bytes (suc n) (c ∷ t) = (do s ← bytes n; pure (c ∷ s)) t

bulk : Reader Text
bulk = do byte b'$'; n ← number 0; s ← bytes n; byte 13; byte 10; pure s

bulks : ℕ → Reader (List Text)
bulks zero = pure []
bulks (suc n) = do s ← bulk; ss ← bulks n; pure (s ∷ ss)

pub read_command : Reader (List Text)
read_command = do byte b'*'; n ← number 0; bulks n

number_step :
    (n c : ℕ) (t : Text) → is_digit c ≡ true → number n (c ∷ t) ≡ number (n * 10 + (c - 48)) t
unfolding number
number_step n c t h = rw h

number-text_of_ℕ : (n : ℕ) (rest : Text) → number 0 (text_of_ℕ n ++ (crlf ++ rest)) ≡ some (n, rest)
unfolding crlf
number-text_of_ℕ n rest =
    read-text_of_ℕ number number_step n (crlf ++ rest) ∙ unfold number byte is_digit in refl

bytes-append : (s rest : Text) → bytes (length s) (s ++ rest) ≡ some (s, rest)
unfolding bytes
bytes-append [] rest = refl
bytes-append (c ∷ s) rest = rw (bytes-append s rest, ◌>>=◌)

bulk-format_part : (s rest : Text) → bulk (format_part s ++ rest) ≡ some (s, rest)
unfolding bulk format_part crlf byte
bulk-format_part s rest = simp append_assoc (
    rw (number-text_of_ℕ (length s) (s ++ (crlf ++ rest)), ◌>>=◌)
      (rw (bytes-append s (crlf ++ rest), ◌>>=◌)))

bulks-format_parts :
    (parts : List Text) (rest : Text)
    → bulks (length parts) (format_parts parts ++ rest) ≡ some (parts, rest)
unfolding bulks format_parts
bulks-format_parts [] rest = refl
bulks-format_parts (part ∷ parts) rest = rw append_assoc (
    rw (bulk-format_part part (format_parts parts ++ rest), ◌>>=◌)
      (rw (bulks-format_parts parts rest, ◌>>=◌)))

-- Whatever follows in the stream, a reader of the protocol takes exactly the command that was
-- formatted, its parts unchanged, whatever bytes they hold, CR, LF and NUL included.
pub read_command-format_command :
    (redis_cmd : List Text) (rest : Text)
    → read_command (format_command redis_cmd ++ rest) ≡ some (redis_cmd, rest)
unfolding read_command format_command byte
read_command-format_command redis_cmd rest = simp append_assoc (
    rw (number-text_of_ℕ (length redis_cmd) (format_parts redis_cmd ++ rest), ◌>>=◌)
      (bulks-format_parts redis_cmd rest))
