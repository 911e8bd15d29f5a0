-- ===== src/Redis/Command.antt =====
-- client::formatCommand of client.cpp: the wire form of a command.
pub mod Decode
use clientprefs_redis.Base.{
  ℕ, zero, suc, ◌+◌, ◌*◌, ◌-◌, ◌/◌, ◌%◌, ◌<◌, ◌≤◌, ◌≡◌, refl, sym, ap, ◌∙◌, List, [], ◌∷◌, ◌++◌,
  Option, none, some, Bool, true, false, ◌==◌, ◌&&◌, if◌then◌else◌, arith, length, take, drop,
  append_assoc, leb, ltb,
}
use clientprefs_redis.Text.{Text}
use clientprefs_redis.Text.Decimal.{text_of_ℕ}

crlf : Text
crlf = 13 ∷ 10 ∷ []

format_part : Text → Text
unfolding crlf
format_part part = b'$' ∷ (text_of_ℕ (length part) ++ (crlf ++ (part ++ crlf)))

format_parts : List Text → Text
unfolding format_part
format_parts [] = []
format_parts (part ∷ parts) = format_part part ++ format_parts parts

pub format_command : List Text → Text
unfolding crlf format_parts
format_command redis_cmd = b'*' ∷ (text_of_ℕ (length redis_cmd) ++ (crlf ++ format_parts redis_cmd))
