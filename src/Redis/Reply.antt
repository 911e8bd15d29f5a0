-- ===== src/Redis/Reply.antt =====
-- async_redis::reply of reply.h and reply.cpp: a copy of the reply that hiredis parsed.
pub mod View
use clientprefs_redis.Base.{
  ℕ, zero, suc, List, [], ◌∷◌, Option, none, some, Bool, true, false, ℤ, pos, ◌==◌, ◌&&◌, not,
  if◌then◌else◌,
}
use clientprefs_redis.Text.{Text}

-- hiredis' redisReply: type, integer, len, str (`none` is NULL) and the elements.
mutual
  pub data RawReply : Type 0 where
    null : RawReply
    raw : ℕ → ℤ → ℕ → Option (List ℕ) → RawReplies → RawReply

  pub data RawReplies : Type 0 where
    nil : RawReplies
    cons : RawReply → RawReplies → RawReplies

pub data ReplyType : Type 0 where
  invalid string arrays integer nil status error : ReplyType
  other : ℕ → ReplyType

-- (type)r->type
abbrev pub type_of : ℕ → ReplyType
type_of zero = invalid
type_of (suc zero) = string
type_of (suc (suc zero)) = arrays
type_of (suc (suc (suc zero))) = integer
type_of (suc (suc (suc (suc zero)))) = nil
type_of (suc (suc (suc (suc (suc zero))))) = status
type_of (suc (suc (suc (suc (suc (suc zero)))))) = error
type_of n = other n

-- The type, the rows, the text and the number.
mutual
  pub data Reply : Type 0 where
    reply : ReplyType → Rows → Text → ℤ → Reply

  pub data Rows : Type 0 where
    end : Rows
    row : Reply → Rows → Rows

-- std::string(r->str), which ends at the first NUL.
unfoldable pub until_nul : List ℕ → Text
until_nul [] = []
until_nul (c ∷ s) = let rest = until_nul s in if c == 0 then [] else c ∷ rest

-- `if (r->len && r->str)`
str_val : ℕ → Option (List ℕ) → Text
unfolding until_nul
str_val len none = []
str_val len (some s) = if len == 0 then [] else until_nul s

-- Only an array copies its elements.
keep_rows : ReplyType → Rows → Rows
keep_rows arrays rows = rows
keep_rows _ rows = end

mutual
  unfolding str_val keep_rows

  -- reply::reply(void *raw_reply); NULL leaves the number unset, and nothing reads it.
  pub reply_of : RawReply → Reply
  reply_of null = reply invalid end [] (pos 0)
  reply_of (raw type n len str elements) =
      reply (type_of type) (keep_rows (type_of type) (rows_of elements)) (str_val len str) n

  pub rows_of : RawReplies → Rows
  rows_of nil = end
  rows_of (cons r rs) = row (reply_of r) (rows_of rs)

abbrev pub reply_type : Reply → ReplyType
reply_type (reply type rows str n) = type

-- IsVaild, IsString, IsArrays, IsInt, IsNIL, IsStatus, IsError
abbrev is_type : ℕ → ReplyType → Bool
is_type n invalid = n == 0
is_type n string = n == 1
is_type n arrays = n == 2
is_type n integer = n == 3
is_type n nil = n == 4
is_type n status = n == 5
is_type n error = n == 6
is_type n (other m) = false

abbrev pub is_valid : Reply → Bool
is_valid r = not (is_type 0 (reply_type r))

abbrev pub is_string : Reply → Bool
is_string r = is_type 1 (reply_type r)

abbrev pub is_arrays : Reply → Bool
is_arrays r = is_type 2 (reply_type r)

abbrev pub is_int : Reply → Bool
is_int r = is_type 3 (reply_type r)

abbrev pub is_nil : Reply → Bool
is_nil r = is_type 4 (reply_type r)

abbrev pub is_status : Reply → Bool
is_status r = is_type 5 (reply_type r)

abbrev pub is_error : Reply → Bool
is_error r = is_type 6 (reply_type r)

-- reply::operator bool
unfoldable pub to_bool : Reply → Bool
to_bool r = is_type 0 (reply_type r)

unfoldable pub is_ok : Reply → Bool
is_ok r = not (is_type 0 (reply_type r)) && not (is_type 6 (reply_type r))

-- `none` is nullptr.
unfoldable pub status_text : Reply → Option Text
status_text (reply type rows str n) =
    if is_type 0 type
    then some (
        b'r' ∷ b'e' ∷ b'p' ∷ b'l' ∷ b'y' ∷ b' ' ∷ b'i' ∷ b's' ∷ b' ' ∷ b'i' ∷ b'n' ∷ b'v' ∷ b'a'
        ∷ b'l' ∷ b'i' ∷ b'd' ∷ [])
    else if is_type 5 type
    then some str
    else if is_type 6 type
    then some str
    else none

-- The getters throw std::invalid_argument, `none`, at a reply of another type.
unfoldable pub get_array : Reply → Option Rows
get_array (reply type rows str n) = if is_type 2 type then some rows else none

unfoldable pub get_int : Reply → Option ℤ
get_int (reply type rows str n) = if is_type 3 type then some n else none

unfoldable pub get_string : Reply → Option Text
get_string (reply type rows str n) = if is_type 1 type then some str else none

unfoldable pub row_list : Rows → List Reply
row_list end = []
row_list (row r rs) = r ∷ row_list rs
