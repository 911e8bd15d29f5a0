-- ===== src/Redis/Reply/View.antt =====
-- What the getters of a reply show of the value that the server sent.
use clientprefs_redis.Base.{
  [], ◌∷◌, ◌≡◌, refl, ap, Option, none, some, ℤ, pos, ◌==◌, if◌then◌else◌, arith, length,
}
use clientprefs_redis.Text.{Text, IsText}
use clientprefs_redis.Redis.Reply

-- A value of the protocol.
mutual
  pub data Value : Type 0 where
    bulk : Text → Value
    array : Values → Value
    number : ℤ → Value
    null : Value
    status : Text → Value
    error : Text → Value

  pub data Values : Type 0 where
    nil : Values
    cons : Value → Values → Values

-- The object that hiredis documents for it.
mutual
  pub raw_of : Value → Reply.RawReply
  raw_of (bulk s) = Reply.raw 1 (pos 0) (length s) (some s) Reply.nil
  raw_of (array vs) = Reply.raw 2 (pos 0) 0 none (raws_of vs)
  raw_of (number n) = Reply.raw 3 n 0 none Reply.nil
  raw_of null = Reply.raw 4 (pos 0) 0 none Reply.nil
  raw_of (status s) = Reply.raw 5 (pos 0) (length s) (some s) Reply.nil
  raw_of (error s) = Reply.raw 6 (pos 0) (length s) (some s) Reply.nil

  pub raws_of : Values → Reply.RawReplies
  raws_of nil = Reply.nil
  raws_of (cons v vs) = Reply.cons (raw_of v) (raws_of vs)

until_nul_text : (s : Text) → IsText s → Reply.until_nul s ≡ s
unfolding Reply.until_nul
until_nul_text [] h = refl
until_nul_text (c ∷ s) h = ground (arith, h.0, until_nul_text s h.1)

text_or : Option Text → Text
text_or none = []
text_or (some s) = s

-- A reply that is no text, number or array, told apart by its tests.
plain : Reply.Reply → Value
unfolding text_or Reply.status_text Reply.is_ok
plain r =
    if Reply.is_nil r
    then null
    else if Reply.is_ok r
    then status (text_or (Reply.status_text r))
    else error (text_or (Reply.status_text r))

choose : Reply.Reply → Option Text → Option ℤ → Option Reply.Rows → Values → Value
unfolding plain
choose r (some s) n rows vs = bulk s
choose r none (some n) rows vs = number n
choose r none none (some rows) vs = array vs
choose r none none none vs = plain r

-- The value as a client of the class makes it out: by the getters that do not throw.
mutual
  unfolding choose Reply.get_string Reply.get_int Reply.get_array

  pub view : Reply.Reply → Value
  view (Reply.reply type rows str n) =
      let r = Reply.reply type rows str n in
      choose r (Reply.get_string r) (Reply.get_int r) (Reply.get_array r) (views rows)

  pub views : Reply.Rows → Values
  views Reply.end = nil
  views (Reply.row r rs) = cons (view r) (views rs)

-- The value with each text cut at its first NUL.
mutual
  unfolding Reply.until_nul

  pub cut : Value → Value
  cut (bulk s) = bulk (Reply.until_nul s)
  cut (array vs) = array (cuts vs)
  cut (number n) = number n
  cut null = null
  cut (status s) = status (Reply.until_nul s)
  cut (error s) = error (Reply.until_nul s)

  pub cuts : Values → Values
  cuts nil = nil
  cuts (cons v vs) = cons (cut v) (cuts vs)

str_val_length : (s : Text) → (if length s == 0 then [] else Reply.until_nul s) ≡ Reply.until_nul s
unfolding Reply.until_nul
str_val_length [] = refl
str_val_length (c ∷ s) = ground arith

mutual
  unfolding Reply.reply_of raw_of view cut

  view-reply_of : (v : Value) → view (Reply.reply_of (raw_of v)) ≡ cut v
  view-reply_of (bulk s) = ap bulk (str_val_length s)
  view-reply_of (array vs) = ap array (views-rows_of vs)
  view-reply_of (number n) = refl
  view-reply_of null = refl
  view-reply_of (status s) = ap status (str_val_length s)
  view-reply_of (error s) = ap error (str_val_length s)

  views-rows_of : (vs : Values) → views (Reply.rows_of (raws_of vs)) ≡ cuts vs
  views-rows_of nil = refl
  views-rows_of (cons v vs) = rw (view-reply_of v, views-rows_of vs)

-- From the copy of the reply that hiredis makes of a value, a client makes out the value that was
-- sent, of every type and at every depth, with each text cut at its first NUL.
pub view_reply : (v : Value) → view (Reply.reply_of (raw_of v)) ≡ cut v
view_reply v = view-reply_of v
