-- ===== src/Query/Keys.antt =====
-- The keys and the commands of the data format.
use clientprefs_redis.Base.{List, [], ◌∷◌, ◌++◌}
use clientprefs_redis.Text.{Text, codes}

abbrev pub id_key : Text → Text
id_key name = codes "cookies.id." ++ name

abbrev pub access_key : Text → Text
access_key name = codes "cookies.access." ++ name

abbrev pub desc_key : Text → Text
desc_key name = codes "cookies.desc." ++ name

-- The value of a player, by its Steam id and the id of the cookie.
abbrev pub value_key : Text → Text → Text
value_key steam_id cookie_id = steam_id ++ (codes "." ++ cookie_id)

abbrev pub get_cmd : Text → List Text
get_cmd key = codes "GET" ∷ key ∷ []

abbrev pub set_cmd : Text → Text → List Text
set_cmd key value = codes "SET" ∷ key ∷ value ∷ []

abbrev pub sadd_cmd : Text → List Text
sadd_cmd name = codes "SADD" ∷ codes "cookies.list" ∷ name ∷ []

-- Kept for two weeks.
abbrev pub save_cmd : Text → Text → List Text
save_cmd key value = codes "SET" ∷ key ∷ value ∷ codes "EX" ∷ codes "1209600" ∷ []

abbrev pub get_client_cookies_sha : Text
get_client_cookies_sha = codes "2e80a3ad95e151c8466c622a382586fab9d9f9b1"

abbrev pub evalsha_cmd : Text → List Text
evalsha_cmd steam_id = codes "EVALSHA" ∷ get_client_cookies_sha ∷ codes "1" ∷ steam_id ∷ []

abbrev pub keys_cmd : List Text
keys_cmd = codes "KEYS" ∷ codes "cookies.id.*" ∷ []
