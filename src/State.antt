-- ===== src/State.antt =====
-- The data of the extension: the structures of cookie.h and query.h, the objects on the heap and
-- the fields of `g_CookieManager` and `g_ClientPrefs`, with the operations on pointers and arrays.
use clientprefs_redis.Base.{
  ℕ, suc, List, [], ◌∷◌, ◌++◌, Option, none, some, Bool, false, leb, ℤ, pos, negsuc,
}
use clientprefs_redis.Base.Fault.{M, ◌>>◌, modify, deref, check, update}
use clientprefs_redis.Text.{Text, clip}
use clientprefs_redis.Sdk.{Sdk, Entry}

abbrev pub max_name_length : ℕ
max_name_length = 30

abbrev pub max_desc_length : ℕ
max_desc_length = 255

abbrev pub max_value_length : ℕ
max_value_length = 100

-- CookieAccess: the program casts any number to it, so it is the number.
abbrev pub CookieAccess : Type 0
CookieAccess = ℤ

abbrev pub cookie_access_public : CookieAccess
cookie_access_public = pos 0

-- `parent` is `none` until it is written; an address is a number.
pub record CookieData : Type 0 where
  pub value : Text
  pub changed : Bool
  pub timestamp : ℕ
  pub parent : Option ℕ

-- The constructor sets the value. Who calls it sets the other fields before they are read.
unfoldable pub new_cookie_data : Option Text → CookieData
new_cookie_data value = record {
  value = clip max_value_length value;
  changed = false;
  timestamp = 0;
  parent = none;
}

-- `data_at` is the array `data`; `none` is NULL.
pub record Cookie : Type 0 where
  pub name : Text
  pub description : Text
  pub dbid : ℤ
  pub data_at : ℕ → Option ℕ
  pub access : CookieAccess

unfoldable pub new_cookie : Option Text → Option Text → CookieAccess → Cookie
new_cookie name description access = record {
  name = clip max_name_length name;
  description = clip max_desc_length description;
  dbid = negsuc 0;
  data_at = λ _. none;
  access = access;
}

pub data QueryType : Type 0 where
  insert_cookie select_data insert_data select_id connect : QueryType

pub record ParamData : Type 0 where
  pub cookie : Option ℕ
  pub steam_id : Text
  pub cookie_id : ℤ
  pub datum : Option ℕ

abbrev pub new_param_data : ParamData
new_param_data = record { cookie = none; steam_id = []; cookie_id = pos 0; datum = none }

-- `cookie` is `m_pCookie`. A cookie in `results` is a value, not an object on the heap.
pub record QueryOp : Type 0 where
  pub type : QueryType
  pub serial : ℕ
  pub cookie : Option ℕ
  pub params : ParamData
  pub insert_id : ℤ
  pub results : List (Cookie × Text)

-- TQueryOp(type, serial)
abbrev pub serial_op : QueryType → ℕ → QueryOp
serial_op type serial = record {
  type = type;
  serial = serial;
  cookie = none;
  params = new_param_data;
  insert_id = negsuc 0;
  results = [];
}

-- TQueryOp(type, cookie)
abbrev pub cookie_op : QueryType → ℕ → QueryOp
cookie_op type cookie = record {
  type = type;
  serial = 0;
  cookie = some cookie;
  params = new_param_data;
  insert_id = negsuc 0;
  results = [];
}

-- The heap of cookies and of cookie data with the next free address, the fields of the manager, the
-- two queues of `tqq` with the queries that a thread has taken and not put back yet, the cached
-- queries, and the clients that the forward OnClientCookiesCached was called with, the latest last.
-- An array of clients is a function, and its bound is checked at each access.
pub record World : Type 0 where
  pub cookies : ℕ → Option Cookie
  pub datums : ℕ → Option CookieData
  pub next : ℕ
  pub finder : List Entry
  pub cookie_list : List ℕ
  pub client_data : ℕ → List ℕ
  pub connected : ℕ → Bool
  pub stats_loaded : ℕ → Bool
  pub stats_pending : ℕ → Bool
  pub query_queue : List QueryOp
  pub running : List QueryOp
  pub result_queue : List QueryOp
  pub cached_queries : List QueryOp
  pub told : List ℕ

abbrev pub Main : Type 0 → Type 0
Main A = M World A

-- CookieManager::CookieManager(), and an empty heap.
unfoldable pub new_world : World
new_world = record {
  cookies = λ _. none;
  datums = λ _. none;
  next = 1;
  finder = [];
  cookie_list = [];
  client_data = λ _. [];
  connected = λ _. false;
  stats_loaded = λ _. false;
  stats_pending = λ _. false;
  query_queue = [];
  running = [];
  result_queue = [];
  cached_queries = [];
  told = [];
}

abbrev pub load_cookie : ℕ → Main Cookie
load_cookie p s = deref (s.cookies p) s

abbrev pub load_data : ℕ → Main CookieData
load_data d s = deref (s.datums d) s

abbrev pub store_cookie : ℕ → Cookie → Main Unit
store_cookie p k = do
  load_cookie p
  modify (λ s. record s { cookies = update s.cookies p (some k) })

abbrev pub store_data : ℕ → CookieData → Main Unit
store_data d x = do load_data d; modify (λ s. record s { datums = update s.datums d (some x) })

abbrev pub delete_data : ℕ → Main Unit
delete_data d = do load_data d; modify (λ s. record s { datums = update s.datums d none })

abbrev pub alloc_cookie : Cookie → Main ℕ
alloc_cookie k s =
    some (s.next, record s { cookies = update s.cookies s.next (some k); next = suc s.next })

abbrev pub alloc_data : CookieData → Main ℕ
alloc_data x s =
    some (s.next, record s { datums = update s.datums s.next (some x); next = suc s.next })

-- clientData[client].append(data)
abbrev pub append_data : ℕ → ℕ → Main Unit
append_data client d =
    modify
      (λ s. record s { client_data = update s.client_data client (s.client_data client ++ d ∷ []) })

-- TQueue::AddToThreadQueue, which ignores the priority.
abbrev pub add_query_to_queue : QueryOp → Main Unit
add_query_to_queue op = modify (λ s. record s { query_queue = s.query_queue ++ op ∷ [] })

-- An access to an array of SM_MAXPLAYERS + 1 elements.
abbrev pub check_client : ⦃sdk : Sdk⦄ → ℕ → Main Unit
check_client ⦃sdk⦄ client = check (leb client sdk.max_players)
