-- ===== src/CookieManager.antt =====
-- CookieManager of cookie.cpp: the cookies by name, the values of a client, and the callbacks that
-- give a cookie its id. A pointer is an address of the heap in `State`.
pub mod Create
pub mod Values
use clientprefs_redis.Base.{
  ℕ, zero, List, [], ◌∷◌, ◌++◌, Option, none, some, Bool, true, false, ltb, ℤ, pos, lt_ℤ,
  if◌then◌else◌,
}
use clientprefs_redis.Base.Fault.{◌>>=◌, ◌>>◌, pure, gets, modify, update}
use clientprefs_redis.Text.{Text, clip}
use clientprefs_redis.Sdk.{Sdk, Server}
use clientprefs_redis.State.{
  Cookie, CookieData, CookieAccess, QueryOp, World, Main, insert_cookie, select_id, cookie_op,
  new_cookie, new_cookie_data, max_name_length, max_desc_length, max_value_length, load_cookie,
  load_data, store_cookie, store_data, alloc_cookie, alloc_data, append_data, add_query_to_queue,
  check_client,
}

module _ ⦃sdk : Sdk⦄ where
  unfoldable pub find_cookie : Text → Main (Option ℕ)
  find_cookie name = gets (λ s. sdk.retrieve s.finder name)

  -- The cookie exists: its description and access become the given ones.
  update_cookie : ℕ → Text → CookieAccess → Main ℕ
  update_cookie p description access = do
    k ← load_cookie p
    store_cookie p
        (record k { description = clip max_desc_length (some description); access = access })
    pure p

  -- A cookie of this name is made, queued for its id, and entered under the name that was asked for.
  fresh_cookie : Text → Text → CookieAccess → Main ℕ
  unfolding new_cookie
  fresh_cookie name description access = do
    let k = new_cookie (some name) (some description) access
    p ← alloc_cookie k
    let op = cookie_op insert_cookie p
    modify (λ s. record s {
      finder = record { key = name; name = k.name; cookie = p } ∷ s.finder;
      cookie_list = s.cookie_list ++ p ∷ [];
    })
    add_query_to_queue (record op { params = record op.params { cookie = some p } })
    pure p

  or_fresh : Option ℕ → Text → Text → CookieAccess → Main ℕ
  unfolding update_cookie fresh_cookie
  or_fresh none name description access = fresh_cookie name description access
  or_fresh (some p) name description access = update_cookie p description access

  unfoldable pub create_cookie : Text → Text → CookieAccess → Main ℕ
  unfolding find_cookie or_fresh
  create_cookie name description access = do
    found ← find_cookie name
    or_fresh found name description access

  -- pCookie->data[client]
  abbrev pub slot : ℕ → ℕ → Main (Option ℕ)
  slot p client = do k ← load_cookie p; check_client client; pure (k.data_at client)

  -- pCookie->data[client] = data
  abbrev pub set_slot : ℕ → ℕ → Option ℕ → Main Unit
  set_slot p client d = do
    k ← load_cookie p
    check_client client
    store_cookie p (record k { data_at = update k.data_at client d })

  -- A new object for this client and this cookie: constructed, appended and linked.
  attach_data : ℕ → ℕ → Option Text → Main ℕ
  unfolding new_cookie_data
  attach_data p client value = do
    let x = new_cookie_data value
    d ← alloc_data (record x { parent = some p })
    append_data client d
    set_slot p client (some d)
    pure d

  value_at : Option ℕ → ℕ → ℕ → Main ℕ
  unfolding attach_data
  value_at (some d) p client = pure d
  value_at none p client = do
    d ← attach_data p client (some [])
    x ← load_data d
    store_data d (record x { changed = false; timestamp = 0 })
    pure d

  -- The result is the address of the data, whose `value` the caller reads.
  unfoldable pub get_cookie_value : ℕ → ℕ → Main ℕ
  unfolding value_at
  get_cookie_value p client = do d ← slot p client; value_at d p client

  put_value : Option ℕ → ℕ → ℕ → Text → Main ℕ
  unfolding attach_data
  put_value none p client value = attach_data p client (some value)
  put_value (some d) p client value = do
    x ← load_data d
    store_data d (record x { value = clip max_value_length (some value) })
    pure d

  unfoldable pub set_cookie_value : Server → ℕ → ℕ → Text → Main Bool
  unfolding put_value
  set_cookie_value server p client value = do
    d ← slot p client
    d' ← put_value d p client value
    x ← load_data d'
    store_data d' (record x { changed = true; timestamp = server.time })
    pure true

  time_at : Option ℕ → Main (Option ℕ)
  time_at none = pure none
  time_at (some d) = do x ← load_data d; pure (some x.timestamp)

  -- `none` is the result false.
  unfoldable pub get_cookie_time : ℕ → ℕ → Main (Option ℕ)
  unfolding time_at
  get_cookie_time p client = do d ← slot p client; time_at d

  unfoldable pub are_client_cookies_cached : ℕ → Main Bool
  are_client_cookies_cached client = do check_client client; gets (λ s. s.stats_loaded client)

  unfoldable pub are_client_cookies_pending : ℕ → Main Bool
  are_client_cookies_pending client = do check_client client; gets (λ s. s.stats_pending client)

unfoldable pub select_id_callback : ℕ → ℤ → Main Unit
select_id_callback p id = do k ← load_cookie p; store_cookie p (record k { dbid = id })

-- The cookie name goes where the Steam id goes in other queries.
ask_id : ℕ → Main Unit
ask_id p = do
  k ← load_cookie p
  let op = cookie_op select_id p
  add_query_to_queue
      (record op { params = record op.params { steam_id = clip max_name_length (some k.name) } })

unfoldable pub insert_cookie_callback : ℕ → ℤ → Main Unit
unfolding ask_id select_id_callback
insert_cookie_callback p id = if lt_ℤ (pos 0) id then select_id_callback p id else ask_id p
