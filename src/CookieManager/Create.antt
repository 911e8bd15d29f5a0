-- ===== src/CookieManager/Create.antt =====
-- CreateCookie and FindCookie: a cookie is made once for each name, unless its name is too long.
use clientprefs_redis.Base.{
  ℕ, suc, ◌<◌, ◌≤◌, ◌≡◌, refl, ap, ◌≢◌, ◌++◌, ◌∷◌, [], none, some, arith, length, length-append,
  ◌+◌, List, length-take, take-all, ℤ, ◌∙◌,
}
use clientprefs_redis.Base.Fault.{update}
use clientprefs_redis.Text.{Text, clip}
use clientprefs_redis.Sdk.{Sdk, Entry}
use clientprefs_redis.State.{
  Cookie, CookieAccess, World, new_cookie, max_name_length, max_desc_length, insert_cookie,
  cookie_op,
}
use clientprefs_redis.CookieManager.{create_cookie}

module _ ⦃sdk : Sdk⦄ where
  -- The world that CreateCookie leaves when it makes the cookie `k`.
  abbrev pub with_cookie : World → Text → Cookie → World
  with_cookie w name k = record w {
    cookies = update w.cookies w.next (some k);
    next = suc w.next;
    finder = record { key = name; name = k.name; cookie = w.next } ∷ w.finder;
    cookie_list = w.cookie_list ++ w.next ∷ [];
    query_queue =
        w.query_queue
        ++ record (cookie_op insert_cookie w.next) {
          params = record {
            cookie = some w.next;
            steam_id = [];
            cookie_id = ℤ.pos 0;
            datum = none;
          };
        }
          ∷ [];
  }

  pub create_cookie_fresh :
      (w : World) (name description : Text) (access : CookieAccess)
      → sdk.retrieve w.finder name ≡ none
      → create_cookie name description access w
        ≡ some (w.next, with_cookie w name (new_cookie (some name) (some description) access))
  unfolding create_cookie
  create_cookie_fresh w name description access h = ground (arith, h)

  pub clip_short :
      (name : Text) → length name < max_name_length → clip max_name_length (some name) ≡ name
  unfolding clip
  clip_short name h = take-all 29 name (omega arith)

  clip_long :
      (name : Text) → max_name_length ≤ length name → name ≢ clip max_name_length (some name)
  unfolding clip
  clip_long name h e = absurd (omega (arith, ap length e, length-take 29 name))

  retrieve-fresh :
      (es : List Entry) (name description : Text) (access : CookieAccess) (p : ℕ)
      → length name < max_name_length
      → sdk.retrieve es name ≡ none
      → sdk.retrieve
          (record {
            key = name;
            name = (new_cookie (some name) (some description) access).name;
            cookie = p;
          }
            ∷ es)
          name
        ≡ some p
  unfolding new_cookie
  retrieve-fresh es name description access p short h =
      rw (clip_short name short) (sdk.retrieve-cons_self es name p h)

  -- A name of less than 30 bytes that is not in use: CreateCookie makes a cookie of this name, a new
  -- object, and queues one query for its id. A second CreateCookie of the name gives the same cookie
  -- with the second description, cut to 254 bytes, and the second access, keeps its name and id, and
  -- neither queues a query nor lists a cookie.
  pub create_cookie_twice :
      (w : World) (name description description' : Text) (access access' : CookieAccess)
      → length name < max_name_length
      → sdk.retrieve w.finder name ≡ none
      → (w1 w2 : World) × (create_cookie name description access w ≡ some (w.next, w1))
        × (create_cookie name description' access' w1 ≡ some (w.next, w2))
        × (w2.cookies w.next
            ≡ some (record {
              name = name;
              description = clip max_desc_length (some description');
              dbid = ℤ.negsuc 0;
              data_at = λ _. none;
              access = access';
            }))
        × (w2.query_queue
            ≡ w.query_queue
              ++ record (cookie_op insert_cookie w.next) {
                params = record {
                  cookie = some w.next;
                  steam_id = [];
                  cookie_id = ℤ.pos 0;
                  datum = none;
                };
              }
                ∷ [])
        × (w2.cookie_list ≡ w.cookie_list ++ w.next ∷ [])
  unfolding create_cookie
  create_cookie_twice w name description description' access access' short h =
      let k : Cookie = new_cookie (some name) (some description) access in
      let w1 : World = with_cookie w name k in
      let k' : Cookie = record k {
        description = clip max_desc_length (some description');
        access = access';
      } in
      (
        w1,
        record w1 { cookies = update w1.cookies w.next (some k') },
        create_cookie_fresh w name description access h,
        ground (arith, retrieve-fresh w.finder name description access w.next short h),
        ground (arith, clip_short name short),
        refl,
        refl,
      )

  -- A name of 30 bytes or more is stored cut, so that the name that was asked for is not found again:
  -- a second CreateCookie of it makes a second cookie, with a second query and a second list entry.
  pub create_cookie_long :
      (w : World) (name description : Text) (access : CookieAccess)
      → max_name_length ≤ length name
      → sdk.retrieve w.finder name ≡ none
      → (w1 w2 : World) × (create_cookie name description access w ≡ some (w.next, w1))
        × (create_cookie name description access w1 ≡ some (suc w.next, w2))
        × (w2.cookie_list ≡ (w.cookie_list ++ w.next ∷ []) ++ suc w.next ∷ [])
        × (length w2.query_queue ≡ length w.query_queue + 2)
  unfolding create_cookie new_cookie
  create_cookie_long w name description access long h =
      let k : Cookie = new_cookie (some name) (some description) access in
      let w1 : World = with_cookie w name k in
      let lost : sdk.retrieve w1.finder name ≡ none =
        sdk.retrieve-cons_ne _ w.finder name (clip_long name long) ∙ h in
      (
        w1,
        with_cookie w1 name k,
        create_cookie_fresh w name description access h,
        create_cookie_fresh w1 name description access lost,
        refl,
        omega (arith, length-append w.query_queue _, length-append w1.query_queue _),
      )
