-- ===== src/Lib.antt =====
-- clientprefs-redis is a SourceMod extension that keeps the preferences (cookies) of players in
-- Redis. A plugin makes cookies by name and reads and writes a text for each cookie and client. The
-- values of a client are fetched when the client is authorized, live in memory while it plays, and
-- the changed ones are saved when it leaves.
--
-- The parts and their files:
--   Base, Text  numbers, lists, state passing with faults; texts as lists of bytes, UTIL_strncpy of
--         extension.cpp (Text/Strncpy), std::to_string and std::stoi (Text/Decimal).
--   Sdk   what SourceMod gives: players, the table NameHashSet of cookies with what is relied on
--         of it, the size of the player arrays. It is a parameter of every definition that uses it.
--   State the structures of cookie.h and query.h, and `World`: the heap of cookies and values, the
--         fields of g_CookieManager and g_ClientPrefs, the queues of queries.
--   CookieManager  FindCookie, CreateCookie, GetCookieValue, SetCookieValue, GetCookieTime and the
--         callbacks that set an id (cookie.cpp).
--   Clients     OnClientAuthorized (cookie.cpp), AttemptReconnection and CatchLateLoadClients
--         (extension.cpp), which call one another.
--   Disconnect  OnClientDisconnecting (cookie.cpp), ClearQueryCache (extension.cpp).
--   Connect     ClientConnectCallback (cookie.cpp).
--   Query the queries of query.cpp: BindParamsAndRun and RunThreadPart, with the Redis server and
--         std::hash as parameters; the script of query.h (Query/Script).
--   Redis the class reply (reply.cpp); formatCommand, the client, and its worker with the batches
--         that it sends (client.cpp).
--   Natives     the natives on cookies, values and iterators (natives.cpp), and the one that reads a cookie's
--         handle for a menu (Natives/Prefab).
--   Menus the settings menu, the items of plugins and their removal (menus.cpp, natives.cpp,
--         OnPluginDestroyed of cookie.cpp); what the menu holds as a list of entries
--         (Menus/Entries, Steps), over time (Menus/Reach).
--   Extension   the configuration and the connection (SDK_OnLoad of extension.cpp), a turn of a query
--         thread, RunFrame with RunThinkPart (query.cpp), Unload (cookie.cpp), the clients
--         that a thread makes and deletes (Extension/Worker), the count of the threads that end
--         (Extension/Stop), what SourceMod is asked for from SDK_OnLoad to
--         SDK_OnDependenciesDropped (Extension/Lifecycle), Translate with ShowSettingsMenu
--         (Extension/Translate).
--   Ownership   who owns each value of the heap: nobody, a query, or a client; what every operation above
--         keeps of it (the children are named for the operations).
--   System      calls of the main thread, the turns of the query threads and the frames as
--         steps (SDK_OnLoad of extension.cpp), what holds in every world that they reach
--         (System/Safety), a queue that is worked off (System/Drain), values as a table of clients and
--         cookies (System/Table, Refines, Requests), and unloading (System/Destructor, Unload,
--         Lifecycle).
--   Tests a table and a server to evaluate on, and the theorems at concrete inputs.
--
-- The manager hands a query to the queue of the threads; a thread runs it against Redis, and the
-- main thread then calls the callback of its type, which is one of ClientConnectCallback,
-- InsertCookieCallback and SelectIdCallback. A main-thread operation is a function from `World` to
-- an optional result and `World`, where `none` is undefined behaviour: a null or dangling pointer
-- or an index past an array. An address is a number, and a freed address is never handed out again.
-- A run of a query may also end in an exception.
--
-- A step of System is a whole call of the main thread, or a thread that takes a query, or a thread
-- that has run its query and puts it behind the results; any number of threads may hold a query,
-- and each run of a query reads the heap as one. The arrays have places for the clients of the
-- server, and a handle of a cookie that a plugin uses leads to a cookie. Unload is not among the steps, since nothing runs after it; it is run in each world that
-- is reached, and SDK_OnDependenciesDropped runs it when the queue of the threads is deleted
-- already. Nor are the natives of the menu among the steps: the menu has a state of its own, and its
-- steps are those of Menus/Reach.
--
-- OnClientAuthorized calls itself through AttemptReconnection. Its model bounds the depth of that
-- recursion by the number of clients plus 2: each inner call takes a client that is not pending
-- yet. The loop in which a thread connects has as many rounds as there are attempts until one
-- succeeds; what connectDb does behind that loop is Extension/Config, and whether it and a run of a query
-- return to the thread are parameters of Extension/Worker. The printing of a number has one digit of fuel more than the number.
--
-- A plugin's loop over an iterator has one call more than there are cookies.
--
-- Not modelled: the interleaving of the threads with the main thread within a turn, logging, and the
-- phrases of translations. The libraries hiredis and moodycamel, of which the repository holds copies,
-- and SourceMod are parameters by what they return. A fault of the network appears as a reply that is
-- missing.
pub mod Base
pub mod Text
pub mod Sdk
pub mod State
pub mod CookieManager
pub mod Clients
pub mod Disconnect
pub mod Connect
pub mod Redis
pub mod Query
pub mod Natives
pub mod Extension
pub mod Menus
pub mod Ownership
pub mod System
pub mod Tests
