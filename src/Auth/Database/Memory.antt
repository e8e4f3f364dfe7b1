-- ===== src/Auth/Database/Memory.antt =====
-- A database in memory, which shows that the laws on databases can hold together.
pub mod Table
pub mod Hashes
pub mod Lookup
pub mod Clashes
pub mod Laws
use encrypt_chat_app.Base.{
  Bool, Dict, Option, Text, [], false, if◌then◌else◌, insert, lookup, none, some, text_eq, true,
  ◌||◌, ◌∷◌,
}
use encrypt_chat_app.Auth.Models.{conflicts, User, AuthSession}
use encrypt_chat_app.Auth.Database.{
  Database, Rows, no_row, one_row, several_rows, map_if, unless_of, stored,
}
use encrypt_chat_app.Auth.Database.Memory.Table.{Keyed, find, write, remove, change}

-- The names map to the ids of the accounts.
pub record Memory : Type 0 where
  pub users : Keyed User
  pub names : Dict Text
  pub sessions : Keyed AuthSession

abbrev pub user_id : User → Text
user_id u = u.id

abbrev pub session_id : AuthSession → Text
session_id a = a.id

abbrev pub find_user : Memory → Text → Option User
find_user s i = find user_id s.users i

abbrev pub find_session : Memory → Text → Option AuthSession
find_session s i = find session_id s.sessions i

abbrev pub named : Text → Option User → Option User
named n none = none
named n (some u) = if text_eq u.username_normalized n then some u else none

abbrev pub user_of : Memory → Option Text → Option User
user_of s none = none
user_of s (some i) = find_user s i

abbrev pub find_name : Memory → Text → Option User
find_name s n = named n (user_of s (lookup n s.names))

-- One more row that is found.
abbrev pub found : Rows AuthSession → AuthSession → Rows AuthSession
found no_row a = one_row a
found (one_row b) a = if text_eq b.id a.id then one_row b else several_rows
found several_rows a = several_rows

abbrev pub found_if : Text → Rows AuthSession → Option AuthSession → Rows AuthSession
found_if h rows none = rows
found_if h rows (some a) = if text_eq a.refresh_token_hash h then found rows a else rows

-- The rows with a hash under the given keys.
unfoldable pub with_hash : (Text → Option AuthSession) → Text → Keyed AuthSession → Rows AuthSession
with_hash read h [] = no_row
with_hash read h ((k, o) ∷ t) = found_if h (with_hash read h t) (read k)

abbrev pub clashes : User → Option User → Bool
clashes u none = false
clashes u (some v) = conflicts u v

-- A row under the given keys that `u` clashes with.
unfoldable pub any_clash : (Text → Option User) → User → Keyed User → Bool
any_clash read u [] = false
any_clash read u ((k, o) ∷ t) = clashes u (read k) || any_clash read u t

abbrev pub create_user : Memory → User → Bool → Option Memory
create_user s u true = none
create_user s u false = some (record s {
  users = write user_id u s.users;
  names = insert u.username_normalized u.id s.names;
})

abbrev pub create_session :
    Bool → Memory → AuthSession → Option AuthSession → Option User → Option Memory
create_session k s a none (some u) =
    some (record s { sessions = write session_id (stored k a) s.sessions })
create_session k s a _ _ = none

-- With a driver that keeps the time zones or drops them.
abbrev pub memory_with : Bool → Database
memory_with keeps_timezone = record {
  State = Memory;
  keeps_timezone = keeps_timezone;
  user_by_id = find_user;
  user_by_normalized = find_name;
  session_by_id = find_session;
  sessions_by_hash = λ s h. with_hash (find_session s) h s.sessions;
  insert_user = λ s u. create_user s u (any_clash (find_user s) u s.users);
  insert_session =
      λ s a. create_session keeps_timezone s a (find_session s a.id) (find_user s a.user_id);
  flush_user = λ s u. record s { users = write user_id u s.users };
  flush_session =
      λ s a. record s { sessions = write session_id (stored keeps_timezone a) s.sessions };
  update_sessions = λ s p f. (record s { sessions = change (map_if p f) s.sessions }, 0);
  delete_user = λ s u. record s {
    users = remove u.id s.users;
    sessions = change (unless_of u.id) s.sessions;
  };
}

abbrev pub memory : Database
memory = memory_with true
