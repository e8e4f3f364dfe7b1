-- ===== src/Auth/Database/Memory/Lookup.antt =====
-- The sessions that the database in memory finds by their hash.
use encrypt_chat_app.Base.{Option, Text, ap, lookup, none, refl, some, subst, sym, ◌∙◌, ◌≡◌, ◌≢◌}
use encrypt_chat_app.Auth.Models.{AuthSession}
use encrypt_chat_app.Auth.Database.{Rows, no_row, one_row, several_rows}
use encrypt_chat_app.Auth.Database.Memory.{Memory, session_id, find_session, with_hash}
use encrypt_chat_app.Auth.Database.Memory.Table.{row, checked, find-key}
use encrypt_chat_app.Auth.Database.Memory.Hashes.{AllHits, Summary, with_hash-Summary, AllHits-of}

abbrev reader : Memory → Text → Option AuthSession
reader s = find_session s

pub session-key : (s : Memory) (i : Text) (a : AuthSession) → find_session s i ≡ some a → a.id ≡ i
session-key s i a h = find-key session_id s.sessions i a h

-- A session that is found stands under a key of the table.
session-lookup :
    (s : Memory) (i : Text) (a : AuthSession)
    → find_session s i ≡ some a
    → (o : Option AuthSession) × (lookup i s.sessions ≡ some o)
session-lookup s i a h = go (lookup i s.sessions) refl h
  where
    go :
        (r : Option (Option AuthSession))
        → lookup i s.sessions ≡ r
        → checked session_id i (row r) ≡ some a
        → (o : Option AuthSession) × (lookup i s.sessions ≡ some o)
    go none e k = cc
    go (some o) e k = (o, e)

-- What holds for all hits holds for every session with the hash.
every :
    (s : Memory) (h : Text) (P : AuthSession → Type 0)
    → AllHits (reader s) (session-key s) h s.sessions P
    → (i : Text) (b : AuthSession) → find_session s i ≡ some b
    → b.refresh_token_hash ≡ h
    → P b
every s h P all i b e same =
    let (o, found) = session-lookup s i b e in
    AllHits-of (reader s) (session-key s) h s.sessions P i b o found all e same

summary :
    (s : Memory) (h : Text)
    → Summary (reader s) (session-key s) h s.sessions (with_hash (reader s) h s.sessions)
summary s h = with_hash-Summary (reader s) (session-key s) h s.sessions

pub hash_one :
    (s : Memory) (h i : Text) (a : AuthSession)
    → find_session s i ≡ some a
    → a.refresh_token_hash ≡ h
    → ((k : Text) (b : AuthSession) → find_session s k ≡ some b → b.refresh_token_hash ≡ h → b ≡ a)
    → with_hash (reader s) h s.sessions ≡ one_row a
hash_one s h i a e same only = go (with_hash (reader s) h s.sessions) (summary s h)
  where
    go : (r : Rows AuthSession) → Summary (reader s) (session-key s) h s.sessions r → r ≡ one_row a
    go no_row all = absurd (every s h (λ b. ⊥) all i a e same)
    go (one_row b) (hit, all) = ap one_row (sym (every s h (λ x. x ≡ b) all i a e same))
    go several_rows (b, d, f, g, differ) =
        absurd (
          differ (ap (λ (x : AuthSession). x.id) (only b.id b f.0 f.1 ∙ sym (only d.id d g.0 g.1))))

pub hash_none :
    (s : Memory) (h : Text)
    → ((i : Text) (a : AuthSession) → find_session s i ≡ some a → a.refresh_token_hash ≢ h)
    → with_hash (reader s) h s.sessions ≡ no_row
hash_none s h absent = go (with_hash (reader s) h s.sessions) (summary s h)
  where
    go : (r : Rows AuthSession) → Summary (reader s) (session-key s) h s.sessions r → r ≡ no_row
    go no_row all = refl
    go (one_row b) (hit, all) = absurd (absent b.id b hit.0 hit.1)
    go several_rows (b, d, f, g, differ) = absurd (absent b.id b f.0 f.1)

pub hash_row :
    (s : Memory) (h : Text) (a : AuthSession)
    → with_hash (reader s) h s.sessions ≡ one_row a
    → (find_session s a.id ≡ some a)
      × (a.refresh_token_hash ≡ h)
      × ((i : Text) (b : AuthSession)
          → find_session s i ≡ some b
          → b.refresh_token_hash ≡ h
          → b ≡ a)
hash_row s h a e =
    let (hit, all) = subst (Summary (reader s) (session-key s) h s.sessions) e (summary s h) in
    (hit.0, hit.1, every s h (λ x. x ≡ a) all)
