-- ===== src/Auth/Kept/Filters.antt =====
-- The rows that the cleanup keeps, as filters, and that its deletions take nothing else.
use order_hub.Base.{
  ◌+◌, ◌*◌, Uuid, Time, ◌≡◌, refl, Bool, true, false, not, ◌&&◌, List, [], ◌∷◌, arith, ltb, leb,
}
use order_hub.Base.Rows.{delete_where, select_where, any_where}
use order_hub.Auth.Models.{RefreshToken, UserSession, Code, Db, day}
use order_hub.Auth.Repo.Refresh.{with_tokens, live_in}
use order_hub.Auth.Repo.Sessions.{with_sessions}
use order_hub.Auth.Repo.Codes.{CodeTable, codes, with_codes}
use order_hub.Auth.Cleanup.{token_expired, code_expired, code_used, orphaned, old_session}

-- The rows that stay.
abbrev keep_token : Time → RefreshToken → Bool
keep_token now t = leb now t.expires_at

abbrev pub keep_code : Time → Code → Bool
keep_code now c = leb now c.expires_at && not (c.consumed && ltb (c.created_at + day) now)

abbrev pub keep_session : Time → List RefreshToken → UserSession → Bool
keep_session now tokens s =
    any_where (live_in s.id now) tokens && leb now (s.last_seen_at + 30 * day)

abbrev pub cleaned : Time → Db → Db
cleaned now d = record d {
  refresh_tokens = select_where (keep_token now) d.refresh_tokens;
  email_verifications = select_where (keep_code now) d.email_verifications;
  password_resets = select_where (keep_code now) d.password_resets;
  sessions = select_where (keep_session now d.refresh_tokens) d.sessions;
}

pub tokens_once :
    (now : Time) (rows : List RefreshToken)
    → delete_where (token_expired now) rows ≡ select_where (keep_token now) rows
unfolding delete_where select_where
tokens_once now [] = refl
tokens_once now (t ∷ rows) = ground (arith, tokens_once now rows)

pub codes_once :
    (now : Time) (rows : List Code)
    → delete_where (code_used now) (delete_where (code_expired now) rows)
      ≡ select_where (keep_code now) rows
unfolding delete_where select_where
codes_once now [] = refl
codes_once now (c ∷ rows) = ground (arith, codes_once now rows)

-- A token that has expired is not live, so deleting it orphans no session.
live_stays :
    (id : Uuid) (now : Time) (rows : List RefreshToken)
    → any_where (live_in id now) (delete_where (token_expired now) rows)
      ≡ any_where (live_in id now) rows
unfolding any_where delete_where
live_stays id now [] = refl
live_stays id now (t ∷ rows) = ground (arith, live_stays id now rows)

pub sessions_once :
    (now : Time) (tokens : List RefreshToken) (rows : List UserSession)
    → delete_where
        (old_session now)
        (delete_where (orphaned now (delete_where (token_expired now) tokens)) rows)
      ≡ select_where (keep_session now tokens) rows
unfolding delete_where select_where
sessions_once now tokens [] = refl
sessions_once now tokens (s ∷ rows) =
    ground (arith, live_stays s.id now tokens, sessions_once now tokens rows)

select_code :
    (now : Time) (f : Code → Bool) (rows : List Code)
    → ((c : Code) → f c ≡ true → keep_code now c ≡ false)
    → select_where (keep_code now) (delete_where f rows) ≡ select_where (keep_code now) rows
unfolding delete_where select_where
select_code now f [] h = refl
select_code now f (c ∷ rows) h = ground (arith, h c, select_code now f rows h)

select_token :
    (now : Time) (rows : List RefreshToken)
    → select_where (keep_token now) (delete_where (token_expired now) rows)
      ≡ select_where (keep_token now) rows
unfolding delete_where select_where
select_token now [] = refl
select_token now (t ∷ rows) = ground (arith, select_token now rows)

select_session :
    (now : Time) (tokens : List RefreshToken) (f : UserSession → Bool) (rows : List UserSession)
    → ((s : UserSession) → f s ≡ true → keep_session now tokens s ≡ false)
    → select_where (keep_session now tokens) (delete_where f rows)
      ≡ select_where (keep_session now tokens) rows
unfolding delete_where select_where
select_session now tokens f [] h = refl
select_session now tokens f (s ∷ rows) h = ground (arith, h s, select_session now tokens f rows h)

sessions_stay :
    (now : Time) (tokens : List RefreshToken) (rows : List UserSession)
    → select_where (keep_session now (delete_where (token_expired now) tokens)) rows
      ≡ select_where (keep_session now tokens) rows
unfolding select_where
sessions_stay now tokens [] = refl
sessions_stay now tokens (s ∷ rows) =
    ground (arith, live_stays s.id now tokens, sessions_stay now tokens rows)

-- the tables after each statement
abbrev pub less_tokens : Time → Db → Db
less_tokens now d = with_tokens (delete_where (token_expired now) d.refresh_tokens) d

abbrev pub less_codes : CodeTable → (Code → Bool) → Db → Db
less_codes table f d = with_codes table (delete_where f (codes table d)) d

abbrev pub less_sessions : (List RefreshToken → UserSession → Bool) → Db → Db
less_sessions f d = with_sessions (delete_where (f d.refresh_tokens) d.sessions) d

pub cleaned-tokens : (now : Time) (d : Db) → cleaned now (less_tokens now d) ≡ cleaned now d
cleaned-tokens now d =
    rw (select_token now d.refresh_tokens, sessions_stay now d.refresh_tokens d.sessions) refl

pub cleaned-codes :
    (now : Time) (table : CodeTable) (f : Code → Bool) (d : Db)
    → ((c : Code) → f c ≡ true → keep_code now c ≡ false)
    → cleaned now (less_codes table f d) ≡ cleaned now d
cleaned-codes now CodeTable.email_verifications f d h =
    rw (select_code now f d.email_verifications h) refl
cleaned-codes now CodeTable.password_resets f d h = rw (select_code now f d.password_resets h) refl

pub cleaned-sessions :
    (now : Time) (f : List RefreshToken → UserSession → Bool) (d : Db)
    → ((s : UserSession)
        → f d.refresh_tokens s ≡ true
        → keep_session now d.refresh_tokens s ≡ false)
    → cleaned now (less_sessions f d) ≡ cleaned now d
cleaned-sessions now f d h =
    rw (select_session now d.refresh_tokens (f d.refresh_tokens) d.sessions h) refl
