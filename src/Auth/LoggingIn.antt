-- ===== src/Auth/LoggingIn.antt =====
-- `Login`.
use mathlib.Core.Path.{subst}
use order_hub.Base.{
  Uuid, Time, String, ◌≡◌, refl, sym, ap, ◌∙◌, ◌⊎◌, inl, inr, true, false, Option, none, some, ◌∷◌,
  arith, Bool-cases,
}
use order_hub.Base.Rows.{find_where}
use order_hub.Base.Store.{
  World, ok, service, Error, ok_injective, pure, fail, catch, clock_now, ◌>>=◌, ◌>>◌,
}
use order_hub.Base.Post.{Post, Post-bind, Post-map, Post-exec_pool}
use order_hub.Auth.Models.{User, UserSession, Db, AuthError, not_found, Run, Outside}
use order_hub.Auth.Repo.Users
use order_hub.Auth.Repo.Users.{has_email}
use order_hub.Auth.Repo.Refresh
use order_hub.Auth.Repo.Sessions
use order_hub.Auth.Service.Types.{AuthService, ClientMeta, TokenPair, Access, NewToken}
use order_hub.Auth.Service.Helpers.{role_name}
use order_hub.Auth.Service.Accounts.{new_session, new_token, token_pair, checked_user, login}
use order_hub.Auth.Book.{Book, book, At, Reads, catch-Reads, forget_seen}
use order_hub.Auth.Book.Statements.{Still, add_token, create-At}
use order_hub.Auth.Provider.{IsProvider}
use order_hub.Auth.Rotation.{issued_token}

abbrev pub add_session : UserSession → Book → Book
add_session r s = record s { sessions = forget_seen r ∷ s.sessions }

-- the row of the session that the client of `meta` has with the user
abbrev pub opened_session : Uuid → Uuid → ClientMeta → Time → UserSession
opened_session id user meta now = record {
  id = id;
  user_id = user;
  client_id = elim meta.client_id [ none ↦ "" | some s ↦ s ];
  ip = meta.ip;
  user_agent = meta.user_agent;
  created_at = now;
  last_seen_at = now;
  revoked = false;
}

session_ok :
    (ext : Outside) (r r' : UserSession) (d d' : Db)
    → Sessions.create_row ext r d ≡ ok (r', d')
    → (r' ≡ record r { id = d.next_id })
      × (book d' ≡ add_session (record r { id = d.next_id }) (book d))
unfolding Sessions.create_row
session_ok ext r r' d d' e =
    let row : d' ≡ Sessions.inserted ext r d = ground arith in (ground arith, rw row refl)

-- What a call of `Login` that returns has done: the password fits the user with that email; the accounts
-- have one session more and one refresh token more, both of that user and tied to each other.
pub record LoggedIn (ext : Outside) (email password : String) (meta : ClientMeta) (now : Time)
    (d : Db) (answer : Uuid × String × TokenPair) (d' : Db) : Type 0 where
  pub user : User
  pub session_id : Uuid
  pub token_id : Uuid
  pub found : find_where (has_email ext email) d.users ≡ some user
  pub fits : ext.compare_password user.password password ≡ true
  pub identity : (answer.0 ≡ user.id) × (answer.1 ≡ role_name user.role)
  pub after :
      book d'
      ≡ add_token
          (issued_token token_id user.id (some session_id) meta answer.2 now)
          (add_session (opened_session session_id user.id meta now) (book d))

abbrev Answer : Type 0
Answer = Uuid × String × TokenPair

module _ (ext : Outside) (svc : AuthService) (lawful : IsProvider svc.tokens)
    (email password : String) (meta : ClientMeta) where
  open lawful use {sign_access_keeps, new_refresh_keeps}

  -- nothing is changed, or a session is there without a token
  abbrev pub KeptOrBare : Time → Db → {A : Type 0} → A → World Db → Type 0
  KeptOrBare now d _ v =
      (book v.db ≡ book d)
      ⊎ ((user : User) × (find_where (has_email ext email) d.users ≡ some user)
          × (ext.compare_password user.password password ≡ true)
          × ((id : Uuid) × (book v.db ≡ add_session (opened_session id user.id meta now) (book d))))

  abbrev store_token : User → Access → NewToken → Time → UserSession → Run Answer
  store_token u access fresh now session =
      Refresh.create ext (new_token u.id (some session.id) meta fresh now)
      >> pure (u.id, role_name u.role, token_pair access fresh)

  abbrev open_session_at : User → Access → NewToken → Time → Run Answer
  open_session_at u access fresh now =
      Sessions.create ext (new_session u.id meta now) >>= store_token u access fresh now

  abbrev sign_in : User → Run Answer
  sign_in u = svc.tokens.sign_access u.id (role_name u.role) svc.access_ttl >>= λ access.
      svc.tokens.new_refresh u.id svc.refresh_ttl >>= λ fresh.
      clock_now >>= open_session_at u access fresh

  module _ (d : Db) (now : Time) where
    abbrev In : Answer → World Db → Type 0
    In a v = LoggedIn ext email password meta now d a v.db

    abbrev Out : {A : Type 0} → A → World Db → Type 0
    Out = KeptOrBare now d

    module _ (u : User) (e : find_where (has_email ext email) d.users ≡ some u)
        (fit : ext.compare_password u.password password ≡ true) where
      open_session_at-In :
          (access : Access) (fresh : NewToken) (w : World Db)
          → At (book d) now w
          → Post In Out (open_session_at u access fresh now w)
      unfolding Sessions.create
      open_session_at-In access fresh w here =
          let row : Uuid → UserSession = λ id. opened_session id u.id meta now in
          let s : Uuid → Book = λ id. add_session (row id) (book d) in
          Post-bind (λ r v. (id : Uuid) × (r ≡ row id) × At (s id) now v) In Out
            (Sessions.create ext (new_session u.id meta now)) (store_token u access fresh now) w
            (Post-exec_pool _ Out (Sessions.create_row ext (new_session u.id meta now)) w
              (λ r t gs eff.
                let (same, more) = session_ok ext (new_session u.id meta now) r w.db t eff in
                (
                  w.db.next_id,
                  same,
                  record {
                    reads = more ∙ ap (add_session (row w.db.next_id)) here.reads;
                    clock = here.clock;
                  },
                ))
              (λ _ _. inl here.reads))
            (λ r w1 (id, same, h1).
              subst (λ x. Post In Out (store_token u access fresh now x w1)) (sym same)
                (Post-bind
                  (λ _ v.
                    (k : Uuid) × At
                      (add_token (issued_token k u.id (some id) meta (token_pair access fresh) now)
                        (s id))
                      now v)
                  In Out (Refresh.create ext (new_token u.id (some id) meta fresh now))
                  (λ _. pure (u.id, role_name u.role, token_pair access fresh)) w1
                  (create-At (s id) now ext Out (new_token u.id (some id) meta fresh now) w1
                    (λ _ _ k. inr (u, e, fit, (id, k.reads))) h1)
                  (λ _ w2 (k, h2). record {
                    user = u;
                    session_id = id;
                    token_id = k;
                    found = e;
                    fits = fit;
                    identity = (refl, refl);
                    after = h2.reads;
                  })))

      sign_in-In : (w : World Db) → At (book d) now w → Post In Out (sign_in u w)
      sign_in-In w here =
          let s : Book = book d in
          let kept : (x : Error AuthError) (v : World Db) → At s now v → Out x v =
            λ _ _ k. inl k.reads in
          Post-bind (Still s now) In Out
            (svc.tokens.sign_access u.id (role_name u.role) svc.access_ttl)
            (λ access. svc.tokens.new_refresh u.id svc.refresh_ttl >>= λ fresh.
              clock_now >>= open_session_at u access fresh)
            w
            (Post-map (Still s now) (Still s now) (Still s now) Out
              (svc.tokens.sign_access u.id (role_name u.role) svc.access_ttl w)
              (sign_access_keeps s now u.id (role_name u.role) svc.access_ttl w here) (λ _ _ k. k)
              kept)
            (λ access w1 h1.
              Post-bind (Still s now) In Out (svc.tokens.new_refresh u.id svc.refresh_ttl)
                (λ fresh. clock_now >>= open_session_at u access fresh) w1
                (Post-map (Still s now) (Still s now) (Still s now) Out
                  (svc.tokens.new_refresh u.id svc.refresh_ttl w1)
                  (new_refresh_keeps s now u.id svc.refresh_ttl w1 h1) (λ _ _ k. k) kept)
                (λ fresh w2 h2.
                  subst (λ t. Post In Out (open_session_at u access fresh t w2)) (sym h2.clock)
                    (open_session_at-In access fresh w2 h2)))

    checked-In :
        (o : Option User) (w : World Db)
        → find_where (has_email ext email) d.users ≡ o
        → At (book d) now w
        → Post In Out ((checked_user ext password o >>= sign_in) w)
    checked-In none w e here = inl here.reads
    checked-In (some u) w e here = elim (Bool-cases (ext.compare_password u.password password)) [
      | inl fit ↦ rw fit (sign_in-In u e fit w here)
      | inr differ ↦ rw differ (inl here.reads)
    ]

  -- Whatever statements fail. Where `Login` returns, there is a user with the email, the password fits the hash
  -- that is stored for that user, and the identifier and the role are that user's; the accounts have one
  -- session more and one refresh token more, of that user and tied to each other, the token with the
  -- hash and the expiry of the pair that is returned, and nothing else is changed. Where it fails, the
  -- accounts are as they were, or they have the session of a user whose password fits, without a
  -- token. The token provider is to leave the tables alone.
  pub login-LoggedIn :
      (w : World Db)
      → Post
          (λ a v. LoggedIn ext email password meta w.clock w.db a v.db)
          (λ e v. KeptOrBare w.clock w.db e v)
          (login ext svc email password meta w)
  unfolding login Users.get_by_email
  login-LoggedIn w =
      let d : Db = w.db in
      let now : Time = w.clock in
      let Q : Answer → World Db → Type 0 = In d now in
      let X : Error AuthError → World Db → Type 0 = λ e v. KeptOrBare now d e v in
      Post-bind (λ o v. (ok (find_where (has_email ext email) d.users) ≡ ok o) × Reads d now v) Q X
        (catch (Users.get_by_email ext email) (λ _. fail (service not_found)))
        (λ found. checked_user ext password found >>= sign_in) w
        (catch-Reads d now X (λ t. ok (find_where (has_email ext email) t.users)) not_found w
          (λ _ _ k. inl (ap book k.0)) (refl, refl))
        (λ o w1 (e, r).
          checked-In d now o w1 (ok_injective e) (record { reads = ap book r.0; clock = r.1 }))
