-- ===== src/Auth/Rotation.antt =====
-- `Refresh`: one token is spent, one is issued.
use order_hub.Base.{
  Uuid, Time, String, ◌≡◌, refl, ap, ◌∙◌, ◌⊎◌, inl, inr, Bool, true, false, Option, none, some, ltb,
}
use order_hub.Base.Rows.{count_where, find_where, first_by}
use order_hub.Base.Store.{ok_injective, World, ok, Error, ignore, pure, guard, ◌>>=◌, ◌>>◌}
use order_hub.Base.Post.{Post, Post-bind, Post-map, Post-guard_then}
use order_hub.Auth.Models.{User, RefreshToken, Db, AuthError, token_expired, Run, Outside}
use order_hub.Auth.Repo.Users
use order_hub.Auth.Repo.Users.{has_id}
use order_hub.Auth.Repo.Refresh
use order_hub.Auth.Repo.Refresh.{unrevoked, live, id_order, found_token}
use order_hub.Auth.Service.Types.{AuthService, ClientMeta, TokenPair, Access, NewToken}
use order_hub.Auth.Service.Helpers.{found_user, role_name}
use order_hub.Auth.Service.Accounts.{new_token, token_pair}
use order_hub.Auth.Service.Tokens.{touch_session, issue_pair, rotate_token, refresh}
use order_hub.Auth.Book.{Book, book, At, Reads, query-Reads}
use order_hub.Auth.Book.Statements.{
  revoke_tokens, add_token, Still, touch-At, seen-At, Spent, revoke-At, create-At,
}
use order_hub.Auth.Provider.{IsProvider}

-- the row of the refresh token that comes with the pair
abbrev pub issued_token : Uuid → Uuid → Option Uuid → ClientMeta → TokenPair → Time → RefreshToken
issued_token id user session meta pair now = record {
  id = id;
  user_id = user;
  session_id = session;
  token_hash = pair.refresh_hash;
  client_id = meta.client_id;
  ip = meta.ip;
  user_agent = meta.user_agent;
  expires_at = pair.refresh_expires_at;
  revoked = false;
  created_at = now;
  last_used_at = none;
}

abbrev pub Issued : Book → Time → Uuid → Option Uuid → ClientMeta → TokenPair → World Db → Type 0
Issued s now user session meta pair v =
    (id : Uuid) × At (add_token (issued_token id user session meta pair now) s) now v

abbrev pub spend : String → Book → Book
spend h s = revoke_tokens (unrevoked h) s

module _ (ext : Outside) (svc : AuthService) (lawful : IsProvider svc.tokens) where
  open lawful use {sign_access_keeps, new_refresh_keeps}

  module _ (s : Book) (now : Time) where
    touch_session-At :
        (X : Error AuthError → World Db → Type 0) (session : Option Uuid) (w : World Db)
        → At s now w
        → Post (Still s now) X (touch_session session now w)
    unfolding touch_session
    touch_session-At X none w here = here
    touch_session-At X (some id) w here = seen-At s now X id now w here

    pub issue_pair-Issued :
        (u : User) (session : Option Uuid) (meta : ClientMeta) (w : World Db)
        → At s now w
        → Post
            (Issued s now u.id session meta)
            (Still s now)
            (issue_pair ext svc u session meta now w)
    unfolding issue_pair
    issue_pair-Issued u session meta w here =
        let Q : TokenPair → World Db → Type 0 = Issued s now u.id session meta in
        let X : Error AuthError → World Db → Type 0 = Still s now in
        let store : Access → NewToken → Run TokenPair = λ access fresh.
          Refresh.create ext (new_token u.id session meta fresh now)
          >> pure (token_pair access fresh) in
        let after_fresh : Access → NewToken → Run TokenPair =
          λ access fresh. touch_session session now >> store access fresh in
        Post-bind (Still s now) Q X (svc.tokens.sign_access u.id (role_name u.role) svc.access_ttl)
          (λ access. svc.tokens.new_refresh u.id svc.refresh_ttl >>= after_fresh access) w
          (sign_access_keeps s now u.id (role_name u.role) svc.access_ttl w here)
          (λ access w1 h1.
            Post-bind (Still s now) Q X (svc.tokens.new_refresh u.id svc.refresh_ttl)
              (after_fresh access) w1 (new_refresh_keeps s now u.id svc.refresh_ttl w1 h1)
              (λ fresh w2 h2.
                Post-bind (Still s now) Q X (touch_session session now) (λ _. store access fresh) w2
                  (touch_session-At X session w2 h2)
                  (λ _ w3 h3.
                    Post-bind _ Q X (Refresh.create ext (new_token u.id session meta fresh now))
                      (λ _. pure (token_pair access fresh)) w3
                      (create-At s now ext X (new_token u.id session meta fresh now) w3 (λ _ _ k. k)
                        h3)
                      (λ _ w4 k. k))))

  -- nothing is changed, or the token is spent
  abbrev pub KeptOrSpent : {E : Type 0} → Book → Time → String → E → World Db → Type 0
  KeptOrSpent s now h _ v = At s now v ⊎ At (spend h s) now v

  rotate_token-Issued :
      (s : Book) (now : Time) (h : String) (u : User) (rt : RefreshToken) (meta : ClientMeta)
      (w : World Db)
      → At s now w
      → Post
          (Issued (spend h s) now u.id rt.session_id meta)
          (KeptOrSpent s now h)
          (rotate_token ext svc h u rt meta now w)
  unfolding rotate_token
  rotate_token-Issued s now h u rt meta w here =
      let Q : TokenPair → World Db → Type 0 = Issued (spend h s) now u.id rt.session_id meta in
      let X : Error AuthError → World Db → Type 0 = KeptOrSpent s now h in
      Post-bind (Still s now) Q X (ignore (Refresh.touch rt.user_id h now))
        (λ _. Refresh.revoke_by_hash_only h >> issue_pair ext svc u rt.session_id meta now) w
        (touch-At s now X rt.user_id h now w here)
        (λ _ w1 h1.
          Post-bind (Spent s now h) Q X (Refresh.revoke_by_hash_only h)
            (λ _. issue_pair ext svc u rt.session_id meta now) w1
            (revoke-At s now X h w1 (λ _ _ k. inl k) h1)
            (λ _ w2 k.
              Post-map Q Q (Still (spend h s) now) X
                (issue_pair ext svc u rt.session_id meta now w2)
                (issue_pair-Issued (spend h s) now u rt.session_id meta w2 k.1) (λ _ _ q. q)
                (λ _ _ q. inr q)))

-- What a call of `Refresh` that returns has done: the token was there, not revoked and not expired; now it
-- is revoked, and there is one row more, for the same user and the same session.
pub record Rotated (hash : String) (meta : ClientMeta) (now : Time) (d : Db) (pair : TokenPair)
    (d' : Db) : Type 0 where
  pub old : RefreshToken
  pub user : User
  pub id : Uuid
  pub was_live : ltb 0 (count_where (live hash now) d.refresh_tokens) ≡ true
  pub found : first_by id_order (unrevoked hash) d.refresh_tokens ≡ some old
  pub owner : find_where (has_id old.user_id) d.users ≡ some user
  pub after :
      book d'
      ≡ add_token (issued_token id user.id old.session_id meta pair now) (spend hash (book d))

pub found_token-some :
    (o : Option RefreshToken) (t : RefreshToken) → found_token o ≡ ok t → o ≡ some t
found_token-some none t e = cc
found_token-some (some x) t e = ap some (ok_injective e)

module _ (ext : Outside) (svc : AuthService) (lawful : IsProvider svc.tokens) where
  abbrev pub after_user : String → ClientMeta → Time → RefreshToken → Option User → Run TokenPair
  after_user h meta now rt found = found_user found >>= λ u. rotate_token ext svc h u rt meta now

  abbrev pub after_token : String → ClientMeta → Time → RefreshToken → Run TokenPair
  after_token h meta now rt = Users.get_by_id rt.user_id >>= after_user h meta now rt

  owner_lem :
      (h : String) (meta : ClientMeta) (d : Db) (now : Time) (rt : RefreshToken) (o : Option User)
      (w : World Db)
      → ltb 0 (count_where (live h now) d.refresh_tokens) ≡ true
      → first_by id_order (unrevoked h) d.refresh_tokens ≡ some rt
      → find_where (has_id rt.user_id) d.users ≡ o
      → At (book d) now w
      → Post
          (λ pair v. Rotated h meta now d pair v.db)
          (λ _ v. (book v.db ≡ book d) ⊎ (book v.db ≡ spend h (book d)))
          (after_user h meta now rt o w)
  owner_lem h meta d now rt none w live_now e f here = inl here.reads
  owner_lem h meta d now rt (some u) w live_now e f here =
      Post-map (Issued (spend h (book d)) now u.id rt.session_id meta) _
        (KeptOrSpent ext svc lawful (book d) now h) _ (rotate_token ext svc h u rt meta now w)
        (rotate_token-Issued ext svc lawful (book d) now h u rt meta w here)
        (λ pair v (id, k). record {
          old = rt;
          user = u;
          id = id;
          was_live = live_now;
          found = e;
          owner = f;
          after = k.reads;
        })
        (λ _ v k. elim k [ inl a ↦ inl a.reads | inr b ↦ inr b.reads ])

  abbrev pub after_active : String → ClientMeta → Time → Bool → Run TokenPair
  after_active h meta now active =
      guard active token_expired >> (Refresh.get_by_hash_only h >>= after_token h meta now)

  -- Whatever statements fail. Where `Refresh` returns, the token that was given was there, not revoked and
  -- not expired, and its owner was there; every token with its hash is revoked, one row is added, for the
  -- same user, session and client, not revoked, with the hash and the expiry of the pair that is returned, and
  -- apart from the times of the last use nothing else is changed. Where it fails, the tables are, apart
  -- from those times, as they were, or only the tokens with that hash are revoked. The token provider
  -- is to leave the tables alone.
  pub refresh-Rotated :
      (opaque : String) (meta : ClientMeta) (w : World Db)
      → Post
          (λ pair v. Rotated (ext.digest opaque) meta w.clock w.db pair v.db)
          (λ _ v. (book v.db ≡ book w.db) ⊎ (book v.db ≡ spend (ext.digest opaque) (book w.db)))
          (refresh ext svc opaque meta w)
  unfolding refresh Refresh.is_active_by_hash Refresh.get_by_hash_only Users.get_by_id
  refresh-Rotated opaque meta w =
      let h : String = ext.digest opaque in
      let d : Db = w.db in
      let now : Time = w.clock in
      let Q : TokenPair → World Db → Type 0 = λ pair v. Rotated h meta now d pair v.db in
      let X : Error AuthError → World Db → Type 0 =
        λ _ v. (book v.db ≡ book d) ⊎ (book v.db ≡ spend h (book d)) in
      let fails : (e : Error AuthError) (v : World Db) → Reads d now v → X e v =
        λ _ _ k. inl (ap book k.0) in
      Post-bind _ Q X (Refresh.is_active_by_hash h now) (after_active h meta now) w
        (query-Reads d now X (λ t. ok (ltb 0 (count_where (live h now) t.refresh_tokens))) w fails
          (refl, refl))
        (λ active w1 (a, r1).
          Post-guard_then Q X active token_expired
            (Refresh.get_by_hash_only h >>= after_token h meta now) w1
            (λ is_live.
              Post-bind _ Q X (Refresh.get_by_hash_only h) (after_token h meta now) w1
                (query-Reads d now X
                  (λ t. found_token (first_by id_order (unrevoked h) t.refresh_tokens)) w1 fails r1)
                (λ rt w2 (e, r2).
                  Post-bind _ Q X (Users.get_by_id rt.user_id) (after_user h meta now rt) w2
                    (query-Reads d now X (λ t. ok (find_where (has_id rt.user_id) t.users)) w2 fails
                      r2)
                    (λ o w3 (f, r3).
                      owner_lem h meta d now rt o w3 (ok_injective a ∙ is_live)
                        (found_token-some _ rt e) (ok_injective f)
                        (record { reads = ap book r3.0; clock = r3.1 }))))
            (λ _. inl (ap book r1.0)))
