-- ===== src/AuthHandler/Unknown.antt =====
-- Logging out with a refresh token that is not there.
use mathlib.Core.Path.{subst}
use order_hub.Base.{Uuid, ◌≡◌, refl, sym, Bool, true, false, Option, none, String, str_eq}
use order_hub.Base.Text.{trim_space}
use order_hub.Base.Rows.{first_by}
use order_hub.Base.Store.{
  World, Result, ok, err, Error, service, database, DbError, unavailable, record_not_found, pool,
  guard, ignore, clock_now, ◌>>=◌, ◌>>◌,
}
use order_hub.Base.Post.{Post, Post-bind, Post-query}
use order_hub.Auth.Models.{RefreshToken, Db, AuthError, token_not_found_or_revoked, Run, Outside}
use order_hub.Auth.Repo.Refresh
use order_hub.Auth.Repo.Refresh.{unrevoked, id_order, found_token}
use order_hub.Auth.Service.Types.{AuthService}
use order_hub.Auth.Service.Tokens.{log_out_with_access_token, blacklist_access, close_session}
use order_hub.Interceptor.Bearer.{Metadata}
use order_hub.Interceptor.Clients.{Roles}
use order_hub.AuthHandler.Caller.{access_token}
use order_hub.AuthHandler.Calls.{Code, internal, status, answer, log_out_code, handle_log_out}

-- the answer to a call that always fails with an error of the database
answer-internal :
    {A B : Type 0} (code_of : AuthError → Code) (make : A → B) (d : Db) (r : Result AuthError A)
    (v : World Db)
    → Post (λ _ _. ⊥) (λ e u. ((x : DbError) × (e ≡ database x)) × (u.db ≡ d)) (r, v)
    → let out = answer code_of make (λ _. (r, v)) v in (out.0 ≡ status internal) × (out.1.db ≡ d)
answer-internal code_of make d (ok a) v h = absurd h
answer-internal code_of make d (err (service e)) v h = cc
answer-internal code_of make d (err (database x)) v h = (refl, h.1)

module _ (ext : Outside) (svc : AuthService) where
  -- what follows the query of the token
  abbrev end_token : String → String → RefreshToken → Run (Unit {0})
  end_token h access rt = clock_now >>= λ now.
      ignore (Refresh.touch rt.user_id h now)
      >> (blacklist_access svc access
          >> (Refresh.revoke_by_hash_only h >>= λ done.
              guard done token_not_found_or_revoked >> close_session rt.session_id))

  unknown_token :
      (opaque access : String) (w : World Db)
      → str_eq opaque "" ≡ false
      → first_by id_order (unrevoked (ext.digest opaque)) w.db.refresh_tokens ≡ none
      → Post
          (λ _ _. ⊥)
          (λ e v. ((x : DbError) × (e ≡ database x)) × (v.db ≡ w.db))
          (log_out_with_access_token ext svc opaque access w)
  unfolding log_out_with_access_token Refresh.get_by_hash_only
  unknown_token opaque access w full absent =
      let h : String = ext.digest opaque in
      let Q : Unit {0} → World Db → Type 0 = λ _ _. ⊥ in
      let X : Error AuthError → World Db → Type 0 =
        λ e v. ((x : DbError) × (e ≡ database x)) × (v.db ≡ w.db) in
      let find : Db → Result AuthError RefreshToken =
        λ t. found_token (first_by id_order (unrevoked h) t.refresh_tokens) in
      rw full (
        Post-bind (λ (_ : RefreshToken) _. ⊥) Q X (Refresh.get_by_hash_only h) (end_token h access)
          w
          (Post-query (λ _ _. ⊥) X pool find w
            (λ gs.
              subst (λ o. Post (λ _ _. ⊥) X (found_token o, record w { faults = gs })) (sym absent)
                ((record_not_found, refl), refl))
            (λ _. ((unavailable, refl), refl)))
          (λ _ _ never. absurd never))

  -- Whatever statements fail: `Logout`, where the generated validation accepts the request, with a refresh token
  -- in which something is left when the spaces around it are off, and of which no row is there that
  -- is not revoked, is answered by INTERNAL, never by NOT_FOUND, and the tables are as they were.
  pub handle_log_out-unknown :
      (roles : Roles) (print : Uuid → String) (md : Option Metadata) (ctx : Option Uuid)
      (token : String) (all : Bool) (w : World Db)
      → str_eq (trim_space token) "" ≡ false
      → first_by id_order (unrevoked (ext.digest (trim_space token))) w.db.refresh_tokens ≡ none
      → ((handle_log_out ext svc roles print true md ctx token all w).0 ≡ status internal)
        × ((handle_log_out ext svc roles print true md ctx token all w).1.db ≡ w.db)
  unfolding handle_log_out
  handle_log_out-unknown roles print md ctx token all w full absent =
      let opaque : String = trim_space token in
      let (r, v) = log_out_with_access_token ext svc opaque (access_token md) w in
      rw full (
        answer-internal log_out_code (λ _. tt) w.db r v
          (unknown_token opaque (access_token md) w full absent))
