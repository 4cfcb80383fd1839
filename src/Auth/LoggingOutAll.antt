-- ===== src/Auth/LoggingOutAll.antt =====
-- `LogoutAll`.
use order_hub.Base.{ℕ, Uuid, ◌≡◌, refl, inl, inr, Option, some, arith, Option-cases}
use order_hub.Base.Rows.{count_where, update_where}
use order_hub.Base.Store.{World, ok, Error, ignore, pure, ◌>>◌}
use order_hub.Base.Post.{Post, Post-bind, Post-exec_pool}
use order_hub.Auth.Models.{Db, AuthError, Run}
use order_hub.Auth.Repo.Refresh
use order_hub.Auth.Repo.Refresh.{unrevoked, of_user, live_in, id_order, found_token, update_tokens}
use order_hub.Auth.Repo.Sessions
use order_hub.Auth.Repo.Sessions.{open_session, open_of, update_sessions, with_sessions}
use order_hub.Auth.Service.Helpers.{context_user, user_id_from_context}
use order_hub.Auth.Service.Tokens.{log_out_all}
use order_hub.Auth.Book.{Book, book, At, map-revoked}
use order_hub.Auth.Book.Statements.{revoke_tokens}
use order_hub.Auth.LoggingOut.{ClosedOrNot, close_all-ClosedOrNot}

count_revoked :
    (user : Uuid) (n : ℕ) (d d' : Db)
    → update_tokens (of_user user) Refresh.revoke_row d ≡ ok (n, d')
    → (n ≡ count_where (of_user user) d.refresh_tokens)
      × (book d' ≡ revoke_tokens (of_user user) (book d))
unfolding update_tokens
count_revoked user n d d' e =
    let row : d'
        ≡ Refresh.with_tokens (update_where (of_user user) Refresh.revoke_row d.refresh_tokens) d =
      ground arith in
    (ground arith, rw (row, map-revoked (of_user user) d.refresh_tokens (λ t. refl)) refl)

-- Whatever statements fail. Where `LogoutAll` returns, the caller is a user, the number is that of the
-- user's tokens that were not revoked, these are revoked, and either every session of the user that was
-- not revoked is revoked or none is touched; apart from the times of the last use no other row of the
-- accounts is changed. Where it fails the accounts are, apart from those times, as they were.
pub log_out_all-Revoked :
    (ctx : Option Uuid) (w : World Db)
    → Post
        (λ n v.
          (user : Uuid) × (user_id_from_context ctx ≡ some user)
          × (n ≡ count_where (of_user user) w.db.refresh_tokens)
          × ClosedOrNot (open_of user) (revoke_tokens (of_user user) (book w.db)) w.clock v)
        (λ _ v. book v.db ≡ book w.db)
        (log_out_all ctx w)
unfolding log_out_all context_user Refresh.revoke_all
log_out_all-Revoked ctx w = elim (Option-cases (user_id_from_context ctx)) [
  | inl nobody ↦ rw nobody refl
  | inr (user, e) ↦ rw e (
      let s : Book = book w.db in
      let spent : Book = revoke_tokens (of_user user) s in
      let n : ℕ = count_where (of_user user) w.db.refresh_tokens in
      let X : Error AuthError → World Db → Type 0 = λ _ v. book v.db ≡ s in
      Post-bind (λ k v. (k ≡ n) × At spent w.clock v) (Out user) X (Refresh.revoke_all user)
        (close_then user) w
        (Post-exec_pool _ X (update_tokens (of_user user) Refresh.revoke_row) w
          (λ k d gs e'.
            let (number, row) = count_revoked user k w.db d e' in
            (number, record { reads = row; clock = refl }))
          (λ _ _. refl))
        (λ k v (number, h).
          Post-bind (λ _ u. ClosedOrNot (open_of user) spent w.clock u) (Out user) X
            (ignore (Sessions.revoke_all_by_user user)) (λ _. pure k) v
            (close_all-ClosedOrNot spent w.clock X user v h) (λ _ u c. (user, refl, number, c))))
]
  where
    close_then : Uuid → ℕ → Run ℕ
    close_then user k = ignore (Sessions.revoke_all_by_user user) >> pure k

    Out : Uuid → ℕ → World Db → Type 0
    Out user k v =
        (someone : Uuid) × (some user ≡ some someone)
        × (k ≡ count_where (of_user someone) w.db.refresh_tokens)
        × ClosedOrNot (open_of someone) (revoke_tokens (of_user someone) (book w.db)) w.clock v
