-- ===== src/Auth/Once.antt =====
-- A refresh token is used once.
use order_hub.Base.{
  ℕ, Time, String, str_eq, eq_iff, ◌≡◌, ◌≢◌, refl, sym, ap, ◌∙◌, false, List, [], ◌∷◌, map, arith,
  ltb, Bool-cases, inl, inr,
}
use order_hub.Base.Rows.{count_where, update_where}
use order_hub.Base.Store.{World, ok, Error, ok_injective}
use order_hub.Base.Post.{Post, Post-bind, Post-returned}
use order_hub.Auth.Models.{RefreshToken, Db, AuthError, Outside}
use order_hub.Auth.Repo.Refresh
use order_hub.Auth.Repo.Refresh.{unrevoked, live, revoke_row}
use order_hub.Auth.Service.Types.{AuthService, ClientMeta, TokenPair}
use order_hub.Auth.Service.Tokens.{refresh}
use order_hub.Auth.Book.{forget_use, query-Reads}
use order_hub.Auth.Provider.{IsProvider}
use order_hub.Auth.Rotation.{Rotated, refresh-Rotated, after_active}

none_live :
    (h : String) (now : Time) (rows : List RefreshToken)
    → count_where (unrevoked h) (map forget_use rows) ≡ 0
    → count_where (live h now) rows ≡ 0
unfolding count_where
none_live h now [] e = refl
none_live h now (t ∷ rows) e = ground (arith, none_live h now rows)

none_after :
    (h : String) (rows : List RefreshToken)
    → count_where (unrevoked h) (update_where (unrevoked h) revoke_row rows) ≡ 0
unfolding count_where update_where
none_after h [] = refl
none_after h (t ∷ rows) = ground (arith, none_after h rows)

spent_lem :
    (h : String) (meta : ClientMeta) (now later : Time) (d d' : Db) (pair : TokenPair)
    → Rotated h meta now d pair d'
    → pair.refresh_hash ≢ h
    → count_where (live h later) d'.refresh_tokens ≡ 0
unfolding count_where
spent_lem h meta now later d d' pair r fresh =
    let other : str_eq pair.refresh_hash h ≡ false =
      elim (Bool-cases (str_eq pair.refresh_hash h)) [
        | inl same ↦ absurd (fresh ((eq_iff pair.refresh_hash h).0 same))
        | inr differ ↦ differ
      ] in
    none_live h later d'.refresh_tokens (
      ap (λ b. count_where (unrevoked h) b.tokens) r.after
      ∙ rw other (omega (arith, none_after h (map forget_use d.refresh_tokens))))

module _ (ext : Outside) (svc : AuthService) (lawful : IsProvider svc.tokens) where
  -- A call of `Refresh` has returned a pair whose hash is another than that of the token that was given,
  -- and the tables are still as it left them. Then a second call with the same token, at whatever time and
  -- whatever statements fail, does not return, and leaves the tables alone. The token provider is to leave
  -- the tables alone.
  pub refresh-once :
      (opaque : String) (meta again : ClientMeta) (w v u : World Db) (pair : TokenPair)
      → refresh ext svc opaque meta w ≡ (ok pair, v)
      → pair.refresh_hash ≢ ext.digest opaque
      → u.db ≡ v.db
      → Post (λ _ _. ⊥) (λ _ t. t.db ≡ v.db) (refresh ext svc opaque again u)
  unfolding refresh Refresh.is_active_by_hash
  refresh-once opaque meta again w v u pair done fresh same =
      let h : String = ext.digest opaque in
      let now : Time = u.clock in
      let Q : TokenPair → World Db → Type 0 = λ _ _. ⊥ in
      let X : Error AuthError → World Db → Type 0 = λ _ t. t.db ≡ v.db in
      let none_left : count_where (live h now) v.db.refresh_tokens ≡ 0 =
        spent_lem h meta w.clock now w.db v.db pair
          (Post-returned _ _ (refresh ext svc opaque meta w) pair v
            (refresh-Rotated ext svc lawful opaque meta w) done)
          fresh in
      Post-bind _ Q X (Refresh.is_active_by_hash h now) (after_active ext svc lawful h again now) u
        (query-Reads v.db now X (λ t. ok (ltb 0 (count_where (live h now) t.refresh_tokens))) u
          (λ _ _ k. k.0) (same, refl))
        (λ active w1 (a, r1).
          let refused : active ≡ false = sym (ok_injective a) ∙ ap (λ (n : ℕ). ltb 0 n) none_left in
          rw refused r1.0)
