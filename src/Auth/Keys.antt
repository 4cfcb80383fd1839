-- ===== src/Auth/Keys.antt =====
-- `SetActive` of the signing keys.
use order_hub.Base.{
  ℕ, String, str_eq, ◌≡◌, refl, sym, ap, ◌∙◌, Bool, true, false, List, [], ◌∷◌, map, arith, ltb,
}
use order_hub.Base.Rows.{update_where, count_where}
use order_hub.Base.Store.{World, ok, Error, tx_conn, exec, guard, pure, ◌>>=◌, ◌>>◌}
use order_hub.Base.Post.{
  Post, Post-bind, Post-map, Post-both, Post-guard_then, Post-exec_tx, Post-transaction,
  Post-transaction_clock,
}
use order_hub.Auth.Book.{Book, book, At}
use order_hub.Auth.Models.{JwkKey, Db, AuthError, repo_not_found, Run}
use order_hub.Auth.Repo.Jwks.{
  with_keys, has_kid, is_active, set_active_row, update_keys, switch_key, set_active,
}

-- the key with that identifier is active, and no other
abbrev pub only_active : String → List JwkKey → List JwkKey
only_active kid rows = map (λ (k : JwkKey). record k { active = str_eq k.kid kid }) rows

abbrev dimmed : List JwkKey → List JwkKey
dimmed rows = update_where is_active (set_active_row false) rows

lit_lem :
    (kid : String) (rows : List JwkKey)
    → update_where (has_kid kid) (set_active_row true) (dimmed rows) ≡ only_active kid rows
unfolding update_where
lit_lem kid [] = refl
lit_lem kid (k ∷ rows) = ground (arith, lit_lem kid rows)

count-dimmed :
    (kid : String) (rows : List JwkKey)
    → count_where (has_kid kid) (dimmed rows) ≡ count_where (has_kid kid) rows
unfolding update_where count_where
count-dimmed kid [] = refl
count-dimmed kid (k ∷ rows) = ground (arith, count-dimmed kid rows)

update_keys-ok :
    (fits : JwkKey → Bool) (set : JwkKey → JwkKey) (n : ℕ) (d d' : Db)
    → update_keys fits set d ≡ ok (n, d')
    → (n ≡ count_where fits d.ring.jwk_keys)
      × (d' ≡ with_keys (update_where fits set d.ring.jwk_keys) d)
unfolding update_keys
update_keys-ok fits set n d d' e = ground arith

-- Whatever statements fail. Where `SetActive` returns, a key with that identifier was there, it is active,
-- and every other key is not; nothing else is changed. Where it fails the tables are as they were.
pub set_active-Switched :
    (kid : String) (w : World Db)
    → Post
        (λ _ v.
          (ltb 0 (count_where (has_kid kid) w.db.ring.jwk_keys) ≡ true)
          × (v.db ≡ with_keys (only_active kid w.db.ring.jwk_keys) w.db))
        (λ _ v. v.db ≡ w.db)
        (set_active kid w)
unfolding set_active
set_active-Switched kid w =
    let keys : List JwkKey = w.db.ring.jwk_keys in
    let there : Bool = ltb 0 (count_where (has_kid kid) keys) in
    let Q : Unit {0} → Db → Type 0 =
      λ _ d. (there ≡ true) × (d ≡ with_keys (only_active kid keys) w.db) in
    let R : Unit {0} → World Db → Type 0 = λ a v. (v.db ≡ w.db) × Q a v.tx in
    let X : Error AuthError → World Db → Type 0 = λ _ v. v.db ≡ w.db in
    let light : Run ℕ = exec tx_conn (update_keys (has_kid kid) (set_active_row true)) in
    let finish : ℕ → Run (Unit {0}) = λ n. guard (ltb 0 n) repo_not_found >> pure tt in
    Post-transaction Q (switch_key kid) w (λ gs.
      let w0 : World Db = record w { tx = w.db; faults = gs } in
      Post-bind (λ _ v. (v.db ≡ w.db) × (v.tx ≡ with_keys (dimmed keys) w.db)) R X
        (exec tx_conn (update_keys is_active (set_active_row false))) (λ _. light >>= finish) w0
        (Post-exec_tx _ X (update_keys is_active (set_active_row false)) w0
          (λ n d fs e. (refl, (update_keys-ok is_active (set_active_row false) n w.db d e).1))
          (λ _ _. refl))
        (λ _ w1 (kept, dim).
          Post-bind
            (λ n v.
              (v.db ≡ w.db) × (ltb 0 n ≡ there) × (v.tx ≡ with_keys (only_active kid keys) w.db))
            R X light finish w1
            (Post-exec_tx _ X (update_keys (has_kid kid) (set_active_row true)) w1
              (λ n d fs e.
                let (number, row) =
                  update_keys-ok (has_kid kid) (set_active_row true) n w1.tx d e in
                (
                  kept,
                  ap (λ k. ltb 0 k)
                      (number
                        ∙ ap (λ t. count_where (has_kid kid) t.ring.jwk_keys) dim
                        ∙ count-dimmed kid keys),
                  row
                      ∙ ap
                          (λ t.
                            with_keys
                              (update_where (has_kid kid) (set_active_row true) t.ring.jwk_keys) t)
                          dim
                      ∙ ap (λ rows. with_keys rows w.db) (lit_lem kid keys),
                ))
              (λ _ _. kept))
            (λ n w2 (kept2, number, row).
              Post-guard_then R X (ltb 0 n) repo_not_found (pure tt) w2
                (λ some_key. (kept2, (sym number ∙ some_key, row))) (λ _. kept2))))

abbrev Ticks : {A : Type 0} → ℕ → A → World Db → Type 0
Ticks now _ v = v.clock ≡ now

switch_key-Ticks :
    (kid : String) (now : ℕ) (w : World Db)
    → w.clock ≡ now
    → Post (Ticks now) (Ticks now) (switch_key kid w)
unfolding switch_key
switch_key-Ticks kid now w h =
    let dim : Run ℕ = exec tx_conn (update_keys is_active (set_active_row false)) in
    let light : Run ℕ = exec tx_conn (update_keys (has_kid kid) (set_active_row true)) in
    let finish : ℕ → Run (Unit {0}) = λ n. guard (ltb 0 n) repo_not_found >> pure tt in
    Post-bind (Ticks now) (Ticks now) (Ticks now) dim (λ _. light >>= finish) w
      (Post-exec_tx (Ticks now) (Ticks now) (update_keys is_active (set_active_row false)) w
        (λ _ _ _ _. h) (λ _ _. h))
      (λ _ w1 h1.
        Post-bind (Ticks now) (Ticks now) (Ticks now) light finish w1
          (Post-exec_tx (Ticks now) (Ticks now) (update_keys (has_kid kid) (set_active_row true)) w1
            (λ _ _ _ _. h1) (λ _ _. h1))
          (λ n w2 h2.
            Post-guard_then (Ticks now) (Ticks now) (ltb 0 n) repo_not_found (pure tt) w2 (λ _. h2)
              (λ _. h2)))

-- A switch of keys leaves the accounts alone.
pub set_active-At :
    (s : Book) (now : ℕ) (kid : String) (w : World Db)
    → At s now w
    → Post (λ _ v. At s now v) (λ _ v. At s now v) (set_active kid w)
unfolding set_active
set_active-At s now kid w h =
    Post-map _ (λ _ v. At s now v) _ (λ _ v. At s now v) (set_active kid w)
      (Post-both _ (Ticks now) _ (Ticks now) (set_active kid w) (set_active-Switched kid w)
        (Post-transaction_clock now (switch_key kid) w (switch_key-Ticks kid now) h.clock))
      (λ _ v (k, c). record { reads = ap book k.1 ∙ h.reads; clock = c })
      (λ _ v (k, c). record { reads = ap book k ∙ h.reads; clock = c })
