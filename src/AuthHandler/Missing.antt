-- ===== src/AuthHandler/Missing.antt =====
-- A request to reset the password of an email that no user has.
use mathlib.Core.Path.{subst}
use order_hub.Base.{
  Uuid, ◌+◌, ◌≡◌, refl, sym, ap, ◌∙◌, Bool, false, not, Option, none, [], String, Time,
}
use order_hub.Base.Rows.{find_where, any_where}
use order_hub.Base.Store.{
  World, Result, ok, err, Error, service, database, pool, query, attempt, guard, pure, fail, catch,
  clock_now, ◌>>=◌, ◌>>◌,
}
use order_hub.Base.Store.{ok_injective}
use order_hub.Base.Post.{Post, Post-bind, Post-catch, Post-guard_then, Post-exec_pool, Post-query}
use order_hub.Auth.Models.{
  User, Db, AuthError, Run, Outside, RedisKey, pwd_reset, reset_password, hour, not_found,
  nil_pointer, too_many_requests,
}
use order_hub.Auth.Repo.Users
use order_hub.Auth.Repo.Users.{has_email}
use order_hub.Auth.Service.Types.{AuthService, CacheClient}
use order_hub.Auth.Service.Helpers.{
  rate_limited, set_rate_limit, send_email, redis_exists, draw, draw_digits, deref, count_draw,
  alive,
}
use order_hub.Auth.Service.Accounts.{new_code}
use order_hub.Auth.Repo.Codes
use order_hub.Auth.Repo.Codes.{password_resets}
use order_hub.Auth.Service.Resets.{reset_cooldown, request_password_reset}
use order_hub.Auth.Book.{Reads, catch-Reads}
use order_hub.Interceptor.Clients.{Roles}
use order_hub.AuthHandler.Calls.{
  Code, Reply, panic, answer, request_reset_code, handle_request_password_reset,
}

-- The users, the codes and the mails are as they were.
abbrev pub Untouched : Db → World Db → Type 0
Untouched d v =
    (v.db.users ≡ d.users)
    × (v.db.password_resets ≡ d.password_resets)
    × (v.db.email_verifications ≡ d.email_verifications)
    × (v.db.mails ≡ d.mails)

-- A status or a panic.
abbrev pub Failed : {A : Type 0} → Reply A → Type 0
Failed (Reply.reply a) = ⊥
Failed (Reply.status c) = Unit {0}
Failed Reply.panic = Unit {0}

module _ (ext : Outside) (d : Db) (now : Time) where
  abbrev Never : {A : Type 0} → Result AuthError A × World Db → Type 0
  Never r = Post (λ _ _. ⊥) (λ _ v. Untouched d v) r

  Reads-Untouched : (v : World Db) → Reads d now v → Untouched d v
  Reads-Untouched v h = (
    ap (λ (t : Db). t.users) h.0,
    ap (λ (t : Db). t.password_resets) h.0,
    ap (λ (t : Db). t.email_verifications) h.0,
    ap (λ (t : Db). t.mails) h.0,
  )

  -- drawing changes what has been drawn
  draw-Untouched :
      (w : World Db) → Untouched d w → Post (λ _ v. Untouched d v) (λ _ v. Untouched d v) (draw w)
  unfolding draw
  draw-Untouched w h =
      Post-exec_pool (λ _ v. Untouched d v) (λ _ v. Untouched d v)
        (λ (t : Db). ok (t.drawn, count_draw t)) w
        (λ a t gs e.
          let after : count_draw w.db ≡ t = ap (λ p. p.1) (ok_injective e) in
          (
            ap (λ (x : Db). x.users) (sym after) ∙ h.0,
            ap (λ (x : Db). x.password_resets) (sym after) ∙ h.1,
            ap (λ (x : Db). x.email_verifications) (sym after) ∙ h.2,
            ap (λ (x : Db). x.mails) (sym after) ∙ h.3,
          ))
        (λ e gs. h)

  -- A nil user ends the request once the digits are drawn, whatever was to follow.
  digits_then_nil :
      (rest : String → User → Run (Unit {0})) (w : World Db)
      → Untouched d w
      → Never ((draw_digits ext 6 >>= λ rng. deref none >>= λ u. rest rng u) w)
  unfolding draw_digits deref
  digits_then_nil rest w h =
      let X : Error AuthError → World Db → Type 0 = λ _ v. Untouched d v in
      Post-bind (λ _ v. Untouched d v) (λ _ _. ⊥) X (draw_digits ext 6)
        (λ rng. deref none >>= λ u. rest rng u) w
        (Post-bind (λ _ v. Untouched d v) (λ _ v. Untouched d v) X draw (λ i. pure (ext.digits 6 i))
          w (draw-Untouched w h) (λ i v k. k))
        (λ rng v k. k)

  rate_limited-Reads :
      (cache : CacheClient) (key : RedisKey) (w : World Db)
      → Reads d now w
      → Post (λ _ v. Reads d now v) (λ _ v. Untouched d v) (rate_limited cache key w)
  unfolding rate_limited redis_exists
  rate_limited-Reads CacheClient.no_cache key w h = h
  rate_limited-Reads CacheClient.nil_client key w h = Reads-Untouched w h
  rate_limited-Reads CacheClient.redis_client key w h =
      let K : Bool → World Db → Type 0 = λ _ v. Reads d now v in
      let find : Db → Result AuthError Bool = λ t. ok (any_where (alive key w.clock) t.redis) in
      Post-catch K K (λ _ v. Reads d now v) (λ _ v. Untouched d v) (query pool find)
        (λ _. pure false) w (Post-query K (λ _ v. Reads d now v) pool find w (λ gs. h) (λ gs. h))
        (λ _ _ k. k) (λ _ _ k. k)

  cooldown_then :
      (cache : CacheClient) (rest : Run (Unit {0})) (t : Time) (w : World Db)
      → Untouched d w
      → ((v : World Db) → Untouched d v → Never (rest v))
      → Never ((reset_cooldown cache none t >> rest) w)
  unfolding reset_cooldown deref
  cooldown_then CacheClient.no_cache rest t w h k = h
  cooldown_then CacheClient.redis_client rest t w h k = k w h
  cooldown_then CacheClient.nil_client rest t w h k = k w h

  -- the code and its mail
  abbrev send_code : CacheClient → String → Time → String → User → Run (Unit {0})
  send_code cache email t rng u =
      Codes.create password_resets (new_code u.id email (ext.digest rng) (t + hour) t)
      >> (set_rate_limit cache (pwd_reset email) >> send_email (reset_password u.email rng))

  -- what follows the search for the user
  abbrev end_reset : CacheClient → String → Option User → Run (Unit {0})
  end_reset cache email found = clock_now >>= λ t.
      reset_cooldown cache found t
      >> (draw_digits ext 6 >>= λ rng. deref found >>= λ u. send_code cache email t rng u)

  request_password_reset-missing :
      (cache : CacheClient) (email : String) (w : World Db)
      → Reads d now w
      → find_where (has_email ext email) d.users ≡ none
      → Never (request_password_reset ext cache email w)
  unfolding request_password_reset Users.get_by_email
  request_password_reset-missing cache email w h absent =
      let N : Unit {0} → World Db → Type 0 = λ _ _. ⊥ in
      let X : Error AuthError → World Db → Type 0 = λ _ v. Untouched d v in
      let find : Db → Result AuthError (Option User) =
        λ t. ok (find_where (has_email ext email) t.users) in
      let search : Run (Unit {0}) =
        catch (query pool find) (λ _. fail (service not_found)) >>= end_reset cache email in
      Post-bind (λ _ v. Reads d now v) N X (rate_limited cache (pwd_reset email))
        (λ limited. guard (not limited) too_many_requests >> search) w
        (rate_limited-Reads cache (pwd_reset email) w h)
        (λ limited v k.
          Post-guard_then N X (not limited) too_many_requests search v
            (λ _.
              Post-bind (λ found u. (find d ≡ ok found) × Reads d now u) N X
                (catch (query pool find) (λ _. fail (service not_found))) (end_reset cache email) v
                (catch-Reads d now X find not_found v (λ _ u r. Reads-Untouched u r) k)
                (λ found u r.
                  let same : found ≡ none = sym (ok_injective r.0) ∙ absent in
                  rw same (
                    cooldown_then cache
                      (draw_digits ext 6 >>= λ rng.
                        deref none >>= λ o. send_code cache email u.clock rng o)
                      u.clock u (Reads-Untouched u r.1)
                      (λ x l. digits_then_nil (send_code cache email u.clock) x l))))
            (λ _. Reads-Untouched v k))

answer-Failed :
    {A B : Type 0} (code_of : AuthError → Code) (make : A → B) (d : Db) (r : Result AuthError A)
    (v : World Db)
    → Post (λ _ _. ⊥) (λ _ u. Untouched d u) (r, v)
    → let out = answer code_of make (λ _. (r, v)) v in Failed out.0 × Untouched d out.1
answer-Failed code_of make d (ok a) v h = absurd h
answer-Failed code_of make d (err (service AuthError.nil_pointer)) v h = (tt, h)
answer-Failed code_of make d (err (service e)) v h = (tt, h)
answer-Failed code_of make d (err (database x)) v h = (tt, h)

panicked_answer :
    {A B : Type 0} (code_of : AuthError → Code) (make : A → B) (r : Result AuthError A)
    (w v : World Db)
    → r ≡ err (service nil_pointer)
    → (answer code_of make (λ _. (r, v)) w).0 ≡ panic
panicked_answer code_of make r w v e =
    subst (λ x. (answer code_of make (λ _. (x, v)) w).0 ≡ panic) (sym e) refl

module _ (ext : Outside) (svc : AuthService) (email : String) (w : World Db) where
  missing_clear :
      w.faults ≡ []
      → find_where (has_email ext email) w.db.users ≡ none
      → query {E = AuthError} pool (λ t. ok (find_where (has_email ext email) t.users)) w
        ≡ (ok none, record w { faults = [] })
  unfolding query attempt
  missing_clear quiet absent = rw (quiet, absent) refl

  panics :
      svc.cache ≡ CacheClient.no_cache
      → w.faults ≡ []
      → find_where (has_email ext email) w.db.users ≡ none
      → (request_password_reset ext svc.cache email w).0 ≡ err (service nil_pointer)
  unfolding request_password_reset rate_limited Users.get_by_email reset_cooldown deref
  panics plain quiet absent =
      let find : Run (Option User) =
        query pool (λ t. ok (find_where (has_email ext email) t.users)) in
      let after : Result AuthError (Option User) × World Db → Result AuthError (Unit {0}) = λ r.
        ((catch (λ _. r) (λ _. fail (service not_found))
            >>= end_reset ext w.db w.clock CacheClient.no_cache email)
          w).0 in
      subst (λ c. (request_password_reset ext c email w).0 ≡ err (service nil_pointer)) (sym plain)
        (ap after (missing_clear quiet absent))

  -- Whatever statements fail: `RequestPasswordReset` with an email that no user has never answers with a reply, and
  -- the users, the codes and the mails are as they were. With no Redis and no failing statement it panics,
  -- where NOT_FOUND is meant.
  pub handle_request_password_reset-Failed :
      (roles : Roles) (print : Uuid → String)
      → find_where (has_email ext email) w.db.users ≡ none
      → Failed (handle_request_password_reset ext svc roles print email w).0
        × Untouched w.db (handle_request_password_reset ext svc roles print email w).1
        × (svc.cache ≡ CacheClient.no_cache
            → w.faults ≡ []
            → (handle_request_password_reset ext svc roles print email w).0 ≡ panic)
  unfolding handle_request_password_reset
  handle_request_password_reset-Failed roles print absent =
      let (r, v) = request_password_reset ext svc.cache email w in
      let (failed, kept) =
        answer-Failed request_reset_code (λ _. tt) w.db r v
          (request_password_reset-missing ext w.db w.clock svc.cache email w (refl, refl) absent) in
      (
        failed,
        kept,
        λ plain quiet.
            panicked_answer request_reset_code (λ _. tt) r w v (panics plain quiet absent),
      )
