-- ===== src/Auth/Registering.antt =====
-- `Register`.
use mathlib.Core.Path.{subst}
use order_hub.Base.{
  ℕ, suc, ◌+◌, Uuid, Time, String, ◌≡◌, refl, sym, ap, ◌∙◌, ◌⊎◌, inl, inr, Bool, true, false, not,
  List, [], ◌∷◌, arith, ltb,
}
use order_hub.Base.Rows.{count_where, any_where}
use order_hub.Base.Store.{
  World, ok, Error, ok_injective, ignore, pure, guard, clock_now, ◌>>=◌, ◌>>◌,
}
use order_hub.Base.Post.{Post, Post-bind, Post-map, Post-guard_then, Post-ignore, Post-exec_pool}
use order_hub.Auth.Models.{
  Role, User, Code, Db, verify_email, AuthError, email_exists, Run, Outside, day,
}
use order_hub.Auth.Repo.Users
use order_hub.Auth.Repo.Users.{has_email}
use order_hub.Auth.Repo.Codes
use order_hub.Auth.Repo.Codes.{email_verifications}
use order_hub.Auth.Service.Helpers.{fresh_id, draw_digits, hash_password, send_email}
use order_hub.Auth.Service.Accounts.{new_user, new_code, register}
use order_hub.Auth.Book.{Book, book, At, exec-At, query-Reads}
use order_hub.Auth.Book.Statements.{Still, hash-At, digits-At, mail-At}

abbrev pub add_user : User → Book → Book
add_user u s = record s { users = u ∷ s.users }

abbrev pub add_verification : Code → Book → Book
add_verification c s = record s { email_verifications = c ∷ s.email_verifications }

-- No two users have the same email, however it is spelled.
abbrev pub Distinct : Outside → List User → Type 0
Distinct ext [] = Unit {0}
Distinct ext (u ∷ us) = (any_where (has_email ext u.email) us ≡ false) × Distinct ext us

none_any :
    (fits : User → Bool) (rows : List User)
    → ltb 0 (count_where fits rows) ≡ false
    → any_where fits rows ≡ false
unfolding count_where any_where
none_any fits [] e = refl
none_any fits (u ∷ us) e = ground (arith, none_any fits us)

false_of_not : (b : Bool) → not b ≡ true → b ≡ false
false_of_not b e = ground arith

user_ok :
    (ext : Outside) (u : User) (a : Unit {0}) (d d' : Db)
    → Users.create_row ext u d ≡ ok (a, d')
    → book d' ≡ add_user u (book d)
unfolding Users.create_row
user_ok ext u a d d' e = let row : d' ≡ Users.inserted u d = ground arith in rw row refl

code_ok :
    (c : Code) (a : Unit {0}) (d d' : Db)
    → Codes.create_row email_verifications c d ≡ ok (a, d')
    → book d' ≡ add_verification (record c { id = d.next_id }) (book d)
unfolding Codes.create_row
code_ok c a d d' e =
    let row : d' ≡ Codes.inserted email_verifications c d = ground arith in rw row refl

module _ (ext : Outside) (email password : String) where
  -- What a call of `Register` that returns has done: nobody had the email; there is one user more, a customer
  -- whose email is not verified, with a hash of the password, and one code to verify the email, for a day.
  pub record Registered (now : Time) (d : Db) (u : User) (d' : Db) : Type 0 where
    pub salt : ℕ
    pub code : ℕ
    pub code_id : Uuid
    pub free : any_where (has_email ext email) d.users ≡ false
    pub row : u ≡ record {
      id = u.id;
      email = email;
      password = ext.hash_password salt password;
      role = Role.role_customer;
      is_email_verified = false;
      created_at = now;
      updated_at = now;
    }
    pub after :
        book d'
        ≡ add_verification
            (record {
              id = code_id;
              user_id = u.id;
              email = email;
              code_hash = ext.digest (ext.digits 10 code);
              expires_at = now + day;
              consumed = false;
              created_at = now;
            })
            (add_user u (book d))

  -- Nothing is changed, or the user is there without a code.
  abbrev pub KeptOrHalf : Time → Db → World Db → Type 0
  KeptOrHalf now d v =
      (book v.db ≡ book d)
      ⊎ ((u : User) × (any_where (has_email ext email) d.users ≡ false)
          × (u.email ≡ email)
          × (book v.db ≡ add_user u (book d)))

  -- the part of the body from the new row on
  abbrev send_code : User → Time → String → Run User
  send_code u now rng =
      Codes.create email_verifications (new_code u.id email (ext.digest rng) (now + day) now)
      >> (ignore (send_email (verify_email email rng)) >> pure u)

  abbrev store_user : User → Time → Run User
  store_user u now = Users.create ext u >> (draw_digits ext 10 >>= send_code u now)

  module _ (d : Db) (now : Time) (free : any_where (has_email ext email) d.users ≡ false) where
    store_user-Registered :
        (id : Uuid) (salt : ℕ) (w : World Db)
        → At (book d) now w
        → let u : User = new_user id email (ext.hash_password salt password) now in
          Post (λ x v. Registered now d x v.db) (λ _ v. KeptOrHalf now d v) (store_user u now w)
    unfolding Users.create Codes.create
    store_user-Registered id salt w here =
        let u : User = new_user id email (ext.hash_password salt password) now in
        let s : Book = add_user u (book d) in
        let Q : User → World Db → Type 0 = λ x v. Registered now d x v.db in
        let X : Error AuthError → World Db → Type 0 = λ _ v. KeptOrHalf now d v in
        let half : (e : Error AuthError) (v : World Db) → At s now v → X e v =
          λ _ v k. inr (u, free, refl, k.reads) in
        Post-bind (Still s now) Q X (Users.create ext u)
          (λ _. draw_digits ext 10 >>= send_code u now) w
          (exec-At (book d) now X (Users.create_row ext u) (λ _. add_user u) w (user_ok ext u)
            (λ _ _ k. inl k.reads) here)
          (λ _ w1 h1.
            Post-bind _ Q X (draw_digits ext 10) (send_code u now) w1
              (digits-At s now ext X 10 w1 half h1)
              (λ rng w2 ((i, drawn), h2).
                let c : Code = new_code u.id email (ext.digest rng) (now + day) now in
                Post-bind (λ _ v. (k : Uuid) × At (add_verification (record c { id = k }) s) now v)
                  Q X (Codes.create email_verifications c)
                  (λ _. ignore (send_email (verify_email email rng)) >> pure u) w2
                  (Post-exec_pool _ X (Codes.create_row email_verifications c) w2
                    (λ a t gs e. (
                      w2.db.next_id,
                      record {
                        reads =
                            code_ok c a w2.db t e
                            ∙ ap (add_verification (record c { id = w2.db.next_id })) h2.reads;
                        clock = h2.clock;
                      },
                    ))
                    (λ e gs.
                      half e (record w2 { faults = gs })
                        (record { reads = h2.reads; clock = h2.clock })))
                  (λ _ w3 (k, h3).
                    let t : Book = add_verification (record c { id = k }) s in
                    Post-bind (Still t now) Q X (ignore (send_email (verify_email email rng)))
                      (λ _. pure u) w3
                      (Post-ignore (λ v. At t now v) X (send_email (verify_email email rng)) w3
                        (mail-At t now (Still t now) (verify_email email rng) w3 (λ _ _ q. q) h3))
                      (λ _ w4 h4. record {
                        salt = salt;
                        code = i;
                        code_id = k;
                        free = free;
                        row = refl;
                        after =
                            h4.reads
                            ∙ ap
                                (λ z.
                                  add_verification
                                    (record (new_code u.id email (ext.digest z) (now + day) now) {
                                      id = k;
                                    })
                                    s)
                                drawn;
                      }))))

    abbrev with_hash : String → Run User
    with_hash h = fresh_id >>= λ id. clock_now >>= λ t. store_user (new_user id email h t) t

    with_hash-Registered :
        (salt : ℕ) (w : World Db)
        → At (book d) now w
        → Post
            (λ x v. Registered now d x v.db)
            (λ _ v. KeptOrHalf now d v)
            (with_hash (ext.hash_password salt password) w)
    unfolding fresh_id
    with_hash-Registered salt w here =
        let id : Uuid = w.db.next_id in
        let v : World Db = record w {
          db = record w.db { next_id = suc w.db.next_id };
          tx = record w.tx { next_id = suc w.tx.next_id };
        } in
        let Q : User → World Db → Type 0 = λ x u. Registered now d x u.db in
        let X : Error AuthError → World Db → Type 0 = λ _ u. KeptOrHalf now d u in
        subst
          (λ t. Post Q X (store_user (new_user id email (ext.hash_password salt password) t) t v))
          (sym here.clock)
          (store_user-Registered id salt v (record { reads = here.reads; clock = here.clock }))

  -- Whatever statements fail. Where `Register` returns, nobody had the email; the accounts have one user more, a
  -- customer whose email is not verified, with a hash of the password, and one code of that user to verify
  -- the email, valid for a day; nothing else of them is changed. Where it fails, the accounts are as they were, or the
  -- user is there and the code is not.
  pub register-Registered :
      (w : World Db)
      → Post
          (λ u v. Registered w.clock w.db u v.db)
          (λ _ v. KeptOrHalf w.clock w.db v)
          (register ext email password w)
  unfolding register Users.exists_by_email
  register-Registered w =
      let d : Db = w.db in
      let now : Time = w.clock in
      let Q : User → World Db → Type 0 = λ x v. Registered now d x v.db in
      let X : Error AuthError → World Db → Type 0 = λ _ v. KeptOrHalf now d v in
      Post-bind _ Q X (Users.exists_by_email ext email)
        (λ exists. guard (not exists) email_exists >> (hash_password ext password >>= with_hash_of))
        w
        (query-Reads d now X (λ t. ok (ltb 0 (count_where (has_email ext email) t.users))) w
          (λ _ _ k. inl (ap book k.0)) (refl, refl))
        (λ exists w1 (a, r1).
          Post-guard_then Q X (not exists) email_exists
            (hash_password ext password >>= with_hash_of) w1
            (λ fine.
              let absent : any_where (has_email ext email) d.users ≡ false =
                none_any (has_email ext email) d.users
                  (ok_injective a ∙ false_of_not exists fine) in
              Post-bind _ Q X (hash_password ext password) with_hash_of w1
                (hash-At (book d) now ext X password w1 (λ _ _ k. inl k.reads)
                  (record { reads = ap book r1.0; clock = r1.1 }))
                (λ h w2 ((salt, e), h2).
                  subst (λ t. Post Q X (with_hash_of t w2)) (sym e)
                    (with_hash-Registered d now absent salt w2 h2)))
            (λ _. inl (ap book r1.0)))
    where
      with_hash_of : String → Run User
      with_hash_of h = fresh_id >>= λ id. clock_now >>= λ t. store_user (new_user id email h t) t

-- Whatever statements fail, and whether `Register` returns or not: where no two users had the same email,
-- however it is spelled, none have it afterwards.
pub register-Distinct :
    (ext : Outside) (email password : String) (w : World Db)
    → Distinct ext w.db.users
    → Post
        (λ _ v. Distinct ext v.db.users)
        (λ _ v. Distinct ext v.db.users)
        (register ext email password w)
register-Distinct ext email password w h =
    Post-map _ _ _ _ (register ext email password w) (register-Registered ext email password w)
      (λ u v r.
        let users : v.db.users ≡ u ∷ w.db.users = ap (λ b. b.users) r.after in
        let mail : u.email ≡ email = ap (λ x. x.email) r.row in
        subst (λ us. Distinct ext us) (sym users)
          (subst (λ m. any_where (has_email ext m) w.db.users ≡ false) (sym mail) r.free, h))
      (λ _ v k. elim k [
        | inl same ↦ subst (λ us. Distinct ext us) (sym (ap (λ b. b.users) same)) h
        | inr (u, free, mail, more) ↦
            subst (λ us. Distinct ext us) (sym (ap (λ b. b.users) more))
              (subst (λ m. any_where (has_email ext m) w.db.users ≡ false) (sym mail) free, h)
      ])
