-- ===== src/Base/Store.antt =====
-- A request against PostgreSQL through gorm. A statement runs on the pool, where it is committed at
-- once, or on the open transaction, which works on a copy that a commit installs and a rollback
-- drops. Any statement, `BEGIN` and `COMMIT` included, can fail: the list of faults says which.
use mathlib.Core.Path.{ap as path_ap}
use order_hub.Base.{Bool, true, false, List, [], ◌∷◌, Time}

-- `constraint`: a CHECK, a UNIQUE index, a foreign key or the range of a column refuses the rows.
pub data DbError : Type 0 where
  unavailable record_not_found constraint : DbError

-- The service's own errors are `E`.
pub data Error (E : Type 0) : Type 0 where
  service : E → Error E
  database : DbError → Error E

pub data Result (E : Type 0) (A : Type 0) : Type 0 where
  ok : A → Result E A
  err : Error E → Result E A

pub ok_injective : {E A : Type 0} {a b : A} → Path (Result E A) (ok a) (ok b) → Path A a b
ok_injective {E = E} {A = A} {a = a} e = path_ap unwrap e
  where
    unwrap : Result E A → A
    unwrap (ok x) = x
    unwrap (err _) = a

-- `db` is committed, `tx` is what the open transaction sees; `faults` holds, for each statement to
-- come, whether it fails (none fails once the list has run out); `clock` is the time of the request.
pub record World (D : Type 0) : Type 0 where
  pub db : D
  pub tx : D
  pub faults : List Bool
  pub clock : Time

-- `r.db` of a repository: the pool, or a transaction.
pub data Conn : Type 0 where
  pool tx_conn : Conn

abbrev pub Action : Type 0 → Type 0 → Type 0 → Type 0
Action D E A = World D → Result E A × World D

infixl 5 ◌>>=◌ ◌>>◌
abbrev pub ◌>>=◌ : {D E A B : Type 0} → Action D E A → (A → Action D E B) → Action D E B
◌>>=◌ m f w = let (r, w') = m w in elim r [ ok a ↦ f a w' | err e ↦ (err e, w') ]

abbrev pub ◌>>◌ : {D E A B : Type 0} → Action D E A → Action D E B → Action D E B
m >> k = m >>= λ _. k

module _ {D E A : Type 0} where
  abbrev pub pure : A → Action D E A
  pure a w = (ok a, w)

  abbrev pub fail : Error E → Action D E A
  fail e w = (err e, w)

  abbrev pub lift : Result E A → Action D E A
  lift r w = (r, w)

  -- `if err != nil { ... }` around a call, in the world that the call leaves
  abbrev pub catch : Action D E A → (Error E → Action D E A) → Action D E A
  catch m h w = let (r, w') = m w in elim r [ ok a ↦ (ok a, w') | err e ↦ h e w' ]

  -- a call whose error is logged or dropped
  abbrev pub ignore : Action D E A → Action D E (Unit {0})
  ignore m w = let (r, w') = m w in (ok tt, w')

-- what the connection sees
abbrev pub view : {D : Type 0} → Conn → World D → D
view Conn.pool w = w.db
view Conn.tx_conn w = w.tx

module _ {D E : Type 0} where
  abbrev pub begin_tx : Action D E (Unit {0})
  begin_tx w = (ok tt, record w { tx = w.db })

  abbrev pub guard : Bool → E → Action D E (Unit {0})
  guard true e w = (ok tt, w)
  guard false e w = (err (service e), w)

  abbrev pub clock_now : Action D E Time
  clock_now w = (ok w.clock, w)

  abbrev pub pop_fault : List Bool → World D → Result E (Unit {0}) × World D
  pop_fault [] w = (ok tt, w)
  pop_fault (false ∷ rest) w = (ok tt, record w { faults = rest })
  pop_fault (true ∷ rest) w = (err (database DbError.unavailable), record w { faults = rest })

  -- the next statement fails or goes through
  unfoldable pub attempt : Action D E (Unit {0})
  attempt w = pop_fault w.faults w

module _ {D E A : Type 0} where
  -- the effect of a committed statement on the copy of an open transaction
  abbrev pub mirror : Result E (A × D) → D → D
  mirror (ok (a, d)) _ = d
  mirror (err e) d = d

  abbrev pub store : Conn → (D → Result E (A × D)) → D → World D → World D
  store Conn.pool f d w = record w { db = d; tx = mirror (f w.tx) w.tx }
  store Conn.tx_conn f d w = record w { tx = d }

  abbrev pub run_exec :
      Conn → (D → Result E (A × D)) → Result E (A × D) → World D → Result E A × World D
  run_exec c f (ok (a, d)) w = (ok a, store c f d w)
  run_exec c f (err e) w = (err e, w)

  -- a statement that reads
  unfoldable pub query : Conn → (D → Result E A) → Action D E A
  unfolding attempt
  query c f = attempt >> λ w. (f (view c w), w)

  -- a statement that writes: all of it, or nothing where a constraint refuses
  unfoldable pub exec : Conn → (D → Result E (A × D)) → Action D E A
  unfolding attempt
  exec c f = attempt >> λ w. run_exec c f (f (view c w)) w

  abbrev pub commit_tx : A → Action D E A
  commit_tx a w = (ok a, record w { db = w.tx })

  -- `db.Transaction(fn)`: an error of `fn` rolls the transaction back and is returned
  unfoldable pub transaction : Action D E A → Action D E A
  unfolding attempt
  transaction fn = do attempt; begin_tx; a ← fn; attempt; commit_tx a
