-- ===== src/Service.antt =====
-- A service call: it reads and writes both databases and may raise. What was committed before a
-- raise stays. The parts of the environment that are not in the repository are arguments.
use pruet_web_dev.Base.{ℕ, ◌≡◌, Bool, true, false, Option, none, some}
use pruet_web_dev.Text.{Str, lower}
use pruet_web_dev.Models.{Pg}
use pruet_web_dev.Models.Guards.{Constraint}
use pruet_web_dev.Mongo.{Mongo, Delivery}
use pruet_web_dev.Errors.{Exc}

pub record World : Type 0 where
  pub pg : Pg
  pub mongo : Mongo

-- `object_id` and `hex` are bson's `ObjectId(raw)` and `str(oid)`; `net` is the network to MongoDB;
-- `pg_fault` is what the driver raises before the commit of the call's transaction, if anything;
-- `late_fault` is what it raises once the server has committed: the answer to the commit is lost, or
-- the row cannot be read again (never an IntegrityError, which the server raises before);
-- `read_fault` is what the SELECT of the idempotency check raises, and `reread_fault` that of the
-- winning order;
-- `names_key` says of which violated constraints the error text contains "idempotency_key";
-- `now` is the clock, and `token n` the n-th `uuid4().hex` piece drawn.
pub record Env : Type 0 where
  pub object_id : Str → Option ℕ
  pub hex : ℕ → Str
  pub net : ℕ → Delivery
  pub pg_fault : Option Exc
  pub late_fault : Option Exc
  pub read_fault : Option Exc
  pub reread_fault : Option Exc
  pub names_key : Constraint → Bool
  pub now : ℕ
  pub token : ℕ → Str

-- what bson documents: printing and reading an id are inverse, up to the case of the hex digits
pub record IsBson (env : Env) : Type 0 where
  pub object_id-hex : (oid : ℕ) → env.object_id (env.hex oid) ≡ some oid
  pub hex-object_id : (raw : Str) (oid : ℕ) → env.object_id raw ≡ some oid → env.hex oid ≡ lower raw

pub data Result (A : Type 0) : Type 0 where
  ok : A → Result A
  err : Exc → Result A

abbrev pub Service : Type 0 → Type 0
Service A = World → Result A × World

module _ {A : Type 0} where
  abbrev pub pure : A → Service A
  pure a w = (ok a, w)

  abbrev pub raise : Exc → Service A
  raise e w = (err e, w)

  abbrev pub gets : (World → A) → Service A
  gets f w = (ok (f w), w)

  abbrev pub lift : Result A → Service A
  lift r w = (r, w)

infixl 5 ◌>>=◌ ◌>>◌
abbrev pub ◌>>=◌ : {A B : Type 0} → Service A → (A → Service B) → Service B
◌>>=◌ m f w = let (r, w') = m w in elim r [ ok a ↦ f a w' | err e ↦ (err e, w') ]

abbrev pub ◌>>◌ : {A B : Type 0} → Service A → Service B → Service B
m >> k = m >>= λ _. k

abbrev pub raise_if : Bool → Exc → Service (Unit {0})
raise_if true e w = (err e, w)
raise_if false e w = (ok tt, w)

abbrev pub or_raise : {A : Type 0} → Option A → Exc → Service A
or_raise none e w = (err e, w)
or_raise (some a) e w = (ok a, w)

abbrev pub modify : (World → World) → Service (Unit {0})
modify f w = (ok tt, f w)
