-- ===== src/Deploy/Step.antt =====
-- Steps that read and write the daemon's state, and may fail: what a `Result` with `?` is to the
-- deploy code. A step that fails keeps what it had written before.
use Prim.Native.String.{String}
use denia.Prelude.{Option, none, some, Map, Outcome, ok, err}
use denia.Ingress.Routes.{Text, IngressError, RouteSpec, RouteTable}
use denia.Ingress.Pool.{Pools}
use denia.Deploy.Tables.{Tables}

pub data RepoError : Type 0 where
  sqlite : String → RepoError
  unique_violation unknown_project : RepoError

pub data DeployError : Type 0 where
  repo : RepoError → DeployError
  runtime artifact_acquire : String → DeployError
  health unsupported_service_source unsupported_git_source no_existing_artifact : DeployError
  ingress : IngressError → DeployError
  registry_not_found : DeployError
  secret_decrypt registry_auth_resolution : String → DeployError

-- The tables, the route snapshot, the live route table, the pools, and the state of all that the
-- deploy code calls and does not implement.
pub record Store (W : Type 0) : Type 0 where
  pub db : Tables
  pub snapshot : Map Text RouteSpec
  pub table : RouteTable
  pub pools : Pools
  pub world : W

abbrev pub Step : Type 0 → Type 0 → Type 0
Step W A = Store W → Outcome A DeployError × Store W

module _ {W : Type 0} where
  abbrev pub pure : {A : Type 0} → A → Step W A
  pure a s = (ok a, s)

  abbrev pub fail : {A : Type 0} → DeployError → Step W A
  fail e s = (err e, s)

  -- The value of an `Option`, or an error: `ok_or`.
  abbrev pub ok_or : {A : Type 0} → DeployError → Option A → Step W A
  ok_or e none = fail e
  ok_or e (some a) = pure a

  abbrev pub after :
      {A B : Type 0}
      → (A → Step W B)
      → Outcome A DeployError × Store W
      → Outcome B DeployError × Store W
  after f (ok a, s) = f a s
  after f (err e, s) = (err e, s)

  infixl 5 ◌>>=◌ ◌>>◌
  unfoldable pub ◌>>=◌ : {A B : Type 0} → Step W A → (A → Step W B) → Step W B
  ◌>>=◌ m f s = after f (m s)

  abbrev pub ◌>>◌ : {B : Type 0} → Step W (Unit {0}) → Step W B → Step W B
  m >> k = m >>= λ _. k

  -- A change that does not fail.
  abbrev pub modify : (Store W → Store W) → Step W (Unit {0})
  modify f s = (ok tt, f s)

  abbrev pub answered :
      {A : Type 0} → Store W → Outcome A DeployError × W → Outcome A DeployError × Store W
  answered s (o, w) = (o, record s { world = w })

  -- A call of what the world does.
  abbrev pub call : {A : Type 0} → (W → Outcome A DeployError × W) → Step W A
  call f s = answered s (f s.world)

  -- What the tables are after a run: `Q` holds with its value, or `X` after an error.
  abbrev pub Ensures :
      {A : Type 0}
      → (A → Tables → Type 0)
      → (Tables → Type 0)
      → Outcome A DeployError × Store W
      → Type 0
  Ensures Q X (ok a, s) = Q a s.db
  Ensures Q X (err e, s) = X s.db

  -- A run over tables with `P` ends so.
  pub record Triple {A : Type 0} (P : Tables → Type 0) (m : Step W A) (Q : A → Tables → Type 0)
      (X : Tables → Type 0) : Type 0 where
    pub runs : (s : Store W) → P s.db → Ensures Q X (m s)

  -- A run that keeps `P`, however it ends.
  abbrev pub Keeps : {A : Type 0} → (Tables → Type 0) → Step W A → Type 0
  Keeps P m = Triple P m (λ a. P) P

  pub Ensures-after :
      {A B : Type 0} (R : A → Tables → Type 0) (Q : B → Tables → Type 0) (X : Tables → Type 0)
      (f : A → Step W B) (o : Outcome A DeployError × Store W)
      → Ensures R X o
      → ((a : A) → Triple (R a) (f a) Q X)
      → Ensures Q X (after f o)
  Ensures-after R Q X f (ok a, s) h k = (k a).runs s h
  Ensures-after R Q X f (err e, s) h k = h

  pub Triple-bind :
      {A B : Type 0} {P : Tables → Type 0} {R : A → Tables → Type 0} {Q : B → Tables → Type 0}
      {X : Tables → Type 0} {m : Step W A} {f : A → Step W B}
      → Triple P m R X
      → ((a : A) → Triple (R a) (f a) Q X)
      → Triple P (m >>= f) Q X
  unfolding ◌>>=◌
  Triple-bind {R} {Q} {X} {m} {f} h k = record {
    runs = λ s p. Ensures-after R Q X f (m s) (h.runs s p) k;
  }

  -- A run whose result is only asked for the tables' property.
  pub Triple-pure :
      {A : Type 0} {a : A} {P : Tables → Type 0} {X : Tables → Type 0}
      → Triple P (pure a) (λ b. P) X
  Triple-pure = record { runs = λ s p. p }

  pub Triple-fail :
      {A : Type 0} {e : DeployError} {P : Tables → Type 0} {Q : A → Tables → Type 0}
      → Triple P (fail e) Q P
  Triple-fail = record { runs = λ s p. p }

  pub ok_or-Keeps :
      {A : Type 0} {P : Tables → Type 0} (e : DeployError) (o : Option A) → Keeps P (ok_or e o)
  ok_or-Keeps e none = record { runs = λ s p. p }
  ok_or-Keeps e (some a) = record { runs = λ s p. p }

  answered-Keeps :
      {A : Type 0} (P : Tables → Type 0) (s : Store W) (o : Outcome A DeployError × W)
      → P s.db
      → Ensures (λ a. P) P (answered s o)
  answered-Keeps P s (ok a, w) p = p
  answered-Keeps P s (err e, w) p = p

  pub call-Keeps :
      {A : Type 0} {P : Tables → Type 0} (f : W → Outcome A DeployError × W) → Keeps P (call f)
  call-Keeps {P} f = record { runs = λ s p. answered-Keeps P s (f s.world) p }

  Ensures-weaken :
      {A : Type 0} (Q : A → Tables → Type 0) (X Y : Tables → Type 0)
      (o : Outcome A DeployError × Store W)
      → ((db : Tables) → X db → Y db)
      → Ensures Q X o
      → Ensures Q Y o
  Ensures-weaken Q X Y (ok a, s) f h = h
  Ensures-weaken Q X Y (err e, s) f h = f s.db h

  pub Triple-weaken :
      {A : Type 0} {P : Tables → Type 0} {Q : A → Tables → Type 0} {X Y : Tables → Type 0}
      {m : Step W A}
      → ((db : Tables) → X db → Y db)
      → Triple P m Q X
      → Triple P m Q Y
  Triple-weaken {Q} {X} {Y} {m} f h = record {
    runs = λ s p. Ensures-weaken Q X Y (m s) f (h.runs s p);
  }

  pub Kept-db :
      {A : Type 0} (P : Tables → Type 0) (o : Outcome A DeployError × Store W)
      → Ensures (λ a. P) P o
      → P o.1.db
  Kept-db P (ok a, s) h = h
  Kept-db P (err e, s) h = h

-- What holds where a run succeeds.
abbrev pub IfOk : {W A : Type 0} → (A → Store W → Type 0) → Outcome A DeployError × Store W → Type 0
IfOk Q (ok a, s) = Q a s
IfOk Q (err e, s) = Unit {0}

pub IfOk-after :
    {W A B : Type 0} (R : A → Store W → Type 0) (Q : B → Store W → Type 0) (f : A → Step W B)
    (o : Outcome A DeployError × Store W)
    → IfOk R o
    → ((a : A) (s : Store W) → R a s → IfOk Q (f a s))
    → IfOk Q (after f o)
IfOk-after R Q f (ok a, s) h k = k a s h
IfOk-after R Q f (err e, s) h k = tt
