-- ===== src/Package/Feature/Each.antt =====
-- Statements about each connector of a `SonicDb`.
use sonic_utility.Base.{Bool, true, false, if◌then◌else◌, Option, none, some}
use sonic_utility.Package.Feature.{SonicDb, for_connectors, on_connector}

module _ {ℓ} {Db : Type ℓ} where
  abbrev pub EveryOption : (Db → Type 0) → Option Db → Type 0
  EveryOption P none = Unit
  EveryOption P (some db) = P db

  -- `P` holds of each connector.
  pub record Every (P : Db → Type 0) (s : SonicDb Db) : Type 0 where
    pub initial : P s.initial
    pub persistent : EveryOption P s.persistent
    pub running : EveryOption P s.running

  abbrev pub OnOption : (Db → Db → Type 0) → Option Db → Option Db → Type 0
  OnOption R none none = Unit
  OnOption R none (some b) = ⊥
  OnOption R (some a) none = ⊥
  OnOption R (some a) (some b) = R a b

  -- The same connectors are there, and `R` relates each before to itself after.
  pub record OnEach (R : Db → Db → Type 0) (s s' : SonicDb Db) : Type 0 where
    pub initial : R s.initial s'.initial
    pub persistent : OnOption R s.persistent s'.persistent
    pub running : OnOption R s.running s'.running

  on_connector-OnOption :
      (P : Db → Type 0) (R : Db → Db → Type 0) (body : Db → Db)
      → ((db : Db) → P db → R db (body db))
      → (o : Option Db) → EveryOption P o
      → OnOption R o (on_connector body o)
  on_connector-OnOption P R body h none p = tt
  on_connector-OnOption P R body h (some db) p = h db p

  -- A loop over the connectors does to each what its body does.
  pub for_connectors-OnEach :
      (P : Db → Type 0) (R : Db → Db → Type 0) (body : Db → Db)
      → ((db : Db) → P db → R db (body db))
      → (s : SonicDb Db) → Every P s
      → OnEach R s (for_connectors body s)
  for_connectors-OnEach P R body h s p = record {
    initial = h s.initial p.initial;
    persistent = on_connector-OnOption P R body h s.persistent p.persistent;
    running = on_connector-OnOption P R body h s.running p.running;
  }

  OnOption-trans :
      (R Q T : Db → Db → Type 0)
      → ((a b c : Db) → R a b → Q b c → T a c)
      → (a b c : Option Db) → OnOption R a b
      → OnOption Q b c
      → OnOption T a c
  OnOption-trans R Q T h none none none r q = tt
  OnOption-trans R Q T h none none (some c) r q = q
  OnOption-trans R Q T h none (some b) c r q = absurd r
  OnOption-trans R Q T h (some a) none c r q = absurd r
  OnOption-trans R Q T h (some a) (some b) none r q = q
  OnOption-trans R Q T h (some a) (some b) (some c) r q = h a b c r q

  pub OnEach-trans :
      (R Q T : Db → Db → Type 0)
      → ((a b c : Db) → R a b → Q b c → T a c)
      → (s s' s'' : SonicDb Db) → OnEach R s s'
      → OnEach Q s' s''
      → OnEach T s s''
  OnEach-trans R Q T h s s' s'' r q = record {
    initial = h s.initial s'.initial s''.initial r.initial q.initial;
    persistent =
        OnOption-trans R Q T h s.persistent s'.persistent s''.persistent r.persistent q.persistent;
    running = OnOption-trans R Q T h s.running s'.running s''.running r.running q.running;
  }

  OnOption-refl : (R : Db → Db → Type 0) → ((db : Db) → R db db) → (o : Option Db) → OnOption R o o
  OnOption-refl R h none = tt
  OnOption-refl R h (some db) = h db

  pub OnEach-refl : (R : Db → Db → Type 0) → ((db : Db) → R db db) → (s : SonicDb Db) → OnEach R s s
  OnEach-refl R h s = record {
    initial = h s.initial;
    persistent = OnOption-refl R h s.persistent;
    running = OnOption-refl R h s.running;
  }

  pub if-OnEach :
      (R : Db → Db → Type 0) (b : Bool) (s x y : SonicDb Db)
      → OnEach R s x
      → OnEach R s y
      → OnEach R s (if b then x else y)
  if-OnEach R true s x y hx hy = hx
  if-OnEach R false s x y hx hy = hy

  always : (o : Option Db) → EveryOption (λ _. Unit) o
  always none = tt
  always (some db) = tt

  -- The trivial condition.
  pub every : (s : SonicDb Db) → Every (λ _. Unit) s
  every s = record { initial = tt; persistent = always s.persistent; running = always s.running }
