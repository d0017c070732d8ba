-- ===== src/Session/Named.antt =====
-- Implementations of the interfaces of the session store: a keyring that lists its entries, with a
-- flag that makes it refuse to write, and texts that name what they were made from.
use arko.Base.{
  ℕ, String, Bool, true, false, ◌≡◌, refl, Option, none, some, List, [], ◌==◌, if◌then◌else◌, arith,
}
use arko.Base.Assoc.{lookup, insert, remove, lookup-insert, lookup-remove}
use arko.Session.External.{Keyring, Json}
use arko.Session.{Session, GlobalSettings}

pub data Named : Type 0 where
  session : Session → Named
  settings : GlobalSettings → Named
  names : List String → Named
  raw : List ℕ → Named

abbrev pub named_bytes : Named → List ℕ
named_bytes (raw bs) = bs
named_bytes _ = []

abbrev pub State : Type 0
State = Bool × List (String × Named)

abbrev pub set_named : State → String → Named → Option State
set_named (true, es) key v = none
set_named (false, es) key v = some (false, insert key v es)

pub get-set_named :
    (s r : State) (key j : String) (v : Named)
    → set_named s key v ≡ some r
    → lookup j r.1 ≡ (if key == j then some v else lookup j s.1)
get-set_named (true, es) r key j v h = absurd (none_ne r h)
  where
    none_ne : (t : State) → ◌≡◌ {A = Option State} none (some t) → ⊥
    none_ne t e = cc
get-set_named (false, es) r key j v h = ground (arith, lookup-insert key j v es)

pub get-delete_named :
    (s r : State) (key j : String)
    → ◌≡◌ {A = Option State} (some (s.0, remove key s.1)) (some r)
    → lookup j r.1 ≡ (if key == j then none else lookup j s.1)
get-delete_named s r key j h = ground (arith, lookup-remove key j s.1)

instance abbrev pub named : Keyring
named = record {
  Text = Named;
  bytes = named_bytes;
  text_of = raw;
  bytes-text_of = λ bs. refl;
  State = State;
  get = λ s key. lookup key s.1;
  set = set_named;
  delete = λ s key. some (s.0, remove key s.1);
  get-set = λ s r key j v h. get-set_named s r key j v h;
  get-delete = λ s r key j h. get-delete_named s r key j h;
}

abbrev pub session_of : Named → Option Session
session_of (session s) = some s
session_of _ = none

abbrev pub settings_of : Named → Option GlobalSettings
settings_of (settings s) = some s
settings_of _ = none

abbrev pub names_of : Named → Option (List String)
names_of (names s) = some s
names_of _ = none

instance abbrev pub session_json : Json Session
session_json = record { marshal = session; unmarshal = session_of; unmarshal-marshal = λ a. refl }

instance abbrev pub settings_json : Json GlobalSettings
settings_json = record {
  marshal = settings;
  unmarshal = settings_of;
  unmarshal-marshal = λ a. refl;
}

instance abbrev pub names_json : Json (List String)
names_json = record { marshal = names; unmarshal = names_of; unmarshal-marshal = λ a. refl }
