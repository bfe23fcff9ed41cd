-- ===== src/Tracking/Config.antt =====
-- KVConfig, which tmp/ uses and does not hold: what its users rely on. A value that has been set is
-- found under its key, other keys keep their values, and saving changes none.
use libsimple.Base.{◌≡◌, ◌≢◌, Option, none, some, Bytes}
use libsimple.Base.Int.{ℤ}

pub record KvConfig (C : Type 0) : Type 0 where
  pub get_value : C → Bytes → Option Bytes
  pub set_value : C → Bytes → Bytes → C
  pub set_int : C → Bytes → ℤ → C
  pub save_as : C → C
  pub get_value-set_value : (c : C) (k v : Bytes) → get_value (set_value c k v) k ≡ some v
  pub get_value-other :
      (c : C) (k k' v : Bytes) → k ≢ k' → get_value (set_value c k v) k' ≡ get_value c k'
  pub get_value-save_as : (c : C) (k : Bytes) → get_value (save_as c) k ≡ get_value c k

-- `get_value(key, default)`
unfoldable pub or_default : Bytes → Option Bytes → Bytes
or_default value none = value
or_default value (some v) = v
