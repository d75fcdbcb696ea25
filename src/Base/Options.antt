-- ===== src/Base/Options.antt =====
-- Chains of lookups, each of which may find nothing.
use mathlib.Core.Option.{Option, none, some}

module _ {ℓ κ} {A : Type ℓ} {B : Type κ} where
  infixl 5 ◌>>=◌
  abbrev pub ◌>>=◌ : Option A → (A → Option B) → Option B
  some value >>= next = next value
  none >>= next = none
