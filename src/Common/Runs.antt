-- ===== src/Common/Runs.antt =====
-- A computation that may fault, and what holds of its result.
use mathlib.Core.Option
use esp32_mesh.Common.{◌≡◌, refl, Bool, true, false, Option, none, some, if◌then◌else◌}

-- There is a result, and it satisfies `P`.
abbrev pub Runs {ℓ} : {A : Type ℓ} → (A → Type 0) → Option A → Type 0
Runs P none = ⊥
Runs P (some x) = P x

pub if-Holds {ℓ κ} :
    {A : Type ℓ} (P : A → Type κ) (b : Bool) {x y : A} → P x → P y → P (if b then x else y)
if-Holds P true p q = p
if-Holds P false p q = q

module _ {ℓ} {A B : Type ℓ} (P : A → Type 0) (Q : B → Type 0) where
  pub map-Runs :
      (f : A → B) (o : Option A) → ((x : A) → P x → Q (f x)) → Runs P o → Runs Q (Option.map f o)
  map-Runs f none step r = r
  map-Runs f (some x) step r = step x r

  pub bind-Runs :
      (f : A → Option B) (o : Option A)
      → ((x : A) → P x → Runs Q (f x))
      → Runs P o
      → Runs Q (Option.bind o f)
  unfolding Option.bind
  bind-Runs f none step r = r
  bind-Runs f (some x) step r = step x r

pub Runs-result {ℓ} :
    {A : Type ℓ} (P : A → Type 0) (o : Option A) → Runs P o → (x : A) × ((o ≡ some x) × P x)
Runs-result P none r = absurd r
Runs-result P (some x) r = (x, (refl, r))
