-- ===== src/Base/Run.antt =====
-- The result of running C code on a state: a value and the next state, an access that C leaves
-- undefined, or fuel that ran out before the code returned.
use mathlib.Core.Path.{◌≡◌, refl, ap}

pub data Out {ℓ κ} (S : Type ℓ) (A : Type κ) : Type (ℓ ⊔ κ) where
  ok : A → S → Out S A
  fault : Out S A
  hang : Out S A

abbrev pub Cmd {ℓ κ} : Type ℓ → Type κ → Type (ℓ ⊔ κ)
Cmd S A = S → Out S A

module _ {ℓ κ} {S : Type ℓ} {A : Type κ} where
  abbrev pub pure : A → Cmd S A
  pure a s = ok a s

module _ {ℓ κ μ} {S : Type ℓ} {A : Type κ} {B : Type μ} where
  abbrev pub and_then : Out S A → (A → Cmd S B) → Out S B
  and_then (ok a s) k = k a s
  and_then fault k = fault
  and_then hang k = hang

  infixl 5 ◌>>=◌ ◌>>◌
  abbrev pub ◌>>=◌ : Cmd S A → (A → Cmd S B) → Cmd S B
  m >>= k = λ s. and_then (m s) k

  abbrev pub ◌>>◌ : Cmd S A → Cmd S B → Cmd S B
  m >> k = m >>= λ _. k

-- A command that returned, with what follows it.
pub and_then-ok {ℓ κ μ} :
    {S : Type ℓ} {A : Type κ} {B : Type μ} (k : A → Cmd S B) {r : Out S A} {a : A} {s : S}
    → r ≡ ok a s
    → and_then r k ≡ k a s
and_then-ok k e = ap (λ r. and_then r k) e

pub and_then_assoc {ℓ κ μ ν} :
    {S : Type ℓ} {A : Type κ} {B : Type μ} {C : Type ν} (r : Out S A) (k : A → Cmd S B)
    (l : B → Cmd S C)
    → and_then r (λ a s. and_then (k a s) l) ≡ and_then (and_then r k) l
and_then_assoc (ok a s) k l = refl
and_then_assoc fault k l = refl
and_then_assoc hang k l = refl

-- Total correctness of a run: it returns, with no undefined access and with the fuel it has, and
-- the value and the state satisfy a postcondition.
pub data Returns {S A : Type 0} (P : A → S → Type 0) : Out S A → Type 0 where
  returns : {a : A} {s : S} → P a s → Returns P (ok a s)

module _ {S A : Type 0} {P : A → S → Type 0} where
  pub and_then-Returns :
      {B : Type 0} {Q : B → S → Type 0} {r : Out S A} {k : A → Cmd S B}
      → Returns P r
      → ((a : A) (s : S) → P a s → Returns Q (k a s))
      → Returns Q (and_then r k)
  and_then-Returns (returns p) next = next _ _ p

  pub Returns-mono :
      {Q : A → S → Type 0} {r : Out S A}
      → Returns P r
      → ((a : A) (s : S) → P a s → Q a s)
      → Returns Q r
  Returns-mono (returns p) weaken = returns (weaken _ _ p)

  pub Returns-eq : {r : Out S A} → Returns P r → (a : A) × (s : S) × (r ≡ ok a s) × P a s
  Returns-eq (returns p) = (_, _, refl, p)
