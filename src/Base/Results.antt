-- ===== src/Base/Results.antt =====
-- What an asynchronous operation settles to, and operations that run in a world which they change.

-- Why an operation rejected. `thrown` is an error of the user's own handler.
pub data Error : Type 0 where
  unreachable duplicate not_found not_connected thrown invalid : Error

pub data Result {ℓ} (A : Type ℓ) : Type ℓ where
  ok : A → Result A
  err : Error → Result A

-- An async function over a world of type `W`: it resolves or rejects, and leaves a world behind.
abbrev pub Exec {ℓ} : Type ℓ → Type ℓ → Type ℓ
Exec W A = W → Result A × W

module _ {ℓ} {W A : Type ℓ} where
  abbrev pub pure : A → Exec W A
  pure a w = (ok a, w)

  abbrev pub raise : Error → Exec W A
  raise e w = (err e, w)

  -- `try { … }`: what the block settled to, as a value.
  abbrev pub attempt : Exec W A → Exec W (Result A)
  attempt m w = (ok (m w).0, (m w).1)

module _ {ℓ} {W A B : Type ℓ} where
  abbrev pub continue : Result A → (A → Exec W B) → Exec W B
  continue (ok a) f w = f a w
  continue (err e) f w = (err e, w)

  infixl 5 ◌>>=◌ ◌>>◌
  abbrev pub ◌>>=◌ : Exec W A → (A → Exec W B) → Exec W B
  ◌>>=◌ m f w = continue (m w).0 f (m w).1

  abbrev pub ◌>>◌ : Exec W A → Exec W B → Exec W B
  ◌>>◌ m n w = continue (m w).0 (λ _. n) (m w).1
