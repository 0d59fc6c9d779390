-- ===== src/Exec.antt =====
-- What a Python script does: it returns or raises, over a world that it changes.
use cdc_pipeline.Base.{ℕ, String}

-- The exceptions that the scripts can raise.
pub data Exn : Type 0 where
  http_error : ℕ → String → Exn
  url_error : String → Exn
  key_error : String → Exn
  type_error : Exn
  value_error : Exn

pub data Outcome {ℓ} (A : Type ℓ) : Type ℓ where
  ok : A → Outcome A
  raised : Exn → Outcome A

abbrev pub Exec {ℓ} : Type ℓ → Type ℓ → Type ℓ
Exec W A = W → Outcome A × W

module _ {ℓ} {W A B : Type ℓ} where
  abbrev pub continue : (A → Exec W B) → Outcome A × W → Outcome B × W
  continue f (ok a, w) = f a w
  continue f (raised e, w) = (raised e, w)

  infixl 5 ◌>>=◌ ◌>>◌
  abbrev pub ◌>>=◌ : Exec W A → (A → Exec W B) → Exec W B
  ◌>>=◌ m f w = continue f (m w)

  abbrev pub ◌>>◌ : Exec W A → Exec W B → Exec W B
  m >> k = m >>= λ _. k

module _ {ℓ} {W A : Type ℓ} where
  abbrev pub pure : A → Exec W A
  pure a w = (ok a, w)

  abbrev pub raise : Exn → Exec W A
  raise e w = (raised e, w)

  -- `try: m except: handler`, for the exceptions that the handler does not raise again.
  abbrev pub rescue : (Exn → Exec W A) → Outcome A × W → Outcome A × W
  rescue handler (ok a, w) = (ok a, w)
  rescue handler (raised e, w) = handler e w
