-- ===== src/Base/Outcome.antt =====
-- What a C function that returns a boolean does to its state: TRUE with a value, FALSE, or no
-- return: a fault, the end of the program, or a loop beyond the rounds that it was given.
-- The proposition that is false, at any level.
pub data Empty {ℓ} : Type ℓ where

pub data Outcome {ℓ κ} (S : Type ℓ) (A : Type κ) : Type (ℓ ⊔ κ) where
  done : A → S → Outcome S A
  failed : S → Outcome S A
  stuck : Outcome S A

module _ {ℓ κ μ} {S : Type ℓ} {A : Type κ} {B : Type μ} where
  -- `if (! f (...)) return FALSE;` and what follows it.
  infixl 5 ◌then◌
  abbrev pub ◌then◌ : Outcome S A → (A → S → Outcome S B) → Outcome S B
  done a s then f = f a s
  failed s then f = failed s
  stuck then f = stuck

-- The state that a call leaves, if it returns.
abbrev pub state_of {ℓ κ} : {S : Type ℓ} {A : Type κ} → S → Outcome S A → S
state_of d (done a s) = s
state_of d (failed s) = s
state_of d stuck = d

-- Total correctness: the call returns, with `P` of its value and state if it is TRUE, and with
-- `Q` of its state if it is FALSE.
abbrev pub Ends {ℓ κ μ} :
    {S : Type ℓ} {A : Type κ} → (A → S → Type μ) → (S → Type μ) → Outcome S A → Type μ
Ends P Q (done a s) = P a s
Ends P Q (failed s) = Q s
Ends P Q stuck = Empty

-- The rule for `if (! f (...)) return FALSE;`.
pub Ends-then {ℓ κ μ ν} :
    {S : Type ℓ} {A : Type κ} {B : Type μ} (P : A → S → Type ν) (P' : B → S → Type ν)
    (Q : S → Type ν) (o : Outcome S A) (f : A → S → Outcome S B)
    → Ends P Q o
    → ((a : A) (s : S) → P a s → Ends P' Q (f a s))
    → Ends P' Q (o then f)
Ends-then P P' Q (done a s) f h k = k a s h
Ends-then P P' Q (failed s) f h k = h
Ends-then P P' Q stuck f h k = h

pub Ends-map {ℓ κ μ} :
    {S : Type ℓ} {A : Type κ} (P P' : A → S → Type μ) (Q : S → Type μ) (o : Outcome S A)
    → ((a : A) (s : S) → P a s → P' a s)
    → Ends P Q o
    → Ends P' Q o
Ends-map P P' Q (done a s) k h = k a s h
Ends-map P P' Q (failed s) k h = h
Ends-map P P' Q stuck k h = h
