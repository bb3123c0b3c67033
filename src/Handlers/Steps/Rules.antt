-- ===== src/Handlers/Steps/Rules.antt =====
-- Rules for what a handler's steps ensure: a property of the state wherever the handler answers with
-- success, by one rule for each kind of step.
use argo_messaging.Base.{
  Text, Error, Bool, true, false, Option, none, some, Result, ok, err, panic, ◌≡◌, refl,
}
use argo_messaging.Handlers.{Outcome, done, Body, unreadable, malformed, parsed, ApiError}
use argo_messaging.Handlers.Steps.{
  Step, next, stop, M, ◌>>=◌, run, finished, export, refuse_if, refuse_error, value_or, result_or,
  read_body,
}

-- `I` of the state, if the outcome is a success.
abbrev pub OnSuccess : {W O : Type 0} → (W → Type 0) → W → Outcome O → Type 0
OnSuccess {O} I w o = (j : O) → o ≡ done j → I w

-- `P` of the value and the state where the handler goes on, and `I` where it ends with success.
abbrev pub Ensures : {W O A : Type 0} → (W → Type 0) → (A → W → Type 0) → Step W O A → Type 0
Ensures I P (next w a) = P a w
Ensures I P (stop w o) = OnSuccess I w o

module _ {W : Type 0} (I : W → Type 0) where
  pub >>=-Ensures :
      {A B : Type 0} (Q : A → W → Type 0) (P : B → W → Type 0) (m : M W Text A) (f : A → M W Text B)
      (w : W)
      → Ensures I Q (m w)
      → ((a : A) (w' : W) → Q a w' → Ensures I P (f a w'))
      → Ensures I P ((m >>= f) w)
  >>=-Ensures {A} {B} Q P m f w h k = go (m w) h
    where
      go :
          (r : Step W Text A)
          → Ensures I Q r
          → Ensures I P
              (elim r as (λ x. Step W Text B) [ next w' a ↦ f a w' | stop w' o ↦ stop w' o ])
      go (next w' a) h = k a w' h
      go (stop w' o) h = h

  -- One step and what follows it, which starts in the same state.
  module _ {B : Type 0} (P : B → W → Type 0) where
    pub refuse_if-Ensures :
        (b : Bool) (e : ApiError) (k : Unit {0} → M W Text B) (w : W)
        → (b ≡ false → Ensures I P (k tt w))
        → Ensures I P ((refuse_if b e >>= k) w)
    refuse_if-Ensures true e k w h = λ j c. cc
    refuse_if-Ensures false e k w h = h refl

    pub refuse_error-Ensures :
        (to_error : Text → ApiError) (e : Error) (k : Unit {0} → M W Text B) (w : W)
        → (e ≡ none → Ensures I P (k tt w))
        → Ensures I P ((refuse_error to_error e >>= k) w)
    refuse_error-Ensures to_error none k w h = h refl
    refuse_error-Ensures to_error (some e) k w h = λ j c. cc

    pub value_or-Ensures :
        {A : Type 0} (e : ApiError) (o : Option A) (k : A → M W Text B) (w : W)
        → ((a : A) → o ≡ some a → Ensures I P (k a w))
        → Ensures I P ((value_or e o >>= k) w)
    value_or-Ensures e none k w h = λ j c. cc
    value_or-Ensures e (some a) k w h = h a refl

    pub result_or-Ensures :
        {A : Type 0} (to_error : Text → ApiError) (r : Result A) (k : A → M W Text B) (w : W)
        → ((a : A) → r ≡ ok a → Ensures I P (k a w))
        → Ensures I P ((result_or to_error r >>= k) w)
    result_or-Ensures to_error (ok a) k w h = h a refl
    result_or-Ensures to_error (err e) k w h = λ j c. cc
    result_or-Ensures to_error panic k w h = λ j c. cc

    pub read_body-Ensures :
        {A : Type 0} (e : ApiError) (b : Body A) (k : A → M W Text B) (w : W)
        → ((a : A) → b ≡ parsed a → Ensures I P (k a w))
        → Ensures I P ((read_body e b >>= k) w)
    read_body-Ensures e unreadable k w h = λ j c. cc
    read_body-Ensures e malformed k w h = λ j c. cc
    read_body-Ensures e (parsed a) k w h = h a refl

  -- The last step, where `I` holds already.
  pub export-Ensures :
      {A : Type 0} (o : Option Text) (P : A → W → Type 0) (w : W) → I w → Ensures I P (export o w)
  export-Ensures none P w h = λ j c. cc
  export-Ensures (some json) P w h = λ j c. h

  -- A whole handler.
  pub run-Ensures :
      (m : M W Text (Unit {0})) (P : Unit {0} → W → Type 0) (w : W)
      → Ensures I P (m w)
      → OnSuccess I (run m w).0 (run m w).1
  run-Ensures m P w h = go (m w) h
    where
      go : (r : Step W Text (Unit {0})) → Ensures I P r → OnSuccess I (finished r).0 (finished r).1
      go (next w' a) h = λ j c. cc
      go (stop w' o) h = h
