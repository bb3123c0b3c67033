-- ===== src/Handlers/Steps.antt =====
-- A handler as a sequence of steps. A step may change the state, and it either gives a value to the
-- next step or ends the handler with what it has written: the `respondErr(...); return` of the source.
pub mod Rules
use argo_messaging.Base.{
  Text, Error, Bool, Option, none, some, Result, ok, err, panic, [], true, false,
}
use argo_messaging.Handlers.{
  Outcome, written, panicked, done, fail, Body, unreadable, malformed, parsed, ApiError,
  invalid_request_body, export_json,
}

pub data Step (W O A : Type 0) : Type 0 where
  next : W → A → Step W O A
  stop : W → Outcome O → Step W O A

abbrev pub M : Type 0 → Type 0 → Type 0 → Type 0
M W O A = W → Step W O A

infixl 5 ◌>>=◌ ◌>>◌
abbrev pub ◌>>=◌ : {W O A B : Type 0} → M W O A → (A → M W O B) → M W O B
◌>>=◌ m f w = elim (m w) [ next w' a ↦ f a w' | stop w' o ↦ stop w' o ]

abbrev pub ◌>>◌ : {W O B : Type 0} → M W O (Unit {0}) → M W O B → M W O B
m >> k = m >>= λ _. k

-- The end of a handler: one that comes to its last step has written nothing.
abbrev pub finished : {W O : Type 0} → Step W O (Unit {0}) → W × Outcome O
finished (next w a) = (w, written [])
finished (stop w o) = (w, o)

abbrev pub run : {W O : Type 0} → M W O (Unit {0}) → W → W × Outcome O
run m w = finished (m w)

-- Ends the handler.
abbrev pub answer : {W O A : Type 0} → Outcome O → M W O A
answer o w = stop w o

-- The last step: the JSON form of a result.
abbrev pub export : {W A : Type 0} → Option Text → M W Text A
export none = answer (fail export_json)
export (some json) = answer (done json)

abbrev pub pure : {W O A : Type 0} → A → M W O A
pure a w = next w a

-- `if test { respondErr(e); return }`
abbrev pub refuse_if : {W O : Type 0} → Bool → ApiError → M W O (Unit {0})
refuse_if true e w = stop w (fail e)
refuse_if false e w = next w tt

-- `if err != nil { respondErr(...); return }`, where the response depends on the error.
abbrev pub refuse_error : {W O : Type 0} → (Text → ApiError) → Error → M W O (Unit {0})
refuse_error answer none w = next w tt
refuse_error answer (some e) w = stop w (fail (answer e))

-- A value, or an error that ends the handler.
abbrev pub value_or : {W O A : Type 0} → ApiError → Option A → M W O A
value_or e (some a) w = next w a
value_or e none w = stop w (fail e)

abbrev pub result_or : {W O A : Type 0} → (Text → ApiError) → Result A → M W O A
result_or answer (ok a) w = next w a
result_or answer (err e) w = stop w (fail (answer e))
result_or answer panic w = stop w panicked

-- Reading the request's body, and taking it apart.
abbrev pub read_body : {W O A : Type 0} → ApiError → Body A → M W O A
read_body e unreadable w = stop w (fail invalid_request_body)
read_body e malformed w = stop w (fail e)
read_body e (parsed a) w = next w a

-- A call on the store, in a handler that has no other state.
abbrev pub call : {S O A : Type 0} → (S → S × A) → M S O A
call f s = let (s', a) = f s in next s' a

abbrev pub get : {S O A : Type 0} → (S → A) → M S O A
get f s = next s (f s)

-- A call on the store, which is the first part of the state.
abbrev pub on_store : {S P O A : Type 0} → (S → S × A) → M (S × P) O A
on_store f (s, p) = let (s', a) = f s in next (s', p) a

-- A call that reads the store.
abbrev pub read_store : {S P O A : Type 0} → (S → A) → M (S × P) O A
read_store f (s, p) = next (s, p) (f s)

-- A call on the second part of the state.
abbrev pub on_second : {S P O A : Type 0} → (P → P × A) → M (S × P) O A
on_second f (s, p) = let (p', a) = f p in next (s, p') a
