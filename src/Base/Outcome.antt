-- ===== src/Base/Outcome.antt =====
-- Go's `(T, error)` results, and calls that read and write a state: what a call wrote stays written
-- when it returns an error.
use mathlib.Core.Path.{◌≡◌, refl}
use mathlib.Core.Bool.{Bool, true, false}

pub data Result (E : Type 0) (A : Type 0) : Type 0 where
  ok : A → Result E A
  err : E → Result E A

-- A call over the state `S`, with errors of `E`.
abbrev pub Action : Type 0 → Type 0 → Type 0 → Type 0
Action S E A = S → Result E A × S

abbrev pub pure : {S E A : Type 0} → A → Action S E A
pure a s = (Result.ok a, s)

abbrev pub fail : {S E A : Type 0} → E → Action S E A
fail e s = (Result.err e, s)

abbrev pub get : {S E : Type 0} → Action S E S
get s = (Result.ok s, s)

abbrev pub put : {S E : Type 0} → S → Action S E (Unit {0})
put s' s = (Result.ok tt, s')

-- A finished call handed to what follows it.
abbrev pub bind_result : {S E A B : Type 0} → Result E A × S → (A → Action S E B) → Result E B × S
bind_result (Result.ok a, s) f = f a s
bind_result (Result.err e, s) f = (Result.err e, s)

infixl 5 ◌>>=◌ ◌>>◌
abbrev pub ◌>>=◌ : {S E A B : Type 0} → Action S E A → (A → Action S E B) → Action S E B
◌>>=◌ m f s = bind_result (m s) f

abbrev pub ◌>>◌ : {S E A B : Type 0} → Action S E A → Action S E B → Action S E B
m >> k = m >>= λ _. k

-- `if err := m; err != nil { handler }`, the handler choosing the call's error anew.
abbrev pub catch_result : {S E A : Type 0} → Result E A × S → (E → Action S E A) → Result E A × S
catch_result (Result.ok a, s) h = (Result.ok a, s)
catch_result (Result.err e, s) h = h e s

abbrev pub catch : {S E A : Type 0} → Action S E A → (E → Action S E A) → Action S E A
catch m h s = catch_result (m s) h

abbrev pub guard : {S E : Type 0} → Bool → E → Action S E (Unit {0})
guard true e = pure tt
guard false e = fail e

-- The error is logged and dropped.
abbrev pub ignore : {S E A : Type 0} → Action S E A → Action S E (Unit {0})
ignore m s = (Result.ok tt, (m s).1)

-- Inversion of a call that ended well.
pub >>=-eq-ok :
    {S E A B : Type 0} (m : Action S E A) (f : A → Action S E B) (s : S) {b : B} {t : S}
    → (m >>= f) s ≡ (Result.ok b, t)
    → (a : A) × (s' : S) × (m s ≡ (Result.ok a, s')) × (f a s' ≡ (Result.ok b, t))
>>=-eq-ok {S} {E} {A} {B} m f s {b} {t} h = go (m s) h
  where
    go :
        (r : Result E A × S)
        → bind_result r f ≡ (Result.ok b, t)
        → (a : A) × (s' : S) × (r ≡ (Result.ok a, s')) × (f a s' ≡ (Result.ok b, t))
    go (Result.ok a, s') h = (a, s', refl, h)
    go (Result.err e, s') h = absurd (cc)

-- The rest of a call that ended well.
pub after :
    {S E A B Q : Type 0} (m : Action S E A) (f : A → Action S E B) (s : S) {b : B} {t : S}
    → (m >>= f) s ≡ (Result.ok b, t)
    → ((a : A) (s' : S) → m s ≡ (Result.ok a, s') → f a s' ≡ (Result.ok b, t) → Q)
    → Q
after m f s h k = let (a, s', first, rest) = >>=-eq-ok m f s h in k a s' first rest
