-- ===== src/Base/Pairs.antt =====
-- Lists every two rows of which are in a relation, and what updates and appended rows keep.
use mathlib.Core.Path.{◌≡◌}
use mathlib.Core.Bool.{Bool, false}
use mathlib.Core.List.{List, [], ◌∷◌, ◌++◌}
use mathlib.Core.Option.{none}
use native.Mathlib.Omega.{arith}
use bookstore_golang.Base.Equality.{if◌then◌else◌}
use bookstore_golang.Base.Lists.{All, find, update, any}

module _ {A : Type 0} where
  -- Every two rows are in the relation.
  abbrev pub Pairwise : (A → A → Type 0) → List A → Type 0
  Pairwise R [] = Unit {0}
  Pairwise R (x ∷ l) = All (R x) l × Pairwise R l

  pub any-false : (p : A → Bool) (l : List A) → any p l ≡ false → All (λ x. p x ≡ false) l
  unfolding any
  any-false p [] h = tt
  any-false p (x ∷ l) h = (ground arith, any-false p l (ground arith))

  pub find-none : (p : A → Bool) (l : List A) → find p l ≡ none → All (λ x. p x ≡ false) l
  unfolding find
  find-none p [] h = tt
  find-none p (x ∷ l) h = (ground arith, find-none p l (ground arith))

  pub All-both :
      {P Q S : A → Type 0} (l : List A) → ((x : A) → P x → Q x → S x) → All P l → All Q l → All S l
  All-both [] f p q = tt
  All-both (x ∷ l) f p q = (f x p.0 q.0, All-both l f p.1 q.1)

  module _ (R : A → A → Type 0) where
    pub Pairwise-append :
        (l : List A) (y : A) → Pairwise R l → All (λ x. R x y) l → Pairwise R (l ++ (y ∷ []))
    Pairwise-append [] y h k = (tt, tt)
    Pairwise-append (x ∷ l) y h k = (go l h.0, Pairwise-append l y h.1 k.1)
      where
        go : (m : List A) → All (R x) m → All (R x) (m ++ (y ∷ []))
        go [] a = (k.0, tt)
        go (z ∷ m) a = (a.0, go m a.1)

    pub Pairwise-update :
        (Q : A → Type 0) (p : A → Bool) (f : A → A) (l : List A)
        → ((x y : A) → Q x → Q y → R x y → R (if p x then f x else x) (if p y then f y else y))
        → All Q l
        → Pairwise R l
        → Pairwise R (update p f l)
    unfolding update
    Pairwise-update Q p f [] step q h = tt
    Pairwise-update Q p f (x ∷ l) step q h = (go l q.1 h.0, Pairwise-update Q p f l step q.1 h.1)
      where
        go : (m : List A) → All Q m → All (R x) m → All (R (if p x then f x else x)) (update p f m)
        go [] a b = tt
        go (y ∷ m) a b = (step x y q.0 a.0 b.0, go m a.1 b.1)

pub All-update :
    {A : Type 0} {P : A → Type 0} (Q : A → Type 0) (p : A → Bool) (f : A → A) (l : List A)
    → ((x : A) → P x → Q (if p x then f x else x))
    → All P l
    → All Q (update p f l)
unfolding update
All-update Q p f [] step h = tt
All-update Q p f (x ∷ l) step h = (step x h.0, All-update Q p f l step h.1)

pub All-append_one :
    {A : Type 0} (P : A → Type 0) (l : List A) (y : A) → All P l → P y → All P (l ++ (y ∷ []))
All-append_one P [] y h k = (k, tt)
All-append_one P (x ∷ l) y h k = (h.0, All-append_one P l y h.1 k)

pub All-weaken :
    {A : Type 0} {P Q : A → Type 0} (l : List A) → ((x : A) → P x → Q x) → All P l → All Q l
All-weaken [] f h = tt
All-weaken (x ∷ l) f h = (f x h.0, All-weaken l f h.1)
