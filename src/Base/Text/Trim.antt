-- ===== src/Base/Text/Trim.antt =====
-- `strings.TrimSpace` leaves a text with no white space at either end, and such a text alone.
use mathlib.Core.Path.{◌≡◌, refl}
use mathlib.Core.Logic.{inl, inr}
use mathlib.Core.Bool.{false}
use mathlib.Core.List.{[], ◌∷◌, map}
use bookstore_golang.Base.Equality.{Bool-cases}
use bookstore_golang.Base.Lists.{All}
use bookstore_golang.Base.Text.{Str, Unicode, trim, trim_left, trim_right, keep_right}
use Prim.Native.Nat.{ℕ}

module _ (u : Unicode) where
  -- No white space at the front.
  abbrev pub FrontVisible : Str → Type 0
  FrontVisible [] = Unit
  FrontVisible (c ∷ s) = u.is_space c ≡ false

  -- No white space at the back.
  abbrev pub BackVisible : Str → Type 0
  BackVisible [] = Unit
  BackVisible (c ∷ []) = u.is_space c ≡ false
  BackVisible (c ∷ d ∷ s) = BackVisible (d ∷ s)

  pub trim_left-FrontVisible : (s : Str) → FrontVisible (trim_left u s)
  unfolding trim_left
  trim_left-FrontVisible [] = tt
  trim_left-FrontVisible (c ∷ s) = elim (Bool-cases (u.is_space c)) [
    | inl e ↦ rw e (trim_left-FrontVisible s)
    | inr e ↦ rw e e
  ]

  keep_right-BackVisible : (c : ℕ) (s : Str) → BackVisible s → BackVisible (keep_right u c s)
  keep_right-BackVisible c [] h = elim (Bool-cases (u.is_space c)) [
    | inl e ↦ rw e tt
    | inr e ↦ rw e e
  ]
  keep_right-BackVisible c (d ∷ s) h = h

  pub trim_right-BackVisible : (s : Str) → BackVisible (trim_right u s)
  unfolding trim_right
  trim_right-BackVisible [] = tt
  trim_right-BackVisible (c ∷ s) =
      keep_right-BackVisible c (trim_right u s) (trim_right-BackVisible s)

  keep_right-FrontVisible :
      (c : ℕ) (s : Str) → u.is_space c ≡ false → FrontVisible (keep_right u c s)
  keep_right-FrontVisible c [] h = rw h h
  keep_right-FrontVisible c (d ∷ s) h = h

  trim_right-FrontVisible : (s : Str) → FrontVisible s → FrontVisible (trim_right u s)
  unfolding trim_right
  trim_right-FrontVisible [] h = tt
  trim_right-FrontVisible (c ∷ s) h = keep_right-FrontVisible c (trim_right u s) h

  pub trim-FrontVisible : (s : Str) → FrontVisible (trim u s)
  unfolding trim
  trim-FrontVisible s = trim_right-FrontVisible (trim_left u s) (trim_left-FrontVisible s)

  pub trim-BackVisible : (s : Str) → BackVisible (trim u s)
  unfolding trim
  trim-BackVisible s = trim_right-BackVisible (trim_left u s)

  trim_left-id : (s : Str) → FrontVisible s → trim_left u s ≡ s
  unfolding trim_left
  trim_left-id [] h = refl
  trim_left-id (c ∷ s) h = rw h

  trim_right-id : (s : Str) → BackVisible s → trim_right u s ≡ s
  unfolding trim_right
  trim_right-id [] h = refl
  trim_right-id (c ∷ []) h = rw h
  trim_right-id (c ∷ d ∷ s) h = rw (trim_right-id (d ∷ s) h)

  pub trim-id : (s : Str) → FrontVisible s → BackVisible s → trim u s ≡ s
  unfolding trim
  trim-id s f b = rw (trim_left-id s f) (trim_right-id s b)

  pub trim_idem : (s : Str) → trim u (trim u s) ≡ trim u s
  trim_idem s = trim-id (trim u s) (trim-FrontVisible s) (trim-BackVisible s)

  -- A map that turns no visible sign into white space keeps both ends visible.
  module _ (f : ℕ → ℕ) (keep : (c : ℕ) → u.is_space c ≡ false → u.is_space (f c) ≡ false) where
    pub map-FrontVisible : (s : Str) → FrontVisible s → FrontVisible (map f s)
    map-FrontVisible [] h = tt
    map-FrontVisible (c ∷ s) h = keep c h

    pub map-BackVisible : (s : Str) → BackVisible s → BackVisible (map f s)
    map-BackVisible [] h = tt
    map-BackVisible (c ∷ []) h = keep c h
    map-BackVisible (c ∷ d ∷ s) h = map-BackVisible (d ∷ s) h

  -- What holds of each sign of a text holds of each sign of its middle.
  module _ (P : ℕ → Type 0) where
    trim_left-All : (s : Str) → All P s → All P (trim_left u s)
    unfolding trim_left
    trim_left-All [] h = tt
    trim_left-All (c ∷ s) h = elim (Bool-cases (u.is_space c)) [
      | inl e ↦ rw e (trim_left-All s h.1)
      | inr e ↦ rw e h
    ]

    keep_right-All : (c : ℕ) (s : Str) → P c → All P s → All P (keep_right u c s)
    keep_right-All c [] p h = elim (Bool-cases (u.is_space c)) [
      | inl e ↦ rw e tt
      | inr e ↦ rw e (p, tt)
    ]
    keep_right-All c (d ∷ s) p h = (p, h)

    trim_right-All : (s : Str) → All P s → All P (trim_right u s)
    unfolding trim_right
    trim_right-All [] h = tt
    trim_right-All (c ∷ s) h = keep_right-All c (trim_right u s) h.0 (trim_right-All s h.1)

    pub trim-All : (s : Str) → All P s → All P (trim u s)
    unfolding trim
    trim-All s h = trim_right-All (trim_left u s) (trim_left-All s h)
