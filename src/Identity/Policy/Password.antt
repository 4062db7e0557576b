-- ===== src/Identity/Policy/Password.antt =====
-- What a password that `ValidatePassword` accepts looks like.
use bookstore_golang.Base.{
  ℕ, ◌≤◌, ◌≡◌, ◌↔◌, Bool, true, false, not, ◌&&◌, [], ◌∷◌, ◌⊎◌, inl, inr, ok, arith,
}
use bookstore_golang.Base.Text.{Str, Unicode, byte_len}
use bookstore_golang.Identity.Policy.{
  RegisterPolicy, Flags, no_flags, scan, scan_sign, validate_password,
}

-- Some sign of the text is of the kind.
abbrev pub Has : (ℕ → Bool) → Str → Type 0
Has kind [] = ⊥
Has kind (c ∷ s) = (kind c ≡ true) ⊎ Has kind s

-- The kinds as the `switch` tells them apart.
abbrev pub counts_upper : Unicode → ℕ → Bool
counts_upper u c = u.is_upper c

abbrev pub counts_lower : Unicode → ℕ → Bool
counts_lower u c = not (u.is_upper c) && u.is_lower c

abbrev pub counts_digit : Unicode → ℕ → Bool
counts_digit u c = not (u.is_upper c) && (not (u.is_lower c) && u.is_digit c)

module _ (u : Unicode) where
  scan_upper :
      (s : Str) (f : Flags)
      → ((scan u s f).has_upper ≡ true) ↔ ((f.has_upper ≡ true) ⊎ Has (counts_upper u) s)
  unfolding scan
  scan_upper [] f = (λ h. inl h, λ h. elim h [ inl e ↦ e | inr e ↦ absurd e ])
  scan_upper (c ∷ s) f =
      let ih = scan_upper s (scan_sign u c f) in
      (λ h. ground (arith, ih.0 h), λ h. ih.1 (ground arith))

  scan_lower :
      (s : Str) (f : Flags)
      → ((scan u s f).has_lower ≡ true) ↔ ((f.has_lower ≡ true) ⊎ Has (counts_lower u) s)
  unfolding scan
  scan_lower [] f = (λ h. inl h, λ h. elim h [ inl e ↦ e | inr e ↦ absurd e ])
  scan_lower (c ∷ s) f =
      let ih = scan_lower s (scan_sign u c f) in
      (λ h. ground (arith, ih.0 h), λ h. ih.1 (ground arith))

  scan_digit :
      (s : Str) (f : Flags)
      → ((scan u s f).has_digit ≡ true) ↔ ((f.has_digit ≡ true) ⊎ Has (counts_digit u) s)
  unfolding scan
  scan_digit [] f = (λ h. inl h, λ h. elim h [ inl e ↦ e | inr e ↦ absurd e ])
  scan_digit (c ∷ s) f =
      let ih = scan_digit s (scan_sign u c f) in
      (λ h. ground (arith, ih.0 h), λ h. ih.1 (ground arith))

  no_left : {A : Type 0} → (false ≡ true) ⊎ A → A
  no_left (inl e) = absurd (cc)
  no_left (inr a) = a

  flags_of_ok :
      (p : RegisterPolicy) (s : Str)
      → validate_password u p s ≡ ok tt
      → (p.min_pass_length ≤ byte_len s)
        × (byte_len s ≤ p.max_pass_length)
        × ((scan u s no_flags).has_upper ≡ true)
        × ((scan u s no_flags).has_lower ≡ true)
        × ((scan u s no_flags).has_digit ≡ true)
  unfolding validate_password
  flags_of_ok p s h = ground arith

  -- ValidatePassword accepts a password exactly when its length in bytes is within the bounds of
  -- the policy and it has an upper-case letter, a lower-case letter and a digit.
  pub validate_password-ok_iff :
      (p : RegisterPolicy) (s : Str)
      → (validate_password u p s ≡ ok tt) ↔ (
          (p.min_pass_length ≤ byte_len s)
          × (byte_len s ≤ p.max_pass_length)
          × Has (counts_upper u) s
          × Has (counts_lower u) s
          × Has (counts_digit u) s)
  unfolding validate_password
  validate_password-ok_iff p s =
      let (u0, u1) = scan_upper s no_flags in
      let (l0, l1) = scan_lower s no_flags in
      let (d0, d1) = scan_digit s no_flags in
      (
        λ h.
            let (a, b, x, y, z) = flags_of_ok p s h in
            (a, b, no_left (u0 x), no_left (l0 y), no_left (d0 z)),
        λ h. let x = u1 (inr h.2) in let y = l1 (inr h.3) in let z = d1 (inr h.4) in ground arith,
      )
