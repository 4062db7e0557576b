-- ===== src/Tests/Group.antt =====
-- The start and the shutdown of a consumer group.
use mathlib.Core.List.{List, Perm, reverse, reverse_perm}
use bookstore_golang.Base.{
  ℕ, ◌≡◌, refl, Bool, true, false, [], ◌∷◌, err, any, ◌==◌, nat_eq, ℕ_discrete,
}
use bookstore_golang.Base.Text.{Str, codes, str_eq, Str-discrete}
use bookstore_golang.Errors.{kafka_failed}
use bookstore_golang.Kafka.Settings.{default_config}
use bookstore_golang.Kafka.Group.{new_consumer_group, register, close, register_topic}
use bookstore_golang.Kafka.Group.Closed.{close-register, close-register_twice}

abbrev second_fails : ℕ → Bool
second_fails r = r == 1

-- Go visits the map from its end.
abbrev backwards : List (Str × ℕ) → List (Str × ℕ)
backwards = reverse

backwards_ranges : (m : List (Str × ℕ)) → Perm (backwards m) m
backwards_ranges m = reverse_perm m

close-register_example :
    let g = register (codes "h") (codes "a" ∷ codes "b" ∷ []) (new_consumer_group default_config) in
    let r = close backwards second_fails g in
    Perm r.1.closed (0 ∷ 1 ∷ []) × (r.0 ≡ err kafka_failed)
unfolding register register_topic new_consumer_group any Str-discrete ℕ_discrete
close-register_example =
    close-register backwards backwards_ranges second_fails (codes "h") default_config
      (codes "a" ∷ codes "b" ∷ []) ((refl, tt), (tt, tt))

close-register_twice_example :
    let g' =
      register
        (codes "second")
        (codes "a" ∷ [])
        (register (codes "first") (codes "a" ∷ []) (new_consumer_group default_config)) in
    (any (λ x. x.reader == 0) g'.workers ≡ true)
    × (any (λ r. r == 0) (close backwards second_fails g').1.closed ≡ false)
unfolding new_consumer_group
close-register_twice_example =
    close-register_twice backwards backwards_ranges second_fails (codes "first") (codes "second")
      (codes "a") (new_consumer_group default_config) tt tt
