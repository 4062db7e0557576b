-- ===== src/Kafka/Group/Closed.antt =====
-- Which readers a shutdown closes.
use mathlib.Core.List.{append_assoc, append-nil, map-append, Perm, Permᴰ}
use mathlib.Core.List.Perm
use mathlib.Core.Bool.{Bool-set}
use mathlib.Core.Logic.{∥∥₁_elim}
use bookstore_golang.Base.{
  ℕ, suc, ◌<◌, ◌≡◌, refl, sym, ◌∙◌, Bool, true, false, ◌||◌, List, [], ◌∷◌, ◌++◌, map, any, All,
  All-both, Pairwise, ◌==◌, nat_eq, ==-refl, if◌then◌else◌, Bool-cases, inl, inr, arith, ok, err,
}
use bookstore_golang.Base.Text.{Str, str_eq}
use bookstore_golang.Errors.{kafka_failed}
use bookstore_golang.Kafka.Settings.{Config}
use bookstore_golang.Kafka.Group.{
  new_consumer_group, ConsumerGroup, Worker, set_reader, register_topic, register, close_readers,
  close,
}

abbrev pub has_topic : Str → List (Str × ℕ) → Bool
has_topic topic = any (λ e. e.0 == topic)

set_reader_fresh :
    (topic : Str) (reader : ℕ) (m : List (Str × ℕ))
    → has_topic topic m ≡ false
    → set_reader topic reader m ≡ m ++ ((topic, reader) ∷ [])
unfolding set_reader any
set_reader_fresh topic reader [] h = refl
set_reader_fresh topic reader ((t, r) ∷ m) h = ground (arith, set_reader_fresh topic reader m)

has_topic-append :
    (topic t : Str) (r : ℕ) (m : List (Str × ℕ))
    → has_topic topic m ≡ false
    → (t == topic) ≡ false
    → has_topic topic (m ++ ((t, r) ∷ [])) ≡ false
unfolding any
has_topic-append topic t r [] h k = ground arith
has_topic-append topic t r ((t', r') ∷ m) h k = ground (arith, has_topic-append topic t r m)

close_readers_lem :
    (fails : ℕ → Bool) (m : List (Str × ℕ)) (closed : List ℕ)
    → close_readers fails m closed ≡ (any (λ e. fails e.1) m, closed ++ map (λ e. e.1) m)
unfolding close_readers any
close_readers_lem fails [] closed = simp append-nil
close_readers_lem fails ((t, r) ∷ m) closed =
    rw (close_readers_lem fails m (closed ++ (r ∷ []))) (simp append_assoc)

Permᴰ-any : {A : Type 0} (p : A → Bool) {l m : List A} → Permᴰ l m → any p l ≡ any p m
unfolding any
Permᴰ-any p Permᴰ.nil = refl
Permᴰ-any p (Permᴰ.cons e h) = rw (e, Permᴰ-any p h) refl
Permᴰ-any p (Permᴰ.swap e e') = rw (e, e') (ground arith)
Permᴰ-any p (Permᴰ.trans h k) = Permᴰ-any p h ∙ Permᴰ-any p k

Perm-any : {A : Type 0} (p : A → Bool) {l m : List A} → Perm l m → any p l ≡ any p m
Perm-any p h = ∥∥₁_elim h (Bool-set _ _) (Permᴰ-any p)

fresh_of_none : (topics : List Str) → All (λ t. has_topic t [] ≡ false) topics
unfolding any
fresh_of_none [] = tt
fresh_of_none (t ∷ topics) = (refl, fresh_of_none topics)

any-map :
    {A B : Type 0} (p : B → Bool) (f : A → B) (l : List A) → any p (map f l) ≡ any (λ x. p (f x)) l
unfolding any
any-map p f [] = refl
any-map p f (x ∷ l) = ground (arith, any-map p f l)

none_at : (a : ℕ) (m : List (Str × ℕ)) → All (λ e. e.1 < a) m → any (λ e. e.1 == a) m ≡ false
unfolding any
none_at a [] h = refl
none_at a ((t, r) ∷ m) h = ground (arith, h.0, none_at a m h.1)

any-append : {A : Type 0} (p : A → Bool) (l m : List A) → any p (l ++ m) ≡ (any p l || any p m)
unfolding any
any-append p [] m = refl
any-append p (x ∷ l) m = ground (arith, any-append p l m)

any-middle :
    {A : Type 0} (p : A → Bool) (l : List A) (y z : A)
    → p y ≡ true
    → any p (l ++ (y ∷ []) ++ (z ∷ [])) ≡ true
unfolding any
any-middle p [] y z h = ground arith
any-middle p (x ∷ l) y z h = ground (arith, any-middle p l y z h)

none_below : (a : ℕ) (l : List ℕ) → All (λ r. r < a) l → any (λ r. r == a) l ≡ false
unfolding any
none_below a [] h = refl
none_below a (r ∷ l) h = ground (arith, h.0, none_below a l h.1)

-- A reader that is replaced at once is not in the map.
set_reader_at :
    (topic : Str) (a b : ℕ) (m : List (Str × ℕ))
    → All (λ e. e.1 < a) m
    → (b == a) ≡ false
    → any (λ e. e.1 == a) (set_reader topic b (set_reader topic a m)) ≡ false
unfolding set_reader any
set_reader_at topic a b [] h ne = ground (arith, ==-refl topic)
set_reader_at topic a b ((t, r) ∷ m) h ne = elim (Bool-cases (t == topic)) [
  | inl same ↦ rw (same, ==-refl topic) (ground (arith, none_at a m h.1))
  | inr other ↦ rw (other, other) (ground (arith, h.0, set_reader_at topic a b m h.1 ne))
]

module _ {H : Type 0} where
  -- The map holds the readers of the loops, in order.
  abbrev pub Tracked : ConsumerGroup H → Type 0
  Tracked g = map (λ e. e.1) g.readers ≡ map (λ (x : Worker H). x.reader) g.workers

  register_topic-Tracked :
      (wrapped : H) (topic : Str) (g : ConsumerGroup H)
      → has_topic topic g.readers ≡ false
      → Tracked g
      → Tracked (register_topic wrapped topic g)
  unfolding register_topic
  register_topic-Tracked wrapped topic g fresh tracked =
      rw (set_reader_fresh topic g.next g.readers fresh) (simp (map-append, tracked))

  register-Tracked :
      (wrapped : H) (topics : List Str) (g : ConsumerGroup H)
      → Pairwise (λ s t. (s == t) ≡ false) topics
      → All (λ t. has_topic t g.readers ≡ false) topics
      → Tracked g
      → Tracked (register wrapped topics g)
  unfolding register
  register-Tracked wrapped [] g apart fresh tracked = tracked
  register-Tracked wrapped (topic ∷ topics) g apart fresh tracked =
      register-Tracked wrapped topics (register_topic wrapped topic g) apart.1
        (rw (set_reader_fresh topic g.next g.readers fresh.0) (
          All-both topics (λ t a b. has_topic-append t topic g.next g.readers a b) fresh.1 apart.0))
        (register_topic-Tracked wrapped topic g fresh.0 tracked)

  register-closed :
      (wrapped : H) (topics : List Str) (g : ConsumerGroup H)
      → (register wrapped topics g).closed ≡ g.closed
  unfolding register register_topic
  register-closed wrapped [] g = refl
  register-closed wrapped (topic ∷ topics) g =
      register-closed wrapped topics (register_topic wrapped topic g)

  module _ (range : List (Str × ℕ) → List (Str × ℕ))
      (ranges : (m : List (Str × ℕ)) → Perm (range m) m) where
    close-Tracked :
        (fails : ℕ → Bool) (g : ConsumerGroup H)
        → Tracked g
        → g.closed ≡ []
        → Perm (close range fails g).1.closed (map (λ x. x.reader) g.workers)
          × ((close range fails g).0
              ≡ (if any fails (map (λ x. x.reader) g.workers) then err kafka_failed else ok tt))
    unfolding close
    close-Tracked fails g tracked fresh =
        rw
          (
            close_readers_lem fails (range g.readers) g.closed,
            fresh,
            sym tracked,
            any-map fails (λ e. e.1) g.readers,
            Perm-any (λ e. fails e.1) (ranges g.readers),
          )
          (Perm.map (λ e. e.1) (ranges g.readers), refl)

    -- Whatever the order in which Go visits the map of the readers, after the registration of one
    -- handler for topics that are pairwise different on a new consumer group, Close closes the
    -- readers of the loops that were started, each as often as it is the reader of a loop, also if
    -- some of these calls fail, and returns an error exactly when one of them fails.
    pub close-register :
        (fails : ℕ → Bool) (wrapped : H) (cfg : Config) (topics : List Str)
        → Pairwise (λ s t. (s == t) ≡ false) topics
        → let g = register wrapped topics (new_consumer_group cfg) in
          let r = close range fails g in
          Perm r.1.closed (map (λ x. x.reader) g.workers)
          × (r.0 ≡ (if any fails (map (λ x. x.reader) g.workers) then err kafka_failed else ok tt))
    unfolding new_consumer_group
    close-register fails wrapped cfg topics apart =
        close-Tracked fails (register wrapped topics (new_consumer_group cfg))
          (register-Tracked wrapped topics (new_consumer_group cfg) apart (fresh_of_none topics)
            refl)
          (register-closed wrapped topics (new_consumer_group cfg))

    -- Whatever the order in which Go visits the map of the readers, where the readers that a
    -- consumer group holds and has closed were numbered before, and two handlers are registered
    -- for one topic, the loop of the first is started on a reader that Close does not close.
    pub close-register_twice :
        (fails : ℕ → Bool) (first second : H) (topic : Str) (g : ConsumerGroup H)
        → All (λ e. e.1 < g.next) g.readers
        → All (λ r. r < g.next) g.closed
        → let g' = register second (topic ∷ []) (register first (topic ∷ []) g) in
          (any (λ x. x.reader == g.next) g'.workers ≡ true)
          × (any (λ r. r == g.next) (close range fails g').1.closed ≡ false)
    unfolding register register_topic close
    close-register_twice fails first second topic g past before =
        let left = set_reader topic (suc g.next) (set_reader topic g.next g.readers) in
        (
          any-middle (λ x. x.reader == g.next) g.workers _ _ (==-refl g.next),
          rw
              (
                close_readers_lem fails (range left) g.closed,
                any-append (λ r. r == g.next) g.closed (map (λ e. e.1) (range left)),
                none_below g.next g.closed before,
                any-map (λ r. r == g.next) (λ e. e.1) (range left),
                Perm-any (λ e. e.1 == g.next) (ranges left),
              )
              (set_reader_at topic g.next (suc g.next) g.readers past (ground arith)),
        )
