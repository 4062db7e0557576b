-- ===== src/Kafka/Handler/Chain.antt =====
-- The order of the middlewares of a chain.
use bookstore_golang.Base.{◌≡◌, refl, ◌∙◌, ap, List, [], ◌∷◌, ◌++◌}
use bookstore_golang.Kafka.Handler.{Handler, Middleware, wrap_all, backwards, chain}

module _ {S : Type 0} where
  -- The first middleware is the outermost.
  abbrev pub nest : List (Middleware S) → Handler S → Handler S
  nest [] next = next
  nest (m ∷ ms) next = m (nest ms next)

  wrap_all-append :
      (ms ns : List (Middleware S)) (next : Handler S)
      → wrap_all (ms ++ ns) next ≡ wrap_all ns (wrap_all ms next)
  unfolding wrap_all
  wrap_all-append [] ns next = refl
  wrap_all-append (m ∷ ms) ns next = wrap_all-append ms ns (m next)

  pub chain_lem : (ms : List (Middleware S)) (next : Handler S) → chain ms next ≡ nest ms next
  unfolding chain backwards wrap_all
  chain_lem [] next = refl
  chain_lem (m ∷ ms) next = wrap_all-append (backwards ms) (m ∷ []) next ∙ ap m (chain_lem ms next)
