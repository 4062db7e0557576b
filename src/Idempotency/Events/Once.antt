-- ===== src/Idempotency/Events/Once.antt =====
-- An event is processed once by a consumer.
use bookstore_golang.Base.{
  ℕ, suc, ◌≡◌, ◌≢◌, refl, ◌∙◌, Bool, true, false, not, ==-refl, some, List, [], ◌∷◌, ◌++◌, ok, any,
  arith, Bool-cases, inl, inr,
}
use bookstore_golang.Base.Text.{Str, str_eq, Unicode, trim}
use bookstore_golang.Platform.Redis.{Redis}
use bookstore_golang.Database.{World, Db, execute, attempt}
use bookstore_golang.Idempotency.Events.{
  is_event, query_try_mark_processed, try_mark_processed, try_process_event,
}

any-append :
    {A : Type 0} (p : A → Bool) (l : List A) (x : A) → p x ≡ true → any p (l ++ (x ∷ [])) ≡ true
unfolding any
any-append p [] x h = ground arith
any-append p (y ∷ l) x h = ground (arith, any-append p l x h)

marked :
    (c e : Str) (at now id : ℕ) (d : Db)
    → any (is_event c e) (query_try_mark_processed c e at now id d).1.processed_events ≡ true
unfolding query_try_mark_processed
marked c e at now id d = elim (Bool-cases (any (is_event c e) d.processed_events)) [
  | inl seen ↦ rw seen seen
  | inr fresh ↦ rw fresh (
      any-append (is_event c e) d.processed_events (c, e, at)
        (ground (arith, ==-refl c, ==-refl e)))
]

module _ {V : Type 0} {R : Redis V} (u : Unicode) (c e : Str) (named : trim u c ≢ [])
    (known : trim u e ≢ []) where
  process :
      (m : Str) (w : World R)
      → w.faults ≡ []
      → let r = query_try_mark_processed c e w.now w.now w.ids w.db in
        try_process_event u c e (some m) w ≡ (r.0, record w { db = r.1; ids = suc w.ids })
  unfolding try_process_event try_mark_processed execute attempt
  process m w calm = ground arith

  again :
      (m : Str) (w : World R)
      → w.faults ≡ []
      → any (is_event c e) w.db.processed_events ≡ true
      → try_process_event u c e (some m) w ≡ (ok false, record w { ids = suc w.ids })
  unfolding query_try_mark_processed
  again m w calm seen = process m w calm ∙ rw seen refl

  newly :
      (w : World R)
      → (query_try_mark_processed c e w.now w.now w.ids w.db).0
        ≡ ok (not (any (is_event c e) w.db.processed_events))
  unfolding query_try_mark_processed
  newly w = ground arith

  -- With calls that do not fail, names that are not blank and metadata that can be coded,
  -- TryProcessEvent lets an event through exactly when its consumer has not marked it before, and
  -- a second call right after it does not let it through and changes no row.
  pub try_process_event_once :
      (m m' : Str) (w : World R)
      → w.faults ≡ []
      → let r = try_process_event u c e (some m) w in
        (r.0 ≡ ok (not (any (is_event c e) w.db.processed_events)))
        × (try_process_event u c e (some m') r.1 ≡ (ok false, record (r.1) { ids = suc r.1.ids }))
  try_process_event_once m m' w calm =
      let r = query_try_mark_processed c e w.now w.now w.ids w.db in
      let w' = record w { db = r.1; ids = suc w.ids } in
      rw (process m w calm) (newly w, again m' w' calm (marked c e w.now w.now w.ids w.db))
