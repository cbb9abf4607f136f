-- ===== src/Tenant/History.antt =====
-- Histories of calls: the version only grows, and the counters count.
use nexus_core_devops_engine.Base.{
  ℕ, zero, suc, ◌+◌, ◌≤◌, ◌<◌, ◌≡◌, ◌∙◌, subst, ◌≢◌, List, u64_mod, arith, some,
}
use nexus_core_devops_engine.Tenant.Component.{
  Component, SchemaResult, ok, FieldValue, apply_schema_update, process_frame,
}

-- A history from `c`: the number of frames that returned, that of the accepted updates, and the
-- component behind them.
pub data Run (c : Component) : ℕ → ℕ → Component → Type 0 where
  here : Run c zero zero c
  updated :
      {n m : ℕ} {s t : Component}
      → Run c n m s
      → (raw : List ℕ) → apply_schema_update raw s ≡ (t, ok)
      → Run c n (suc m) t
  refused :
      {n m : ℕ} {s t : Component}
      → Run c n m s
      → (raw : List ℕ) (r : SchemaResult) → apply_schema_update raw s ≡ (t, r)
      → r ≢ ok
      → Run c n m t
  framed :
      {n m : ℕ} {s t : Component}
      → Run c n m s
      → (frame : List ℕ) (version : ℕ) (values : List FieldValue)
      → process_frame frame version s ≡ some (t, values)
      → Run c (suc n) m t

-- What one call of each function does to the version and the counters.
record Advanced (s t : Component) (frames updates : ℕ) : Type 0 where
  version : s.schema.version + updates ≤ t.schema.version
  counted :
      s.processed + s.errors + frames < u64_mod
      → t.processed + t.errors ≡ s.processed + s.errors + frames
  updates_counted :
      s.schema_updates + updates < u64_mod → t.schema_updates ≡ s.schema_updates + updates

update_step :
    (raw : List ℕ) (s t : Component) → apply_schema_update raw s ≡ (t, ok) → Advanced s t 0 1
unfolding apply_schema_update
update_step raw s t e = record {
  version = ground arith;
  counted = λ h. ground arith;
  updates_counted = λ h. ground arith;
}

refused_step :
    (raw : List ℕ) (s t : Component) (r : SchemaResult)
    → apply_schema_update raw s ≡ (t, r)
    → r ≢ ok
    → s ≡ t
unfolding apply_schema_update
refused_step raw s t r e ne = ground arith

frame_step :
    (frame : List ℕ) (version : ℕ) (s t : Component) (values : List FieldValue)
    → process_frame frame version s ≡ some (t, values)
    → Advanced s t 1 0
unfolding process_frame
frame_step frame version s t values e = record {
  version = ground arith;
  counted = λ h. ground arith;
  updates_counted = λ h. ground arith;
}

-- A history with `m` accepted updates raises the version by at least `m`: no version is installed
-- twice, and none is rolled back.
pub Run-version :
    (c : Component) {n m : ℕ} {t : Component}
    → Run c n m t
    → c.schema.version + m ≤ t.schema.version
Run-version c here = omega arith
Run-version c (updated {s = s} {t = t} run raw e) =
    omega (arith, Run-version c run, (update_step raw s t e).version)
Run-version c (refused {m = m} {s = s} {t = t} run raw r e ne) =
    subst (λ (x : Component). c.schema.version + m ≤ x.schema.version) (refused_step raw s t r e ne)
      (Run-version c run)
Run-version c (framed {s = s} {t = t} run frame version values e) =
    omega (arith, Run-version c run, (frame_step frame version s t values e).version)

-- While the counters do not wrap, every frame that returns is counted once, as processed or as an
-- error, and the updates counted are exactly those that were accepted.
pub Run-stats :
    (c : Component) {n m : ℕ} {t : Component}
    → Run c n m t
    → c.processed + c.errors + n < u64_mod
    → c.schema_updates + m < u64_mod
    → (t.processed + t.errors ≡ c.processed + c.errors + n)
      × (t.schema_updates ≡ c.schema_updates + m)
Run-stats c here h k = omega arith
Run-stats c (updated {s = s} {t = t} run raw e) h k =
    let ih = Run-stats c run h (omega arith) in
    let step = update_step raw s t e in
    (
      step.counted (omega (arith, ih.0)) ∙ omega (arith, ih.0),
      step.updates_counted (omega (arith, ih.1)) ∙ omega (arith, ih.1),
    )
Run-stats c (refused {n = n} {m = m} {s = s} {t = t} run raw r e ne) h k =
    subst
      (λ (x : Component).
        (x.processed + x.errors ≡ c.processed + c.errors + n)
        × (x.schema_updates ≡ c.schema_updates + m))
      (refused_step raw s t r e ne) (Run-stats c run h k)
Run-stats c (framed {s = s} {t = t} run frame version values e) h k =
    let ih = Run-stats c run (omega arith) k in
    let step = frame_step frame version s t values e in
    (
      step.counted (omega (arith, ih.0)) ∙ omega (arith, ih.0),
      step.updates_counted (omega (arith, ih.1)) ∙ omega (arith, ih.1),
    )
