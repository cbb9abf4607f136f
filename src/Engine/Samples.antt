-- ===== src/Engine/Samples.antt =====
-- The aggregate: a bounded buffer of the latest samples, percentiles that are samples, and one entry
-- for each active slot.
use mathlib.Core.List.{append-nil, append_assoc}
use nexus_core_devops_engine.Base.{
  ltb, leb→le, leb→lt, subst, sym, drop_add, map, ℕ, zero, suc, ◌+◌, ◌-◌, ◌/◌, ◌%◌, ◌≤◌, ◌<◌, ◌≡◌,
  ◌≢◌, refl, ap, ◌∙◌, ◌⊎◌, inl, inr, false, List, [], ◌∷◌, ◌++◌, length, get_or, drop, leb, ◌==◌,
  ==_iff, arith, Bool-cases, length-append, length-drop, Memᴰ, Memᴰ-cons, Memᴰ-get_or,
}
use nexus_core_devops_engine.Base.Float.{Float}
use nexus_core_devops_engine.Engine.Agg.{
  Agg, lat_samples_cap, tenant_pool, touch, retain, second, insert, sort, push_sample, record_query,
  p99_index, p99_latency_us,
}

length-insert : (x : ℕ) (xs : List ℕ) → length (insert x xs) ≡ suc (length xs)
unfolding insert
length-insert x [] = refl
length-insert x (y ∷ ys) = ground (arith, length-insert x ys)

length-sort : (xs : List ℕ) → length (sort xs) ≡ length xs
unfolding sort
length-sort [] = refl
length-sort (x ∷ xs) = omega (arith, length-insert x (sort xs), length-sort xs)

mem-insert : (a x : ℕ) (xs : List ℕ) → Memᴰ a (insert x xs) → Memᴰ a (x ∷ xs)
unfolding insert
mem-insert a x [] m = m
mem-insert a x (y ∷ ys) m = elim (Bool-cases (leb x y)) [
  | inl le ↦ rw le at m
  | inr gt ↦ ground (
    arith,
    (Memᴰ-cons a y (insert x ys)).0 (rw gt at m),
    mem-insert a x ys,
    Memᴰ-cons a x ys,
    Memᴰ-cons a x (y ∷ ys),
    Memᴰ-cons a y ys,
  )
]

mem-sort : (a : ℕ) (xs : List ℕ) → Memᴰ a (sort xs) → Memᴰ a xs
unfolding sort
mem-sort a [] m = m
mem-sort a (x ∷ xs) m =
    ground
      (arith, mem-insert a x (sort xs) m, Memᴰ-cons a x (sort xs), Memᴰ-cons a x xs, mem-sort a xs)

length-pos : (xs : List ℕ) → xs ≢ [] → 0 < length xs
length-pos [] h = absurd (h refl)
length-pos (x ∷ xs) h = omega arith

p99_index-lt : (fl : Float) (n : ℕ) → 0 < n → p99_index fl n < n
unfolding p99_index
p99_index-lt fl n h = omega arith

-- With at least one sample, the percentile that is shown is a recorded sample in microseconds,
-- whatever index the floats compute: it is cut off at the last one.
pub p99_latency_us-sample :
    (fl : Float) (a : Agg fl.F)
    → a.lat_ns ≢ []
    → (x : ℕ) × Memᴰ x a.lat_ns × (p99_latency_us fl a ≡ fl.fdiv (fl.of_u64 x) (fl.ratio 1000 1))
unfolding p99_latency_us
p99_latency_us-sample fl a filled =
    let n = length a.lat_ns in
    let i = p99_index fl n in
    let long : 0 < n = length-pos a.lat_ns filled in
    let short : (n == 0) ≡ false = ground arith in
    let inside : i < length (sort a.lat_ns) =
      omega (arith, p99_index-lt fl n long, length-sort a.lat_ns) in
    (
      get_or (sort a.lat_ns) i 0,
      mem-sort _ a.lat_ns (Memᴰ-get_or (sort a.lat_ns) i 0 inside),
      rw short,
    )

-- A query as the worker records it.
pub record Query : Type 0 where
  pub now : ℕ
  pub tenant_id : ℕ
  pub lat_ns : ℕ
  pub docs : ℕ

unfoldable pub record_all : (fl : Float) → List Query → Agg fl.F → Agg fl.F
record_all fl [] a = a
record_all fl (q ∷ qs) a = record_all fl qs (record_query fl q.now q.tenant_id q.lat_ns q.docs a)

-- The samples are the latest of all that were recorded, and no more than the cap.
pub record Window (all samples : List ℕ) : Type 0 where
  pub dropped : ℕ
  pub within : dropped ≤ length all
  pub latest : samples ≡ drop dropped all
  pub bounded : length samples ≤ lat_samples_cap

drop-snoc : (k x : ℕ) (xs : List ℕ) → k ≤ length xs → drop k xs ++ x ∷ [] ≡ drop k (xs ++ x ∷ [])
drop-snoc zero x xs h = refl
drop-snoc (suc k) x [] h = absurd (omega arith)
drop-snoc (suc k) x (y ∷ ys) h = drop-snoc k x ys (omega arith)

push_sample-Window :
    (x : ℕ) (all samples : List ℕ)
    → Window all samples
    → Window (all ++ x ∷ []) (push_sample x samples)
unfolding push_sample
push_sample-Window x all samples w =
    let grown = length-append all (x ∷ []) in
    let held : length samples ≡ length all - w.dropped =
      ap length w.latest ∙ length-drop w.dropped all in
    elim (Bool-cases (leb lat_samples_cap (length samples))) [
      | inl full ↦
          let q = length samples / 4 in
          let k = w.dropped + q in
          let fit : k ≤ length all = omega (arith, w.within, held) in
          let moved : drop q samples ≡ drop k all =
            ap (drop q) w.latest ∙ sym (drop_add w.dropped q all) in
          rw full (record {
            dropped = k;
            within = omega arith;
            latest = ap (λ ys. ys ++ x ∷ []) moved ∙ drop-snoc k x all fit;
            bounded = omega (
              arith,
              length-append (drop q samples) (x ∷ []),
              length-drop q samples,
              leb→le _ _ full,
              w.bounded,
            );
          })
      | inr more ↦ rw more (record {
        dropped = w.dropped;
        within = omega (arith, w.within);
        latest = ap (λ ys. ys ++ x ∷ []) w.latest ∙ drop-snoc w.dropped x all w.within;
        bounded = omega (arith, length-append samples (x ∷ []), leb→lt _ _ more);
      })
    ]

-- Each slot has one entry, and the slots are those of the pool.
abbrev HasSlot : ℕ → List (ℕ × ℕ) → Type 0
HasSlot s [] = ⊥
HasSlot s (p ∷ ps) = (s ≡ p.0) ⊎ HasSlot s ps

abbrev pub IsSlotMap : List (ℕ × ℕ) → Type 0
IsSlotMap [] = Unit
IsSlotMap (p ∷ ps) = (p.0 < tenant_pool) × (¬ HasSlot p.0 ps) × IsSlotMap ps

HasSlot-touch :
    (s slot now : ℕ) (ps : List (ℕ × ℕ)) → HasSlot s (touch slot now ps) → (s ≡ slot) ⊎ HasSlot s ps
unfolding touch
HasSlot-touch s slot now [] h = ground arith
HasSlot-touch s slot now ((p, t) ∷ ps) h = ground (arith, HasSlot-touch s slot now ps)

touch-IsSlotMap :
    (slot now : ℕ) (ps : List (ℕ × ℕ))
    → slot < tenant_pool
    → IsSlotMap ps
    → IsSlotMap (touch slot now ps)
unfolding touch
touch-IsSlotMap slot now [] lt h = (lt, λ e. e, tt)
touch-IsSlotMap slot now ((p, t) ∷ ps) lt h = elim (Bool-cases (p == slot)) [
  | inl same ↦ rw same (lt, subst (λ k. ¬ HasSlot k ps) ((==_iff p slot).0 same) h.1, h.2)
  | inr other ↦ rw other (
    h.0,
    λ m. ground (arith, HasSlot-touch p slot now ps m, h.1),
    touch-IsSlotMap slot now ps lt h.2,
  )
]

HasSlot-retain : (s now : ℕ) (ps : List (ℕ × ℕ)) → HasSlot s (retain now ps) → HasSlot s ps
unfolding retain
HasSlot-retain s now [] h = h
HasSlot-retain s now ((p, t) ∷ ps) h = ground (arith, HasSlot-retain s now ps)

pub retain-IsSlotMap : (now : ℕ) (ps : List (ℕ × ℕ)) → IsSlotMap ps → IsSlotMap (retain now ps)
unfolding retain
retain-IsSlotMap now [] h = tt
retain-IsSlotMap now ((p, t) ∷ ps) h = elim (Bool-cases (ltb now (t + second))) [
  | inl young ↦ rw young (h.0, λ m. h.1 (HasSlot-retain p now ps m), retain-IsSlotMap now ps h.2)
  | inr old ↦ rw old (retain-IsSlotMap now ps h.2)
]

-- What a run of recorded queries leaves, from an aggregate whose buffer holds `before`.
pub record Recorded (fl : Float) (qs : List Query) (a : Agg fl.F) : Type 0 where
  pub window : Window (a.lat_ns ++ map (λ (q : Query). q.lat_ns) qs) (record_all fl qs a).lat_ns
  pub slots : IsSlotMap (record_all fl qs a).slot_last

record_all-lem :
    (fl : Float) (qs : List Query) (all : List ℕ) (a : Agg fl.F)
    → Window all a.lat_ns
    → IsSlotMap a.slot_last
    → Window (all ++ map (λ (q : Query). q.lat_ns) qs) (record_all fl qs a).lat_ns
      × IsSlotMap (record_all fl qs a).slot_last
unfolding record_all record_query
record_all-lem fl [] all a w s = (subst (λ xs. Window xs a.lat_ns) (sym (append-nil all)) w, s)
record_all-lem fl (q ∷ qs) all a w s =
    let a' = record_query fl q.now q.tenant_id q.lat_ns q.docs a in
    let (w', s') =
      record_all-lem fl qs (all ++ q.lat_ns ∷ []) a' (push_sample-Window q.lat_ns all a.lat_ns w)
        (touch-IsSlotMap (q.tenant_id % tenant_pool % 256) q.now a.slot_last (omega arith) s) in
    (
      subst (λ xs. Window xs (record_all fl qs a').lat_ns)
          (append_assoc all (q.lat_ns ∷ []) (map (λ (r : Query). r.lat_ns) qs)) w',
      s',
    )

-- From a bounded buffer and a slot map, after any number of queries the buffer holds the latest
-- samples in their order, at most 12,288 of them, and each slot of the pool has at most one entry.
pub record_all-Recorded :
    (fl : Float) (qs : List Query) (a : Agg fl.F)
    → length a.lat_ns ≤ lat_samples_cap
    → IsSlotMap a.slot_last
    → Recorded fl qs a
record_all-Recorded fl qs a few slots =
    let start : Window a.lat_ns a.lat_ns = record {
      dropped = 0;
      within = omega arith;
      latest = refl;
      bounded = few;
    } in
    let (w, s) = record_all-lem fl qs a.lat_ns a start slots in record { window = w; slots = s }
