-- ===== src/Bench/Head.antt =====
-- lesson5/nexuscore-day5/dashboard/src/main.rs: the head of a report on the terminal dashboard, with
-- `ns_to_human` of lib.rs beside it. `to_uppercase` is an argument.
use Prim.Native.String.{String}
use nexus_core_devops_engine.Base.{
  ℕ, zero, suc, ◌-◌, ◌<◌, ◌≡◌, refl, ap, ◌⊎◌, inl, inr, List, [], ◌∷◌, ◌++◌, min, ◌+◌, Option, none,
  some, ltb, if◌then◌else◌, arith, Bool-cases, ltb→lt, ltb→le,
}
use nexus_core_devops_engine.Base.Float.{Float}
use nexus_core_devops_engine.Base.Text.{codes}
use nexus_core_devops_engine.Bench.Dashboard.State.{HistogramReport}

-- A number of nanoseconds in the unit that it is shown in, with one or two decimals but for `ns`.
pub data Human (F : Type 0) : Type 0 where
  ns : ℕ → Human F
  us : F → Human F
  ms : F → Human F

-- The bytes of a character in UTF-8.
unfoldable pub len_utf8 : ℕ → ℕ
len_utf8 c = if ltb c 0x80 then 1 else if ltb c 0x800 then 2 else if ltb c 0x10000 then 3 else 4

-- `&text[..text.len().min(end)]`, which panics inside a character.
unfoldable pub cut_at : ℕ → List ℕ → Option (List ℕ)
unfolding len_utf8
cut_at end [] = some []
cut_at zero (c ∷ cs) = some []
cut_at (suc end) (c ∷ cs) =
    let rest = cut_at (suc end - len_utf8 c) cs in
    if ltb (suc end) (len_utf8 c)
    then none
    else elim rest [ none ↦ none | some kept ↦ some (c ∷ kept) ]

pub record Head (F : Type 0) : Type 0 where
  pub stack : String
  pub op : String
  pub ts : List ℕ
  pub p50 : Human F
  pub p99 : Human F
  pub p999 : Human F
  pub total : ℕ

module _ (fl : Float) where
  open fl use {F, of_u64, ratio, fdiv}

  unfoldable pub ns_to_human : ℕ → Human F
  ns_to_human n =
      if ltb n 1000
      then ns n
      else if ltb n 1_000_000
      then us (fdiv (of_u64 n) (ratio 1000 1))
      else ms (fdiv (of_u64 n) (ratio 1_000_000 1))

  abbrev pub head_with : (String → String) → HistogramReport → List ℕ → Head F
  head_with to_uppercase r ts = record {
    stack = to_uppercase r.stack;
    op = r.op;
    ts = ts;
    p50 = ns_to_human r.p50_ns;
    p99 = ns_to_human r.p99_ns;
    p999 = ns_to_human r.p999_ns;
    total = r.total_count;
  }

  unfoldable pub head_of : (String → String) → HistogramReport → Option (Head F)
  unfolding cut_at
  head_of to_uppercase r = elim (cut_at 19 (codes r.ts)) [
    | none ↦ none
    | some ts ↦ some (head_with to_uppercase r ts)
  ]

abbrev pub bytes : List ℕ → ℕ
bytes [] = 0
bytes (c ∷ cs) = len_utf8 c + bytes cs

len_utf8-pos : (c : ℕ) → 0 < len_utf8 c
unfolding len_utf8
len_utf8-pos c = ground arith

-- A character of the text goes on over the byte `end`.
pub record Across (end : ℕ) (s : List ℕ) : Type 0 where
  pub before : List ℕ
  pub char : ℕ
  pub behind : List ℕ
  pub split : s ≡ before ++ char ∷ behind
  pub starts : bytes before < end
  pub goes_on : end < bytes before + len_utf8 char

-- The text is cut behind `kept`, at the byte `end` or at its own end.
pub record Cut (end : ℕ) (s kept : List ℕ) : Type 0 where
  pub behind : List ℕ
  pub split : s ≡ kept ++ behind
  pub size : bytes kept ≡ min end (bytes s)

cut_at_cases :
    (end : ℕ) (s : List ℕ)
    → ((cut_at end s ≡ none) × Across end s)
      ⊎ ((kept : List ℕ) × (cut_at end s ≡ some kept) × Cut end s kept)
unfolding cut_at
cut_at_cases zero [] = inr ([], refl, record { behind = []; split = refl; size = omega arith })
cut_at_cases (suc end) [] = inr ([], refl, record { behind = []; split = refl; size = omega arith })
cut_at_cases zero (c ∷ cs) =
    inr ([], refl, record { behind = c ∷ cs; split = refl; size = omega arith })
cut_at_cases (suc end) (c ∷ cs) =
    let size = len_utf8-pos c in
    elim (Bool-cases (ltb (suc end) (len_utf8 c))) [
      | inl wide ↦ inl (
        rw wide refl,
        record {
          before = [];
          char = c;
          behind = cs;
          split = refl;
          starts = omega arith;
          goes_on = omega (arith, ltb→lt _ _ wide);
        },
      )
      | inr fits ↦ elim (cut_at_cases (suc end - len_utf8 c) cs) [
        | inl (e, a) ↦ inl (
          rw (fits, e) refl,
          record {
            before = c ∷ a.before;
            char = a.char;
            behind = a.behind;
            split = ap (λ xs. c ∷ xs) a.split;
            starts = omega (arith, a.starts, ltb→le _ _ fits);
            goes_on = omega (arith, a.goes_on, ltb→le _ _ fits);
          },
        )
        | inr (kept, e, k) ↦ inr (
          c ∷ kept,
          rw (fits, e) refl,
          record {
            behind = k.behind;
            split = ap (λ xs. c ∷ xs) k.split;
            size = omega (arith, k.size, ltb→le _ _ fits);
          },
        )
      ]
    ]

-- The head of a report panics only if a character of its time stamp goes on over byte 19; otherwise it
-- shows the time stamp up to that byte, or whole if it is shorter.
pub head_of_cases :
    (fl : Float) (to_uppercase : String → String) (r : HistogramReport)
    → ((head_of fl to_uppercase r ≡ none) × Across 19 (codes r.ts))
      ⊎ ((h : Head fl.F) × (head_of fl to_uppercase r ≡ some h) × Cut 19 (codes r.ts) h.ts)
unfolding head_of
head_of_cases fl to_uppercase r = elim (cut_at_cases 19 (codes r.ts)) [
  | inl (e, a) ↦ inl (rw (head_of, e) refl, a)
  | inr (kept, e, k) ↦ inr (head_with fl to_uppercase r kept, rw (head_of, e) refl, k)
]
