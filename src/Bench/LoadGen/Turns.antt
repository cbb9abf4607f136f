-- ===== src/Bench/LoadGen/Turns.antt =====
-- The order in which a worker sends its queries.
use mathlib.Core.List.{append-nil}
use native.Mathlib.Nat.{mod-lt, mod-eq_of_lt, mul-add-mod_self_right, div-add-mod'}
use nexus_core_devops_engine.Base.{
  ℕ, zero, suc, ◌+◌, ◌-◌, ◌*◌, ◌/◌, ◌%◌, ◌≤◌, ◌<◌, ◌≡◌, refl, sym, ap, ap₂, false, ◌∙◌, List, [],
  ◌∷◌, ◌++◌, length, get_or, take, drop, arith, Option, none, some, ◌==◌, length-drop, take_all,
}
use nexus_core_devops_engine.Base.Text.{Text}
use nexus_core_devops_engine.Bench.LoadGen.Worker.{next_query}

-- The queries that the loop sends in its next `n` turns, from a count of requests on.
unfoldable pub sent : List Text → ℕ → ℕ → Option (List Text)
unfolding next_query
sent queries req_count zero = some []
sent queries req_count (suc n) = elim (next_query queries req_count) [
  | none ↦ none
  | some query ↦ elim (sent queries (req_count + 1) n) [
    | none ↦ none
    | some rest ↦ some (query ∷ rest)
  ]
]

drop_cons : (i : ℕ) (xs : List Text) → i < length xs → drop i xs ≡ get_or xs i [] ∷ drop (suc i) xs
drop_cons i [] h = absurd (omega arith)
drop_cons zero (x ∷ xs) h = refl
drop_cons (suc i) (x ∷ xs) h = drop_cons i xs (omega arith)

-- The query that is sent where the count stands at `r`, after `m` whole rounds.
next_query_lem :
    (qs : List Text) (m r : ℕ)
    → r < length qs
    → next_query qs (m * length qs + r) ≡ some (get_or qs r [])
unfolding next_query
next_query_lem qs m r h =
    let at : (m * length qs + r) % length qs ≡ r =
      mul-add-mod_self_right m (length qs) r ∙ mod-eq_of_lt h in
    let some_query : (length qs == 0) ≡ false = ground arith in rw (some_query, at)

-- As long as the index does not pass the end a stretch of the list is sent, and then the rest.
sent_stretch :
    (qs : List Text) (m n r more : ℕ) {rest : List Text}
    → r + n ≤ length qs
    → sent qs (m * length qs + (r + n)) more ≡ some rest
    → sent qs (m * length qs + r) (n + more) ≡ some (take n (drop r qs) ++ rest)
unfolding sent
sent_stretch qs m zero r more {rest} fit h =
    let a : zero + more ≡ more = omega arith in
    let b : r + zero ≡ r = omega arith in rw a (rw b at h)
sent_stretch qs m (suc n) r more {rest} fit h =
    let a : suc n + more ≡ suc (n + more) = omega arith in
    let b : r + suc n ≡ suc r + n = omega arith in
    let c : (m * length qs + r) + 1 ≡ m * length qs + suc r = omega arith in
    let ih = sent_stretch qs m n (suc r) more {rest = rest} (omega arith) (rw b at h) in
    let first = next_query_lem qs m r (omega arith) in
    rw (a, sent, first, c, ih, drop_cons r qs (omega arith))

-- In any round of as many turns as there are queries the worker sends each query once, from the one
-- that its count stands at to the end and then from the start.
pub sent_round :
    (queries : List Text) (req_count : ℕ)
    → 0 < length queries
    → sent queries req_count (length queries)
      ≡ some
          (drop (req_count % length queries) queries ++ take (req_count % length queries) queries)
unfolding sent
sent_round queries k pos =
    let len = length queries in
    let r = k % len in
    let m = k / len in
    let small : r < len = mod-lt k pos in
    let whole : m * len + r ≡ k = div-add-mod' k len in
    let parts : (len - r) + (r + 0) ≡ len = omega arith in
    let wrap : m * len + (r + (len - r)) ≡ (m + 1) * len + 0 = grind arith in
    let second = sent_stretch queries (m + 1) r 0 0 {rest = []} (omega (arith, small)) refl in
    let both =
      sent_stretch queries m (len - r) r (r + 0) {rest = take r queries ++ []}
        (omega (arith, parts)) (rw wrap second) in
    let to_end : take (len - r) (drop r queries) ≡ drop r queries =
      take_all (len - r) (drop r queries) (omega (arith, length-drop r queries)) in
    ap (λ c. sent queries c len) (sym whole)
    ∙ (ap (sent queries (m * len + r)) (sym parts)
        ∙ (both ∙ ap₂ (λ a b. some (a ++ b)) to_end (append-nil (take r queries))))
