-- ===== src/Bench/LoadGen/Rounds.antt =====
-- The queries of a worker, by tenant: each round of the loop serves every tenant.
use Prim.Native.String.{String}
use text.Mathlib.Text.{◌==◌ as str_eq}
use mathlib.Core.List.Memᴰ
use nexus_core_devops_engine.Base.{
  ℕ, zero, suc, ◌+◌, ◌%◌, ◌<◌, ◌≡◌, refl, ap, ◌∙◌, inl, inr, List, [], ◌∷◌, ◌++◌, map, length,
  length-map, length-append, length-drop, length-take, ◌⊎◌, take, drop, some, ◌==◌, Bool-cases,
  Memᴰ, arith, subst, sym,
}
use nexus_core_devops_engine.Base.Text.{Text, lit, num}
use nexus_core_devops_engine.Bench.LoadGen.Request.{
  count_up, write_query, read_query, mixed_query, queries,
}
use nexus_core_devops_engine.Bench.LoadGen.Turns.{sent, sent_round}

-- A query in which the first number is that of the tenant.
abbrev pub Names : ℕ → Text → Type 0
Names t text = (before : String) × (after : Text) × (text ≡ lit before ∷ num t ∷ after)

length-count_up : (first n : ℕ) → length (count_up first n) ≡ n
length-count_up first zero = refl
length-count_up first (suc n) = ap suc (length-count_up (first + 1) n)

count_up-Memᴰ : (first n k : ℕ) → k < n → Memᴰ (first + k) (count_up first n)
count_up-Memᴰ first zero k h = absurd (omega arith)
count_up-Memᴰ first (suc n) zero h = Memᴰ.head (omega arith)
count_up-Memᴰ first (suc n) (suc k) h =
    let e : (first + 1) + k ≡ first + suc k = omega arith in
    Memᴰ.tail
      (subst (λ i. Memᴰ i (count_up (first + 1) n)) e (count_up-Memᴰ (first + 1) n k (omega arith)))

-- Every query is in the list from an index on, or before it.
rotated-Memᴰ : (n : ℕ) (x : Text) (xs : List Text) → Memᴰ x xs → Memᴰ x (drop n xs ++ take n xs)
rotated-Memᴰ n x xs m = elim (split n xs m) [
  | inl before ↦ Memᴰ.append_right (drop n xs) before
  | inr after ↦ Memᴰ.append_left (take n xs) after
]
  where
    split : (n : ℕ) (xs : List Text) → Memᴰ x xs → Memᴰ x (take n xs) ⊎ Memᴰ x (drop n xs)
    split zero xs m = inr m
    split (suc n) [] m = inr m
    split (suc n) (y ∷ ys) (Memᴰ.head e) = inl (Memᴰ.head e)
    split (suc n) (y ∷ ys) (Memᴰ.tail m) = elim (split n ys m) [
      | inl before ↦ inl (Memᴰ.tail before)
      | inr after ↦ inr after
    ]

mixed_query-Names : (worker_id t : ℕ) → Names t (mixed_query worker_id t)
mixed_query-Names worker_id t = elim (Bool-cases (t % 2 == 0)) [
  | inl even ↦ rw even (_, _, refl)
  | inr odd ↦ rw odd (_, _, refl)
]

module _ (worker_id payload_size : ℕ) (operation : String) (tenants : ℕ) where
  -- The queries of a worker are one for each tenant, in the order of their numbers.
  record ByTenant : Type 0 where
    query_of : ℕ → Text
    listed : queries worker_id payload_size operation tenants ≡ map query_of (count_up 0 tenants)
    names : (t : ℕ) → Names t (query_of t)

  queries-ByTenant : ByTenant
  unfolding queries
  queries-ByTenant = elim (Bool-cases (str_eq operation "write")) [
    | inl write ↦ record {
      query_of = write_query worker_id payload_size;
      listed = rw write;
      names = λ t. (_, _, refl);
    }
    | inr no_write ↦ elim (Bool-cases (str_eq operation "read")) [
      | inl read ↦ record {
        query_of = read_query worker_id;
        listed = rw (no_write, read);
        names = λ t. (_, _, refl);
      }
      | inr no_read ↦ record {
        query_of = mixed_query worker_id;
        listed = rw (no_write, no_read);
        names = mixed_query-Names worker_id;
      }
    ]
  ]

  pub length-queries : length (queries worker_id payload_size operation tenants) ≡ tenants
  length-queries =
      let b = queries-ByTenant in
      ap length b.listed ∙ (length-map b.query_of (count_up 0 tenants) ∙ length-count_up 0 tenants)

  -- The turns of a round, as many as there are tenants, and the query of the tenant `t` in them.
  pub record Served (req_count t : ℕ) : Type 0 where
    pub round : List Text
    pub sends :
        sent (queries worker_id payload_size operation tenants) req_count tenants ≡ some round
    pub long : length round ≡ tenants
    pub query : Text
    pub served : Memᴰ query round
    pub names : Names t query

  -- In every round of as many turns as there are tenants, wherever its count of requests stands, a worker
  -- of any operation sends a query of each tenant from 0 to the last: no tenant is left out.
  pub sent-Served : (req_count t : ℕ) → t < tenants → Served req_count t
  sent-Served req_count t small =
      let qs = queries worker_id payload_size operation tenants in
      let b = queries-ByTenant in
      let r = req_count % length qs in
      let same : 0 + t ≡ t = omega arith in
      let listed : Memᴰ t (count_up 0 tenants) =
        subst (λ i. Memᴰ i (count_up 0 tenants)) same (count_up-Memᴰ 0 tenants t small) in
      let mine : Memᴰ (b.query_of t) qs =
        subst (Memᴰ (b.query_of t)) (sym b.listed) (Memᴰ.map b.query_of listed) in
      record {
        round = drop r qs ++ take r qs;
        sends =
            ap (sent qs req_count) (sym length-queries)
            ∙ sent_round qs req_count (omega (arith, length-queries));
        long =
            length-append (drop r qs) (take r qs)
            ∙ omega (arith, length-drop r qs, length-take r qs, length-queries);
        query = b.query_of t;
        served = rotated-Memᴰ r (b.query_of t) qs mine;
        names = b.names t;
      }
