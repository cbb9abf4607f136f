-- ===== src/Csr/Followers.antt =====
-- `get_followers`: the scan over the sources below the node count.
use nexus_core_devops_engine.Base.{
  ℕ, zero, suc, ◌+◌, ◌≤◌, ◌<◌, ◌≡◌, refl, ap, ◌↔◌, inl, inr, true, false, List, [], ◌∷◌, leb,
  if◌then◌else◌, All, Bool-cases, arith, Memᴰ, Memᴰ-not-nil, Memᴰ-cons,
}
use nexus_core_devops_engine.Csr.Graph.{Edge, CsrGraph, ok}
use nexus_core_devops_engine.Csr.Query.{push_if, followers_from, get_followers, binary_search}
use nexus_core_devops_engine.Csr.Counts.{SourcesBelow}
use nexus_core_devops_engine.Csr.Rows.{row}
use nexus_core_devops_engine.Csr.Repr.{Repr}
use nexus_core_devops_engine.Csr.Search.{binary_search_iff}
use nexus_core_devops_engine.Csr.Reads.{mem-row, row-IsAscending, edge_exists-row}

-- Each element is less than every later one.
abbrev pub IsIncreasing : List ℕ → Type 0
IsIncreasing [] = Unit
IsIncreasing (x ∷ xs) = All (λ y. x < y) xs × IsIncreasing xs

-- The sources from `src` on, `rounds` of them, whose row holds `v`.
sources_from : ℕ → ℕ → ℕ → List Edge → List ℕ
sources_from zero src v es = []
sources_from (suc rounds) src v es =
    let rest = sources_from rounds (src + 1) v es in
    if binary_search (row src es) v then src ∷ rest else rest

source-lt : (n s v : ℕ) (es : List Edge) → SourcesBelow n es → Memᴰ (s, v) es → s < n
source-lt n s v [] h m = absurd (Memᴰ-not-nil (s, v) m)
source-lt n s v ((a, b) ∷ es) h m = elim ((Memᴰ-cons (s, v) (a, b) es).0 m) [
  | inl e ↦ omega (arith, ap (λ p. p.0) e, h.0)
  | inr rest ↦ source-lt n s v es h.1 rest
]

All-sources_from :
    (rounds src v m : ℕ) (es : List Edge)
    → m < src
    → All (λ y. m < y) (sources_from rounds src v es)
unfolding sources_from
All-sources_from zero src v m es lt = tt
All-sources_from (suc rounds) src v m es lt =
    let rest = All-sources_from rounds (src + 1) v m es (omega arith) in
    elim (Bool-cases (binary_search (row src es) v)) [ inl e ↦ rw e (lt, rest) | inr e ↦ rw e rest ]

sources_from-IsIncreasing :
    (rounds src v : ℕ) (es : List Edge) → IsIncreasing (sources_from rounds src v es)
unfolding sources_from
sources_from-IsIncreasing zero src v es = tt
sources_from-IsIncreasing (suc rounds) src v es =
    let rest = sources_from-IsIncreasing rounds (src + 1) v es in
    elim (Bool-cases (binary_search (row src es) v)) [
      | inl e ↦ rw e (All-sources_from rounds (src + 1) v src es (omega arith), rest)
      | inr e ↦ rw e rest
    ]

mem-sources_from :
    (rounds src v s : ℕ) (es : List Edge)
    → Memᴰ s (sources_from rounds src v es)
      ↔ ((src ≤ s) × (s < src + rounds) × (binary_search (row s es) v ≡ true))
unfolding sources_from
mem-sources_from zero src v s es =
    (λ m. absurd (Memᴰ-not-nil s m), λ h. absurd (omega (arith, h.0, h.1)))
mem-sources_from (suc rounds) src v s es =
    let ih = mem-sources_from rounds (src + 1) v s es in
    ground (arith, ih, Memᴰ-cons s src (sources_from rounds (src + 1) v es))

module _ (g : CsrGraph) (es : List Edge) (r : Repr g es) (v : ℕ) where
  followers_from_lem :
      (rounds src : ℕ) → followers_from g rounds src v ≡ ok (sources_from rounds src v es)
  unfolding followers_from sources_from push_if
  followers_from_lem zero src = refl
  followers_from_lem (suc rounds) src =
      rw (edge_exists-row g es r src v, followers_from_lem rounds (src + 1))
        (elim (Bool-cases (binary_search (row src es) v)) [
          | inl e ↦ rw (e, push_if)
          | inr e ↦ rw (e, push_if)
        ])

  -- What `get_followers` promises for a node of the graph: no error, and each source of an edge to
  -- it once, in increasing order.
  pub record FollowersOf (fs : List ℕ) : Type 0 where
    pub returns : get_followers g v ≡ ok fs
    pub exact : (s : ℕ) → Memᴰ s fs ↔ Memᴰ (s, v) es
    pub increasing : IsIncreasing fs

  -- For a node below the capacity `get_followers` returns the sources of the edges to it, each once
  -- and in increasing order, though it looks only at the sources below the node count.
  pub get_followers-FollowersOf : v < g.hdr.node_capacity → (fs : List ℕ) × FollowersOf fs
  unfolding get_followers
  get_followers-FollowersOf lt =
      let valid : leb g.hdr.node_capacity v ≡ false = ground arith in
      (
        sources_from g.hdr.node_count 0 v es,
        record {
          returns = rw valid (followers_from_lem g.hdr.node_count 0);
          exact = λ s.
              let there = mem-sources_from g.hdr.node_count 0 v s es in
              let search = binary_search_iff (row s es) v (row-IsAscending s es r.holds.sorted) in
              let rows = mem-row s v es in
              (
                λ m. rows.0 (search.0 (there.0 m).2),
                λ m. there.1 (
                  omega arith,
                  omega (arith, source-lt g.hdr.node_count s v es r.nodes m),
                  search.1 (rows.1 m),
                ),
              );
          increasing = sources_from-IsIncreasing g.hdr.node_count 0 v es;
        },
      )
