-- ===== src/Csr/Search.antt =====
-- The binary search of a row: on an ascending slice it finds exactly the elements.
use nexus_core_devops_engine.Base.{
  ℕ, zero, suc, ◌+◌, ◌-◌, ◌/◌, ◌≤◌, ◌<◌, ◌≡◌, ◌↔◌, inl, inr, true, List, [], ◌∷◌, length, get_or,
  ltb, leb, ==_iff, All, Bool-cases, ltb→lt, ltb→le, arith, Memᴰ, Memᴰ-not-nil, index_of,
  Memᴰ-get_or, subst,
}
use nexus_core_devops_engine.Csr.Query.{search_loop, binary_search}

-- Each element is at most every later one.
abbrev pub IsAscending : List ℕ → Type 0
IsAscending [] = Unit
IsAscending (x ∷ xs) = All (λ y. x ≤ y) xs × IsAscending xs

All-get_or : (x : ℕ) (xs : List ℕ) (i : ℕ) → All (λ y. x ≤ y) xs → i < length xs → x ≤ get_or xs i 0
All-get_or x [] i h lt = absurd (omega arith)
All-get_or x (y ∷ ys) zero h lt = h.0
All-get_or x (y ∷ ys) (suc i) h lt = All-get_or x ys i h.1 (omega arith)

get_or_mono :
    (xs : List ℕ) (i j : ℕ) → IsAscending xs → i ≤ j → j < length xs → get_or xs i 0 ≤ get_or xs j 0
get_or_mono [] i j h le lt = absurd (omega arith)
get_or_mono (x ∷ xs) zero zero h le lt = omega arith
get_or_mono (x ∷ xs) zero (suc j) h le lt = All-get_or x xs j h.0 (omega arith)
get_or_mono (x ∷ xs) (suc i) zero h le lt = absurd (omega arith)
get_or_mono (x ∷ xs) (suc i) (suc j) h le lt = get_or_mono xs i j h.1 (omega arith) (omega arith)

-- `x` stands at one of the `size` cells from `base` on.
record Within (xs : List ℕ) (x base size : ℕ) : Type 0 where
  at : ℕ
  from : base ≤ at
  to : at < base + size
  here : get_or xs at 0 ≡ x

module _ (xs : List ℕ) (x base size : ℕ) (s : IsAscending xs) (big : 1 < size)
    (fit : base + size ≤ length xs) (w : Within xs x base size) where
  Within-left : x < get_or xs (base + size / 2) 0 → Within xs x base (size - size / 2)
  Within-left less = record {
    at = w.at;
    from = w.from;
    to = elim (Bool-cases (ltb w.at (base + size / 2))) [
      | inl before ↦ omega (arith, ltb→lt _ _ before)
      | inr after ↦ absurd (
          omega (
            arith,
            w.to,
            w.here,
            get_or_mono xs (base + size / 2) w.at s (ltb→le _ _ after) (omega (arith, w.to)),
          ))
    ];
    here = w.here;
  }

  Within-right : get_or xs (base + size / 2) 0 ≤ x → Within xs x (base + size / 2) (size - size / 2)
  Within-right le = elim (Bool-cases (ltb w.at (base + size / 2))) [
    | inl before ↦ record {
      at = base + size / 2;
      from = omega arith;
      to = omega arith;
      here = omega (
        arith,
        w.here,
        get_or_mono xs w.at (base + size / 2) s (omega (arith, ltb→lt _ _ before)) (omega arith),
      );
    }
    | inr after ↦ record {
      at = w.at;
      from = ltb→le _ _ after;
      to = omega (arith, w.to);
      here = w.here;
    }
  ]

-- What is found stands in the slice.
search_loop_sound :
    (fuel : ℕ) (xs : List ℕ) (x base size : ℕ)
    → 0 < size
    → base + size ≤ length xs
    → search_loop fuel xs x base size ≡ true
    → Memᴰ x xs
unfolding search_loop
search_loop_sound zero xs x base size pos fit h = cc
search_loop_sound (suc fuel) xs x base size pos fit h = elim (Bool-cases (leb size 1)) [
  | inl last ↦
      let e = (==_iff _ x).0 (rw last at h) in
      subst (λ y. Memᴰ y xs) e (Memᴰ-get_or xs base 0 (omega arith))
  | inr more ↦
      let big : 1 < size = ground arith in
      elim (Bool-cases (ltb x (get_or xs (base + size / 2) 0))) [
        | inl left ↦
            search_loop_sound fuel xs x base (size - size / 2) (omega arith) (omega arith)
              (rw (more, left) at h)
        | inr right ↦
            search_loop_sound fuel xs x (base + size / 2) (size - size / 2) (omega arith)
              (omega arith) (rw (more, right) at h)
      ]
]

-- What stands in the part that is left is found, with fuel for each cell.
search_loop_complete :
    (fuel : ℕ) (xs : List ℕ) (x base size : ℕ)
    → IsAscending xs
    → size ≤ fuel
    → base + size ≤ length xs
    → Within xs x base size
    → search_loop fuel xs x base size ≡ true
unfolding search_loop
search_loop_complete zero xs x base size s few fit w = absurd (omega (arith, w.from, w.to))
search_loop_complete (suc fuel) xs x base size s few fit w = elim (Bool-cases (leb size 1)) [
  | inl last ↦
      let only : w.at ≡ base = ground (arith, w.from, w.to) in
      rw last ((==_iff _ x).1 (subst (λ i. get_or xs i 0 ≡ x) only w.here))
  | inr more ↦
      let big : 1 < size = ground arith in
      let mid = base + size / 2 in
      elim (Bool-cases (ltb x (get_or xs mid 0))) [
        | inl left ↦
            let less = ltb→lt _ _ left in
            rw (more, left)
              (search_loop_complete fuel xs x base (size - size / 2) s (omega arith) (omega arith)
                (Within-left xs x base size s big fit w less))
        | inr right ↦
            rw (more, right)
              (search_loop_complete fuel xs x mid (size - size / 2) s (omega arith) (omega arith)
                (Within-right xs x base size s big fit w (ltb→le _ _ right)))
      ]
]

-- On an ascending slice the search succeeds exactly for the elements.
pub binary_search_iff :
    (xs : List ℕ) (x : ℕ) → IsAscending xs → (binary_search xs x ≡ true) ↔ Memᴰ x xs
unfolding binary_search
binary_search_iff [] x s = (λ h. cc, λ m. absurd (Memᴰ-not-nil x m))
binary_search_iff (y ∷ ys) x s =
    let n = length (y ∷ ys) in
    (
      search_loop_sound n (y ∷ ys) x 0 n (omega arith) (omega arith),
      λ m.
          let (i, lt, e) = index_of x 0 (y ∷ ys) m in
          search_loop_complete n (y ∷ ys) x 0 n s (omega arith) (omega arith)
            (record { at = i; from = omega arith; to = omega arith; here = e }),
    )
