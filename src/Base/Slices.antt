-- ===== src/Base/Slices.antt =====
-- Rust's `&xs[start..end]`, and writing a run of cells into a larger memory.
use Prim.Native.Nat.{ℕ, zero, suc, ◌+◌, ◌-◌, ◌≤◌}
use mathlib.Core.Path.{◌≡◌, refl, ap}
use mathlib.Core.List.{List, [], ◌∷◌}
use native.Mathlib.Omega.{arith}
use nexus_core_devops_engine.Base.Lists.{length, set, take, drop}

module _ {ℓ} {A : Type ℓ} where
  -- `xs[start..end]`, where `start <= end <= xs.len()`.
  abbrev pub slice : List A → ℕ → ℕ → List A
  slice xs start end = take (end - start) (drop start xs)

  -- The cells of `xs` are written from index `i` on.
  unfoldable pub overwrite : ℕ → List A → List A → List A
  overwrite i xs [] = []
  overwrite (suc i) xs (m ∷ mem) = m ∷ overwrite i xs mem
  overwrite zero [] (m ∷ mem) = m ∷ mem
  overwrite zero (x ∷ xs) (m ∷ mem) = x ∷ overwrite zero xs mem

  pub length-overwrite : (i : ℕ) (xs mem : List A) → length (overwrite i xs mem) ≡ length mem
  unfolding overwrite
  length-overwrite zero xs [] = refl
  length-overwrite (suc i) xs [] = refl
  length-overwrite (suc i) xs (m ∷ mem) = ap suc (length-overwrite i xs mem)
  length-overwrite zero [] (m ∷ mem) = refl
  length-overwrite zero (x ∷ xs) (m ∷ mem) = ap suc (length-overwrite zero xs mem)

  -- What was written is read back.
  pub take-overwrite :
      (n i : ℕ) (xs mem : List A)
      → n ≤ length xs
      → i + length xs ≤ length mem
      → take n (drop i (overwrite i xs mem)) ≡ take n xs
  unfolding overwrite
  take-overwrite zero i xs mem le h = refl
  take-overwrite (suc n) i [] mem le h = absurd (omega arith)
  take-overwrite (suc n) i (x ∷ xs) [] le h = absurd (omega arith)
  take-overwrite (suc n) (suc i) (x ∷ xs) (m ∷ mem) le h =
      take-overwrite (suc n) i (x ∷ xs) mem le (omega arith)
  take-overwrite (suc n) zero (x ∷ xs) (m ∷ mem) le h =
      ap (◌∷◌ x) (take-overwrite n zero xs mem (omega arith) (omega arith))

  -- Cells before the run are kept.
  pub take-overwrite_before :
      (n i j : ℕ) (xs mem : List A)
      → i + n ≤ j
      → take n (drop i (overwrite j xs mem)) ≡ take n (drop i mem)
  unfolding overwrite
  take-overwrite_before zero i j xs mem h = refl
  take-overwrite_before (suc n) i zero xs mem h = absurd (omega arith)
  take-overwrite_before (suc n) i (suc j) xs [] h = refl
  take-overwrite_before (suc n) zero (suc j) xs (m ∷ mem) h =
      ap (◌∷◌ m) (take-overwrite_before n zero j xs mem (omega arith))
  take-overwrite_before (suc n) (suc i) (suc j) xs (m ∷ mem) h =
      take-overwrite_before (suc n) i j xs mem (omega arith)

  -- Cells behind the run are kept.
  pub drop-overwrite_after :
      (i j : ℕ) (xs mem : List A) → j + length xs ≤ i → drop i (overwrite j xs mem) ≡ drop i mem
  unfolding overwrite
  drop-overwrite_after i j xs [] h = refl
  drop-overwrite_after zero zero [] (m ∷ mem) h = refl
  drop-overwrite_after (suc i) zero [] (m ∷ mem) h = refl
  drop-overwrite_after zero zero (x ∷ xs) (m ∷ mem) h = absurd (omega arith)
  drop-overwrite_after (suc i) zero (x ∷ xs) (m ∷ mem) h =
      drop-overwrite_after i zero xs mem (omega arith)
  drop-overwrite_after zero (suc j) xs (m ∷ mem) h = absurd (omega arith)
  drop-overwrite_after (suc i) (suc j) xs (m ∷ mem) h =
      drop-overwrite_after i j xs mem (omega arith)

  pub overwrite-nil : (i : ℕ) (mem : List A) → overwrite i [] mem ≡ mem
  unfolding overwrite
  overwrite-nil zero [] = refl
  overwrite-nil (suc i) [] = refl
  overwrite-nil zero (m ∷ mem) = refl
  overwrite-nil (suc i) (m ∷ mem) = ap (◌∷◌ m) (overwrite-nil i mem)

  -- Writing one cell and then the cells behind it is one run.
  pub overwrite-set :
      (k : ℕ) (x : A) (xs mem : List A)
      → overwrite (suc k) xs (set mem k x) ≡ overwrite k (x ∷ xs) mem
  unfolding overwrite
  overwrite-set zero x xs [] = refl
  overwrite-set (suc k) x xs [] = refl
  overwrite-set zero x xs (m ∷ mem) = refl
  overwrite-set (suc k) x xs (m ∷ mem) = ap (◌∷◌ m) (overwrite-set k x xs mem)

  pub slice-suc : (x : A) (xs : List A) (i j : ℕ) → slice (x ∷ xs) (suc i) (suc j) ≡ slice xs i j
  slice-suc x xs i j = ap (λ n. take n (drop i xs)) (omega arith)

  pub slice-zero_suc : (x : A) (xs : List A) (j : ℕ) → slice (x ∷ xs) 0 (suc j) ≡ x ∷ slice xs 0 j
  slice-zero_suc x xs j =
      let less : suc j - 0 ≡ suc (j - 0) = omega arith in ap (λ n. take n (x ∷ xs)) less

  pub slice_empty : (xs : List A) (i : ℕ) → slice xs i i ≡ []
  slice_empty xs i =
      let none_left : i - i ≡ 0 = omega arith in ap (λ n. take n (drop i xs)) none_left
