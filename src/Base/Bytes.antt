-- ===== src/Base/Bytes.antt =====
-- Bytes as numbers below 256, and the fixed width integers that Rust reads from them.
use Prim.Native.Nat.{ℕ, zero, suc, ◌+◌, ◌*◌, ◌/◌, ◌%◌, ◌^◌, ◌<◌}
use mathlib.Core.Path.{◌≡◌, refl, ap, ◌∙◌, subst}
use mathlib.Core.List.{List, [], ◌∷◌, ◌++◌, append_assoc}
use native.Mathlib.Nat.{pow-suc}
use native.Mathlib.Omega.{arith}
use nexus_core_devops_engine.Base.Lists.{
  length, take, drop, length-append, take-append, drop-append, All,
}

-- `from_le_bytes`: the first byte is the lowest.
unfoldable pub from_le : List ℕ → ℕ
from_le [] = 0
from_le (b ∷ bs) = b + 256 * from_le bs

-- `to_le_bytes` at a width of `k` bytes.
unfoldable pub to_le : ℕ → ℕ → List ℕ
to_le zero n = []
to_le (suc k) n = (n % 256) ∷ to_le k (n / 256)

-- `from_be_bytes`: the first byte is the highest.
unfoldable from_be_acc : ℕ → List ℕ → ℕ
from_be_acc acc [] = acc
from_be_acc acc (b ∷ bs) = from_be_acc (acc * 256 + b) bs

unfoldable pub from_be : List ℕ → ℕ
unfolding from_be_acc
from_be bs = from_be_acc 0 bs

-- `to_be_bytes` at a width of `k` bytes.
unfoldable pub to_be : ℕ → ℕ → List ℕ
to_be zero n = []
to_be (suc k) n = to_be k (n / 256) ++ (n % 256) ∷ []

pub length-to_le : (k n : ℕ) → length (to_le k n) ≡ k
unfolding to_le
length-to_le zero n = refl
length-to_le (suc k) n = ap suc (length-to_le k (n / 256))

pub length-to_be : (k n : ℕ) → length (to_be k n) ≡ k
unfolding to_be
length-to_be zero n = refl
length-to_be (suc k) n =
    length-append (to_be k (n / 256)) _ ∙ omega (arith, length-to_be k (n / 256))

div-lt : (n p : ℕ) → n < 256 * p → n / 256 < p
div-lt n p h = omega arith

pow_step : (k : ℕ) → 256 ^ suc k ≡ 256 * 256 ^ k
pow_step k = omega (arith, pow-suc 256 k)

pub from_le-to_le : (k n : ℕ) → n < 256 ^ k → from_le (to_le k n) ≡ n
unfolding from_le to_le
from_le-to_le zero n h = omega arith
from_le-to_le (suc k) n h =
    let ih = from_le-to_le k (n / 256) (div-lt n (256 ^ k) (omega (arith, pow_step k))) in
    omega (arith, ih)

from_be_acc-append :
    (acc b : ℕ) (xs : List ℕ) → from_be_acc acc (xs ++ b ∷ []) ≡ from_be_acc acc xs * 256 + b
unfolding from_be_acc
from_be_acc-append acc b [] = refl
from_be_acc-append acc b (x ∷ xs) = from_be_acc-append (acc * 256 + x) b xs

pub from_be-to_be : (k n : ℕ) → n < 256 ^ k → from_be (to_be k n) ≡ n
unfolding to_be from_be
from_be-to_be zero n h = omega arith
from_be-to_be (suc k) n h =
    let ih = from_be-to_be k (n / 256) (div-lt n (256 ^ k) (omega (arith, pow_step k))) in
    from_be_acc-append 0 (n % 256) (to_be k (n / 256)) ∙ omega (arith, ih)

-- `n` integers of `k` bytes, one behind the other.
unfoldable pub words : ℕ → ℕ → List ℕ → List ℕ
words k zero bs = []
words k (suc n) bs = from_le (take k bs) ∷ words k n (drop k bs)

unfoldable pub to_words : ℕ → List ℕ → List ℕ
to_words k [] = []
to_words k (x ∷ xs) = to_le k x ++ to_words k xs

pub length-words : (k n : ℕ) (bs : List ℕ) → length (words k n bs) ≡ n
unfolding words
length-words k zero bs = refl
length-words k (suc n) bs = ap suc (length-words k n (drop k bs))

pub length-to_words : (k : ℕ) (xs : List ℕ) → length (to_words k xs) ≡ length xs * k
unfolding to_words
length-to_words k [] = omega arith
length-to_words k (x ∷ xs) =
    length-append (to_le k x) (to_words k xs)
    ∙ grind (arith, length-to_words k xs, length-to_le k x)

pub take-to_le : (k x : ℕ) (bs : List ℕ) → take k (to_le k x ++ bs) ≡ to_le k x
take-to_le k x bs =
    subst (λ n. take n (to_le k x ++ bs) ≡ to_le k x) (length-to_le k x)
      (take-append (to_le k x) bs)

pub drop-to_le : (k x : ℕ) (bs : List ℕ) → drop k (to_le k x ++ bs) ≡ bs
drop-to_le k x bs =
    subst (λ n. drop n (to_le k x ++ bs) ≡ bs) (length-to_le k x) (drop-append (to_le k x) bs)

-- Integers that are written one behind the other are read back, whatever follows.
pub words-to_words :
    (k : ℕ) (xs bs : List ℕ)
    → All (λ x. x < 256 ^ k) xs
    → words k (length xs) (to_words k xs ++ bs) ≡ xs
unfolding words to_words
words-to_words k [] bs h = refl
words-to_words k (x ∷ xs) bs h =
    rw
      (
        append_assoc,
        take-to_le k x (to_words k xs ++ bs),
        drop-to_le k x (to_words k xs ++ bs),
        from_le-to_le k x h.0,
      )
      (ap (◌∷◌ x) (words-to_words k xs bs h.1))
