-- ===== src/Tenant/Utf8.antt =====
-- `core::str::from_utf8`, as far as the component asks: whether the bytes are well-formed UTF-8.
use nexus_core_devops_engine.Base.{
  ℕ, zero, suc, ◌≡◌, ◌<◌, refl, Bool, true, false, ◌&&◌, List, [], ◌∷◌, Option, none, some, ltb,
  leb, ◌==◌, if◌then◌else◌, All, arith,
}

-- For the first byte of a character: how many bytes follow, and the range of the next one.
unfoldable lead : ℕ → Option (ℕ × ℕ × ℕ)
lead b =
    if ltb b 0x80
    then some (0, 0x80, 0xBF)
    else if leb 0xC2 b && leb b 0xDF
    then some (1, 0x80, 0xBF)
    else if b == 0xE0
    then some (2, 0xA0, 0xBF)
    else if b == 0xED
    then some (2, 0x80, 0x9F)
    else if leb 0xE1 b && leb b 0xEF
    then some (2, 0x80, 0xBF)
    else if b == 0xF0
    then some (3, 0x90, 0xBF)
    else if leb 0xF1 b && leb b 0xF3
    then some (3, 0x80, 0xBF)
    else if b == 0xF4
    then some (3, 0x80, 0x8F)
    else none

-- `need` bytes of the current character are missing, the next one between `lo` and `hi`.
unfoldable utf8_from : ℕ → ℕ → ℕ → List ℕ → Bool
unfolding lead
utf8_from zero lo hi [] = true
utf8_from (suc need) lo hi [] = false
utf8_from zero lo hi (b ∷ bs) = elim (lead b) [
  | none ↦ false
  | some (need, low, high) ↦ utf8_from need low high bs
]
utf8_from (suc need) lo hi (b ∷ bs) = elim (leb lo b && leb b hi) [
  | true ↦ utf8_from need 0x80 0xBF bs
  | false ↦ false
]

unfoldable pub from_utf8 : List ℕ → Bool
unfolding utf8_from
from_utf8 bs = utf8_from 0 0x80 0xBF bs

lead_ascii : (b : ℕ) → b < 0x80 → lead b ≡ some (0, 0x80, 0xBF)
unfolding lead
lead_ascii b h = ground arith

-- ASCII text is valid.
utf8_ascii : (bs : List ℕ) → All (λ b. b < 0x80) bs → utf8_from 0 0x80 0xBF bs ≡ true
unfolding utf8_from
utf8_ascii [] h = refl
utf8_ascii (b ∷ bs) h = rw (lead_ascii b h.0, utf8_from) (utf8_ascii bs h.1)

pub from_utf8_ascii : (bs : List ℕ) → All (λ b. b < 0x80) bs → from_utf8 bs ≡ true
unfolding from_utf8
from_utf8_ascii bs h = utf8_ascii bs h
