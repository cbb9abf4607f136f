-- ===== src/Bench/Lines.antt =====
-- dashboard/src/main.rs: what the line loop hands to the parser.
use mathlib.Core.List.{append-nil, append_assoc}
use nexus_core_devops_engine.Base.{
  ℕ, ◌≡◌, refl, ap, ◌∙◌, inl, inr, true, false, List, [], ◌∷◌, ◌++◌, ◌==◌, if◌then◌else◌, arith,
  Bool-cases, All, sym,
}
use nexus_core_devops_engine.Bench.Terminal.{
  is_whitespace, trim_start, trim_end, trim, starts_brace, is_brace, is_object, Reader, on_line,
  read_lines,
}

-- The first character that is not white space is there, and is no opening brace.
pub data IsBlocked : List ℕ → Type 0 where
  first : {c : ℕ} {cs : List ℕ} → is_whitespace c ≡ false → (c == b'{') ≡ false → IsBlocked (c ∷ cs)
  later : {c : ℕ} {cs : List ℕ} → is_whitespace c ≡ true → IsBlocked cs → IsBlocked (c ∷ cs)

IsBlocked-append : {xs : List ℕ} → IsBlocked xs → (ys : List ℕ) → IsBlocked (xs ++ ys)
IsBlocked-append (first w b) ys = first w b
IsBlocked-append (later w h) ys = later w (IsBlocked-append h ys)

-- Trimming keeps a first character that is not white space.
starts-trim_end :
    (c : ℕ) (cs : List ℕ) → is_whitespace c ≡ false → starts_brace (trim_end (c ∷ cs)) ≡ (c == b'{')
unfolding trim_end starts_brace
starts-trim_end c cs w = ground arith

starts-trim_start : {xs : List ℕ} → IsBlocked xs → starts_brace (trim xs) ≡ false
unfolding trim
starts-trim_start (first {c} {cs} w b) = rw (w, trim_start) (starts-trim_end c cs w ∙ b)
starts-trim_start (later {c} {cs} w h) = rw (w, trim_start) (starts-trim_start h)

blocked-not_object : {xs : List ℕ} → IsBlocked xs → is_object (trim xs) ≡ false
unfolding is_object
blocked-not_object h = rw (starts-trim_start h)

-- The texts of the lines that are whole objects.
pub whole_lines : List (List ℕ) → List (List ℕ)
whole_lines [] = []
whole_lines (line ∷ lines) =
    let rest = whole_lines lines in if is_object (trim line) then trim line ∷ rest else rest

on_line-IsBlocked :
    (line : List ℕ) (r : Reader)
    → IsBlocked r.buf
    → ((on_line line r).parsed ≡ r.parsed ++ (if is_object (trim line) then trim line ∷ [] else []))
      × IsBlocked (on_line line r).buf
unfolding on_line
on_line-IsBlocked line r h =
    let longer = IsBlocked-append h (line ++ b'\n' ∷ []) in
    let still = blocked-not_object longer in
    elim (Bool-cases (is_object (trim line))) [
      | inl whole ↦ rw whole (refl, h)
      | inr part ↦ elim (Bool-cases (is_brace (trim line))) [
        | inl closing ↦ rw (part, closing, still) (sym (append-nil r.parsed), longer)
        | inr inner ↦ rw (part, inner) (sym (append-nil r.parsed), longer)
      ]
    ]

-- Once the buffer starts with other text than an opening brace, it is never emptied: of all further
-- lines only those that are whole objects by themselves are parsed, and no report over several
-- lines is.
pub read_lines-blocked :
    (lines : List (List ℕ)) (r : Reader)
    → IsBlocked r.buf
    → (read_lines lines r).parsed ≡ r.parsed ++ whole_lines lines
unfolding read_lines whole_lines
read_lines-blocked [] r h = sym (append-nil r.parsed)
read_lines-blocked (line ∷ lines) r h =
    let (parsed, still) = on_line-IsBlocked line r h in
    let ih = read_lines-blocked lines (on_line line r) still in
    elim (Bool-cases (is_object (trim line))) [
      | inl whole ↦
          let now : (on_line line r).parsed ≡ r.parsed ++ trim line ∷ [] = rw whole at parsed in
          rw whole (
            ih
            ∙ (ap (λ p. p ++ whole_lines lines) now
                ∙ append_assoc r.parsed (trim line ∷ []) (whole_lines lines)))
      | inr part ↦
          let now : (on_line line r).parsed ≡ r.parsed ++ [] = rw part at parsed in
          rw part (ih ∙ ap (λ p. p ++ whole_lines lines) (now ∙ append-nil r.parsed))
    ]

-- The text that the buffer gets from some lines.
unfoldable pub joined : List (List ℕ) → List ℕ
joined [] = []
joined (line ∷ lines) = line ++ (b'\n' ∷ joined lines)

-- A line inside a report: neither a whole object nor a closing brace.
abbrev IsInner : List ℕ → Type 0
IsInner line = (is_object (trim line) ≡ false) × (is_brace (trim line) ≡ false)

-- A line inside a report goes to the buffer.
on_line-inner :
    (line buf : List ℕ) (parsed : List (List ℕ))
    → IsInner line
    → on_line line (record { buf = buf; parsed = parsed })
      ≡ record { buf = buf ++ (line ++ b'\n' ∷ []); parsed = parsed }
unfolding on_line
on_line-inner line buf parsed h = rw (h.0, h.1) refl

read_inner :
    (lines more : List (List ℕ)) (buf : List ℕ) (parsed : List (List ℕ))
    → All IsInner lines
    → read_lines (lines ++ more) (record { buf = buf; parsed = parsed })
      ≡ read_lines more (record { buf = buf ++ joined lines; parsed = parsed })
unfolding read_lines joined
read_inner [] more buf parsed h =
    ap (λ b. read_lines more (record { buf = b; parsed = parsed })) (sym (append-nil buf))
read_inner (line ∷ lines) more buf parsed h =
    let ih = read_inner lines more (buf ++ (line ++ b'\n' ∷ [])) parsed h.1 in
    let flat : (buf ++ (line ++ b'\n' ∷ [])) ++ joined lines
        ≡ buf ++ (line ++ (b'\n' ∷ joined lines)) =
      simp append_assoc in
    ap (read_lines (lines ++ more)) (on_line-inner line buf parsed h.0)
    ∙ (ih ∙ ap (λ b. read_lines more (record { buf = b; parsed = parsed })) flat)

-- Lines none of which is a closing brace or a whole object by itself, and then one that is a closing
-- brace, are handed to the parser as one text if the buffer was empty before and this text starts with a
-- brace; the buffer is empty afterwards.
pub read_lines-report :
    (lines : List (List ℕ)) (last : List ℕ) (parsed : List (List ℕ))
    → All IsInner lines
    → is_object (trim last) ≡ false
    → is_brace (trim last) ≡ true
    → is_object (trim (joined lines ++ (last ++ b'\n' ∷ []))) ≡ true
    → read_lines (lines ++ last ∷ []) (record { buf = []; parsed = parsed })
      ≡ record { buf = []; parsed = parsed ++ trim (joined lines ++ (last ++ b'\n' ∷ [])) ∷ [] }
unfolding read_lines on_line
read_lines-report lines last parsed inner part closing object =
    read_inner lines (last ∷ []) [] parsed inner ∙ rw (part, closing, object)
