-- ===== src/Bench/Terminal.antt =====
-- lesson5/nexuscore-day5/dashboard/src/main.rs: the loop of `main` over the lines of the input, and
-- the numbers of `render_report`.
--
-- A text is the list of its code points. `serde_json` is an argument: a parser of a text into an
-- optional report. What is rendered is the list of the parsed reports.
use nexus_core_devops_engine.Base.{
  ℕ, Bool, false, ◌&&◌, ◌||◌, List, [], ◌∷◌, ◌++◌, leb, ◌==◌, if◌then◌else◌, Option, none, some,
}

-- `char::is_whitespace`
unfoldable pub is_whitespace : ℕ → Bool
is_whitespace c =
    (leb 9 c && leb c 13)
    || c == 32
    || c == 0x85
    || c == 0xA0
    || c == 0x1680
    || (leb 0x2000 c && leb c 0x200A)
    || c == 0x2028
    || c == 0x2029
    || c == 0x202F
    || c == 0x205F
    || c == 0x3000

unfoldable pub trim_start : List ℕ → List ℕ
unfolding is_whitespace
trim_start [] = []
trim_start (c ∷ cs) = let rest = trim_start cs in if is_whitespace c then rest else c ∷ cs

-- Trailing white space is cut off from the end of the list.
unfoldable pub trim_end : List ℕ → List ℕ
trim_end [] = []
trim_end (c ∷ cs) = elim (trim_end cs) [
  | [] ↦ if is_whitespace c then [] else c ∷ []
  | d ∷ ds ↦ c ∷ d ∷ ds
]

unfoldable pub trim : List ℕ → List ℕ
unfolding trim_start trim_end
trim s = trim_end (trim_start s)

unfoldable pub starts_brace : List ℕ → Bool
starts_brace [] = false
starts_brace (c ∷ cs) = c == b'{'

unfoldable pub ends_brace : List ℕ → Bool
ends_brace [] = false
ends_brace (c ∷ []) = c == b'}'
ends_brace (c ∷ d ∷ cs) = ends_brace (d ∷ cs)

unfoldable pub is_brace : List ℕ → Bool
is_brace [] = false
is_brace (c ∷ []) = c == b'}'
is_brace (c ∷ d ∷ cs) = false

unfoldable pub is_object : List ℕ → Bool
unfolding starts_brace ends_brace
is_object t = starts_brace t && ends_brace t

-- The buffer, and the texts that were handed to the parser, the latest last.
pub record Reader : Type 0 where
  pub buf : List ℕ
  pub parsed : List (List ℕ)

-- The body of the loop for one line.
unfoldable pub on_line : List ℕ → Reader → Reader
on_line line r =
    let t = trim line in
    let buf = r.buf ++ (line ++ b'\n' ∷ []) in
    let chunk = trim buf in
    if is_object t
    then record { buf = r.buf; parsed = r.parsed ++ t ∷ [] }
    else if is_brace t
    then (if is_object chunk
        then record { buf = []; parsed = r.parsed ++ chunk ∷ [] }
        else record { buf = buf; parsed = r.parsed })
    else record { buf = buf; parsed = r.parsed }

unfoldable pub read_lines : List (List ℕ) → Reader → Reader
read_lines [] r = r
read_lines (line ∷ lines) r = read_lines lines (on_line line r)

-- `if let Ok(report) = serde_json::from_str(…)`: the reports that are rendered.
unfoldable rendered : {Report : Type 0} → (List ℕ → Option Report) → List (List ℕ) → List Report
rendered parse [] = []
rendered parse (t ∷ ts) = elim (parse t) [
  | some report ↦ report ∷ rendered parse ts
  | none ↦ rendered parse ts
]

unfoldable pub main : {Report : Type 0} → (List ℕ → Option Report) → List (List ℕ) → List Report
unfolding read_lines rendered
main parse lines = rendered parse (read_lines lines (record { buf = []; parsed = [] })).parsed
