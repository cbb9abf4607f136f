-- ===== src/Engine/Complete/Scan.antt =====
-- What the scan of a row leaves: the neighbors in the queue, and the documents among the results.
use mathlib.Core.List.Memᴰ
use nexus_core_devops_engine.Base.{
  ℕ, zero, suc, ◌+◌, ◌%◌, ◌≤◌, ◌<◌, ◌≡◌, refl, subst, sym, inl, inr, List, [], ◌∷◌, ◌++◌, length,
  get_or, leb, leb→le, le→leb, Memᴰ, ==_iff, ◌==◌, Bool-cases, u32_mod, arith,
}
use nexus_core_devops_engine.Engine.Blob.{GraphEngine}
use nexus_core_devops_engine.Engine.Bfs.{
  Search, Round, next, return, fail, push_doc, scan_row, doc_offset, doc_len, doc_bytes,
}

-- The depths in a queue rise from `lo` to at most `hi`.
abbrev pub Rising : ℕ → ℕ → List (ℕ × ℕ) → Type 0
Rising lo hi [] = Unit
Rising lo hi (p ∷ ps) = (lo ≤ p.1) × (p.1 ≤ hi) × Rising (p.1) hi ps

pub Rising-wider :
    (lo hi hi' : ℕ) (ps : List (ℕ × ℕ)) → hi ≤ hi' → Rising lo hi ps → Rising lo hi' ps
Rising-wider lo hi hi' [] le h = tt
Rising-wider lo hi hi' (p ∷ ps) le h =
    (h.0, omega (arith, h.1), Rising-wider (p.1) hi hi' ps le h.2)

Rising-append :
    (lo hi v : ℕ) (ps : List (ℕ × ℕ))
    → lo ≤ hi
    → Rising lo hi ps
    → Rising lo hi (ps ++ (v, hi) ∷ [])
Rising-append lo hi v [] le h = (le, omega arith, tt)
Rising-append lo hi v (p ∷ ps) le h = (h.0, h.1, Rising-append (p.1) hi v ps h.1 h.2)

-- The document at a column lies in the arena.
abbrev pub InArena : GraphEngine → ℕ → Type 0
InArena g i =
    doc_offset (get_or g.doc_offsets i 0) + doc_len (get_or g.doc_offsets i 0) ≤ length g.arena

abbrev pub doc_at : GraphEngine → ℕ → List ℕ
doc_at g i = doc_bytes g (get_or g.doc_offsets i 0)

module _ (g : GraphEngine) (depth : ℕ) where
  -- From `s`, the scan of the columns from `i` on led to `t`.
  pub record Scanned (rounds i : ℕ) (s t : Search) : Type 0 where
    pub visited : t.visited ≡ s.visited
    pub queued : (p : ℕ × ℕ) → Memᴰ p s.queue → Memᴰ p t.queue
    pub pushed : (j : ℕ) → i ≤ j → j < i + rounds → Memᴰ (get_or g.col_idx j 0, depth + 1) t.queue
    pub kept : (d : List ℕ) → Memᴰ d s.results → Memᴰ d t.results
    pub found : (j : ℕ) → i ≤ j → j < i + rounds → InArena g j → Memᴰ (doc_at g j) t.results
    pub rising : Rising depth (depth + 1) s.queue → Rising depth (depth + 1) t.queue

  push_keeps : (i : ℕ) (d : List ℕ) (rs : List (List ℕ)) → Memᴰ d rs → Memᴰ d (push_doc g i rs)
  unfolding push_doc
  push_keeps i d rs m = elim (Bool-cases (leb (doc_offset i + doc_len i) (length g.arena))) [
    | inl fits ↦ rw fits (Memᴰ.append_left (doc_bytes g i ∷ []) m)
    | inr out ↦ rw out m
  ]

  push_finds :
      (i : ℕ) (rs : List (List ℕ))
      → InArena g i
      → Memᴰ (doc_at g i) (push_doc g (get_or g.doc_offsets i 0) rs)
  unfolding push_doc
  push_finds i rs h = rw (le→leb _ _ h) (Memᴰ.append_right rs (Memᴰ.head refl))

  last_pushed :
      (i : ℕ) (ps : List (ℕ × ℕ))
      → depth < 255
      → Memᴰ
          (get_or g.col_idx i 0, depth + 1)
          (ps ++ (get_or g.col_idx i 0, (depth + 1) % 256) ∷ [])
  last_pushed i ps small =
      let same : (depth + 1) % 256 ≡ depth + 1 = omega arith in
      rw same (Memᴰ.append_right ps (Memᴰ.head refl))

  -- A scan of no columns.
  pub Scanned-none : (i : ℕ) (s : Search) → Scanned 0 i s s
  Scanned-none i s = record {
    visited = refl;
    queued = λ p m. m;
    pushed = λ j a b. absurd (omega arith);
    kept = λ d m. m;
    found = λ j a b. absurd (omega arith);
    rising = λ r. r;
  }

module _ (g : GraphEngine) (limit depth : ℕ) where
  -- What a scan ends with: all columns, or enough results.
  pub data Scan (rounds i : ℕ) (s : Search) : Round → Type 0 where
    whole : {t : Search} → Scanned g depth rounds i s t → Scan rounds i s (next t)
    full : {rs : List (List ℕ)} → limit ≤ length rs → Scan rounds i s (return rs)
    broken : Scan rounds i s fail

  -- A column before the others.
  step :
      (rounds i : ℕ) (s : Search)
      → depth < 255
      → {r : Round}
      → Scan rounds
          (i + 1)
          (record s {
            queue = s.queue ++ (get_or g.col_idx i 0, (depth + 1) % 256) ∷ [];
            results = push_doc g (get_or g.doc_offsets i 0) s.results;
          })
          r
      → Scan (suc rounds) i s r
  step rounds i s small broken = broken
  step rounds i s small (full enough) = full enough
  step rounds i s small (whole {t} sc) =
      let same : (depth + 1) % 256 ≡ depth + 1 = omega arith in
      whole (record {
        visited = sc.visited;
        queued = λ p m. sc.queued p (Memᴰ.append_left _ m);
        pushed = λ j a b. elim (Bool-cases (j == i)) [
          | inl at ↦
              let e : j ≡ i = (==_iff j i).0 at in
              rw e
                (sc.queued (get_or g.col_idx i 0, depth + 1) (last_pushed g depth i s.queue small))
          | inr other ↦ sc.pushed j (ground arith) (omega arith)
        ];
        kept = λ d m. sc.kept d (push_keeps g depth (get_or g.doc_offsets i 0) d s.results m);
        found = λ j a b h. elim (Bool-cases (j == i)) [
          | inl at ↦
              let e : i ≡ j = sym ((==_iff j i).0 at) in
              subst (λ k. InArena g k → Memᴰ (doc_at g k) t.results) e
                (λ h'. sc.kept (doc_at g i) (push_finds g depth i s.results h')) h
          | inr other ↦ sc.found j (ground arith) (omega arith) h
        ];
        rising = λ r. sc.rising (
            rw same
              (Rising-append depth (depth + 1) (get_or g.col_idx i 0) s.queue (omega arith) r));
      })

  pub scan_row-Scan :
      (rounds i : ℕ) (s : Search)
      → depth < 255
      → Scan rounds i s (scan_row g limit depth rounds i s)
  unfolding scan_row
  scan_row-Scan zero i s small = whole (Scanned-none g depth i s)
  scan_row-Scan (suc rounds) i s small =
      let results = push_doc g (get_or g.doc_offsets i 0) s.results in
      let neighbor = get_or g.col_idx i 0 in
      let queue = s.queue ++ (neighbor, (depth + 1) % 256) ∷ [] in
      let pushed = record s { queue = queue; results = results } in
      let whole_row = step rounds i s small (scan_row-Scan rounds (i + 1) pushed small) in
      elim (Bool-cases (leb (length g.col_idx) i)) [
        | inl out ↦ rw out broken
        | inr col ↦ elim (Bool-cases (leb (length g.doc_offsets) i)) [
          | inl out ↦ rw (col, out) broken
          | inr doc ↦ elim (Bool-cases (leb limit (length results % u32_mod))) [
            | inl enough ↦
                let le : limit ≤ length results = omega (arith, leb→le _ _ enough) in
                rw (col, doc, enough) (full le)
            | inr more ↦ rw (col, doc, more) whole_row
          ]
        ]
      ]
