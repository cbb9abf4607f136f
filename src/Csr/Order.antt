-- ===== src/Csr/Order.antt =====
-- Sorting forgets the order of the edges: insertions commute.
use mathlib.Core.List.{Perm, foldr}
use mathlib.Core.List.Perm
use mathlib.Core.List as List
use nexus_core_devops_engine.Base.{
  ◌≡◌, refl, ap, ap₂, sym, if◌then◌else◌, ◌∙◌, inl, inr, true, false, List, [], ◌∷◌, Bool-cases,
  arith,
}
use nexus_core_devops_engine.Csr.Graph.{Edge}
use nexus_core_devops_engine.Csr.Sort.{insert, sort_edges, edge_le}

edge_le-total : (e f : Edge) → edge_le e f ≡ false → edge_le f e ≡ true
edge_le-total (a, b) (c, d) h = ground arith

edge_le-antisym : (e f : Edge) → edge_le e f ≡ true → edge_le f e ≡ true → e ≡ f
edge_le-antisym (a, b) (c, d) h k =
    let first : a ≡ c = ground arith in
    let second : b ≡ d = ground arith in ap₂ (λ x y. (x, y)) first second

-- What comes after one edge does not come before a smaller one.
edge_le-after : (e f g : Edge) → edge_le e g ≡ true → edge_le f g ≡ false → edge_le f e ≡ false
edge_le-after (a, b) (c, d) (x, y) h k = ground arith

-- Two edges in front of a list, in the order in which either is inserted before the other.
front_comm :
    (e f : Edge) (es : List Edge)
    → (if edge_le e f then e ∷ f ∷ es else f ∷ e ∷ es)
      ≡ (if edge_le f e then f ∷ e ∷ es else e ∷ f ∷ es)
front_comm e f es = elim (Bool-cases (edge_le e f)) [
  | inr gt ↦ rw (gt, edge_le-total e f gt) refl
  | inl le ↦ elim (Bool-cases (edge_le f e)) [
    | inr lt ↦ rw (le, lt) refl
    | inl ge ↦ rw (edge_le-antisym e f le ge) refl
  ]
]

insert_before : (e g : Edge) (es : List Edge) → edge_le e g ≡ true → insert e (g ∷ es) ≡ e ∷ g ∷ es
unfolding insert
insert_before e g es h = rw h refl

insert_behind :
    (e g : Edge) (es : List Edge) → edge_le e g ≡ false → insert e (g ∷ es) ≡ g ∷ insert e es
unfolding insert
insert_behind e g es h = rw h refl

-- The edge that comes before the head of the list is put first, whichever is inserted first.
insert_around :
    (e f g : Edge) (es : List Edge)
    → edge_le e g ≡ true
    → edge_le f g ≡ false
    → insert e (insert f (g ∷ es)) ≡ insert f (insert e (g ∷ es))
insert_around e f g es eg gf =
    ap (insert e) (insert_behind f g es gf)
    ∙ insert_before e g (insert f es) eg
    ∙ sym (
        ap (insert f) (insert_before e g es eg)
        ∙ insert_behind f e (g ∷ es) (edge_le-after e f g eg gf)
        ∙ ap (λ xs. e ∷ xs) (insert_behind f g es gf))

insert_none : (e : Edge) → insert e [] ≡ e ∷ []
unfolding insert
insert_none e = refl

insert_two : (e f : Edge) → insert e (f ∷ []) ≡ insert f (e ∷ [])
unfolding insert
insert_two e f = front_comm e f []

both_before :
    (e f g : Edge) (es : List Edge)
    → edge_le e g ≡ true
    → edge_le f g ≡ true
    → insert e (f ∷ g ∷ es) ≡ insert f (e ∷ g ∷ es)
unfolding insert
both_before e f g es eg fg = rw (eg, fg) (front_comm e f (g ∷ es))

insert_comm : (e f : Edge) (es : List Edge) → insert e (insert f es) ≡ insert f (insert e es)
insert_comm e f [] =
    ap (insert e) (insert_none f) ∙ insert_two e f ∙ ap (insert f) (sym (insert_none e))
insert_comm e f (g ∷ es) = elim (Bool-cases (edge_le e g)) [
  | inl eg ↦ elim (Bool-cases (edge_le f g)) [
    | inl fg ↦
        ap (insert e) (insert_before f g es fg)
        ∙ both_before e f g es eg fg
        ∙ ap (insert f) (sym (insert_before e g es eg))
    | inr gf ↦ insert_around e f g es eg gf
  ]
  | inr ge ↦ elim (Bool-cases (edge_le f g)) [
    | inl fg ↦ sym (insert_around f e g es fg ge)
    | inr gf ↦
        ap (insert e) (insert_behind f g es gf)
        ∙ insert_behind e g (insert f es) ge
        ∙ ap (λ xs. g ∷ xs) (insert_comm e f es)
        ∙ sym (ap (insert f) (insert_behind e g es ge) ∙ insert_behind f g (insert e es) gf)
  ]
]

sort-foldr : (es : List Edge) → sort_edges es ≡ foldr insert [] es
unfolding sort_edges
sort-foldr [] = refl
sort-foldr (e ∷ es) = ap (insert e) (sort-foldr es)

-- Lists with the same edges are sorted to the same list.
pub sort-same : (es fs : List Edge) → Perm es fs → sort_edges es ≡ sort_edges fs
sort-same es fs p =
    sort-foldr es ∙ Perm.foldr-eq (List.is_set hlevel) insert insert_comm p [] ∙ sym (sort-foldr fs)
