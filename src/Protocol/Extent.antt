-- ===== src/Protocol/Extent.antt =====
-- Where the parser of cache_cat/src/protocol/resp.rs stops: past the first byte of an element, and
-- within the buffer.
use cache_cat.Prelude.{
  ℕ, zero, suc, ◌+◌, ◌-◌, ◌^◌, ◌≤◌, ◌≡◌, refl, subst, Bool, true, false, Option, none, some,
  Option-cases, [], ◌∷◌, Bytes, ltb, leb, ◌&&◌, ◌==◌, if◌then◌else◌, length, take, drop, arith,
  Bool-cases, inl, inr, ◌⊎◌,
}
use cache_cat.Value.Number as Number
use cache_cat.Protocol.Parse.{
  AggregateKind, Parser, Parsers, Header, len_of, find_line, element_count, parse_aggregate,
  parse_header, read_line, read_i64, read_blob, header_of, bytes_of, parse_meta, parse_elements,
  is_attribute, is_array, on_line, boolean_of, double_of, is_big_number,
}

drop-short : (n : ℕ) (b : Bytes) → length (drop n b) ≤ length b
drop-short zero b = omega arith
drop-short (suc n) [] = omega arith
drop-short (suc n) (x ∷ b) = omega (arith, drop-short n b)

drop-exact : (n : ℕ) (b : Bytes) → n ≤ length b → length (drop n b) + n ≡ length b
drop-exact zero b h = omega arith
drop-exact (suc n) [] h = absurd (omega (arith, h))
drop-exact (suc n) (x ∷ b) h = omega (arith, drop-exact n b (omega (arith, h)))

find_line-fits : (b : Bytes) (index : ℕ) → find_line b ≡ some index → index + 2 ≤ length b
find_line-fits [] index h = absurd (ground (arith, h))
find_line-fits (x ∷ []) index h = absurd (ground (arith, h))
find_line-fits (x ∷ y ∷ b) index h = elim (Bool-cases ((x == 13) && (y == 10))) [
  | inl here ↦ ground (arith, h, here)
  | inr other ↦ elim (Option-cases (find_line (y ∷ b))) [
    | inl e ↦ absurd (ground (arith, h, other, e))
    | inr (i, e) ↦ ground (arith, h, other, e, find_line-fits (y ∷ b) i e)
  ]
]

-- An element takes up a byte of the buffer or more, and so does the first line of an aggregate; it
-- does not go past the end of the buffer.
abbrev pub Within : ℕ → ℕ → Type 0
Within top n = (1 ≤ n) × (n ≤ top)

abbrev pub Placed : {A : Type 0} → ℕ → (A → ℕ) → Option A → Type 0
Placed top place none = Unit
Placed top place (some a) = Within top (place a)

abbrev pub Moves : ℕ → Option Parser → Type 0
Moves top meta = Placed top len_of meta

some-Moves :
    {A : Type 0} (top : ℕ) (o : Option A) (make : A → Parser)
    → ((a : A) → Within top (len_of (make a)))
    → Moves top (elim o as (λ x. Option Parser) [ none ↦ none | some a ↦ some (make a) ])
some-Moves top none make h = tt
some-Moves top (some a) make h = h a

abbrev HeaderMoves : ℕ → Header → Type 0
HeaderMoves top (Header.whole meta) = Moves top meta
HeaderMoves top (Header.parts kind n pos) = Within top pos

if-HeaderMoves :
    (top : ℕ) (b : Bool) (x y : Header)
    → HeaderMoves top x
    → HeaderMoves top y
    → HeaderMoves top (if b then x else y)
if-HeaderMoves top true x y h k = h
if-HeaderMoves top false x y h k = k

line-Within :
    (buffer : Bytes) (index : ℕ)
    → find_line (drop 1 buffer) ≡ some index
    → Within (length buffer) (index + 3)
line-Within [] index h = absurd (omega (arith, find_line-fits [] index h))
line-Within (x ∷ b) index h = (omega arith, omega (arith, find_line-fits b index h))

line-Moves :
    (buffer : Bytes) (make : Bytes → ℕ → Option Parser)
    → ((line : Bytes) (len : ℕ)
        → Within (length buffer) len
        → Moves (length buffer) (make line len))
    → Moves (length buffer) (on_line buffer make)
unfolding read_line
line-Moves buffer make h = elim (Option-cases (find_line (drop 1 buffer))) [
  | inl e ↦ rw (e, Placed, read_line) tt
  | inr (index, e) ↦
      rw (e, Placed, read_line)
        (h (take index (drop 1 buffer)) (index + 3) (line-Within buffer index e))
]

i64-Placed : (buffer : Bytes) → Placed (length buffer) (λ (value, len). len) (read_i64 buffer)
unfolding read_i64 read_line
i64-Placed buffer = elim (Option-cases (find_line (drop 1 buffer))) [
  | inl e ↦ rw (e, read_i64, read_line) tt
  | inr (index, e) ↦ elim (Option-cases (Number.read_i64 (take index (drop 1 buffer)))) [
    | inl f ↦ rw (e, read_i64, read_line) (rw f tt)
    | inr (value, f) ↦ rw (e, read_i64, read_line) (rw f (line-Within buffer index e))
  ]
]

if-Placed :
    {A : Type 0} (top : ℕ) (place : A → ℕ) (b : Bool) (x y : Option A)
    → Placed top place x
    → Placed top place y
    → Placed top place (if b then x else y)
if-Placed top place true x y h k = h
if-Placed top place false x y h k = k

blob-Placed :
    (buffer : Bytes) (allow_null : Bool)
    → Placed (length buffer) (λ (len, b). len) (read_blob buffer allow_null)
unfolding read_blob
blob-Placed buffer allow_null = elim (Option-cases (read_i64 buffer)) [
  | inl e ↦ rw (e, read_blob) tt
  | inr ((len, pos), e) ↦
      let placed : Within (length buffer) pos =
        subst (Placed (length buffer) (λ (value, len). len)) e (i64-Placed buffer) in
      rw (e, read_blob)
        (if-Placed (length buffer) (λ (len, b). len) (allow_null && (len == 2 ^ 64 - 1)) _ _ placed
          (if-Placed (length buffer) (λ (len, b). len) (leb (2 ^ 63) len) _ _ tt
            (elim (Bool-cases (ltb (length buffer) (pos + len + 2))) [
              | inl short ↦ rw short tt
              | inr long ↦ rw long (omega (arith, placed), ground (arith, long))
            ])))
]

aggregate-HeaderMoves :
    (buffer : Bytes) (kind : AggregateKind)
    → HeaderMoves (length buffer) (parse_aggregate buffer kind)
unfolding parse_aggregate
aggregate-HeaderMoves buffer kind = elim (Option-cases (read_i64 buffer)) [
  | inl e ↦ rw (e, parse_aggregate) tt
  | inr ((count, pos), e) ↦
      let placed : Within (length buffer) pos =
        subst (Placed (length buffer) (λ (value, len). len)) e (i64-Placed buffer) in
      rw (e, parse_aggregate)
        (if-HeaderMoves (length buffer) (is_array kind && (count == 2 ^ 64 - 1)) _ _ placed (
          if-HeaderMoves (length buffer) (leb (2 ^ 63) count) _ _ tt
            (elim (Option-cases (element_count kind count)) [
              | inl f ↦ rw f tt
              | inr (n, f) ↦ rw f placed
            ])))
]

pub drop-shorter : (n : ℕ) (b : Bytes) → 1 ≤ n → 1 ≤ length b → suc (length (drop n b)) ≤ length b
drop-shorter zero b h k = absurd (omega (arith, h))
drop-shorter (suc n) [] h k = absurd (omega (arith, k))
drop-shorter (suc n) (x ∷ b) h k = omega (arith, drop-short n b)

blob-Moves :
    (buffer : Bytes) (allow_null : Bool) (make : ℕ → ℕ × ℕ → Parser)
    → ((len : ℕ) (b : ℕ × ℕ)
        → Within (length buffer) len
        → Within (length buffer) (len_of (make len b)))
    → Moves (length buffer) (bytes_of (read_blob buffer allow_null) make)
blob-Moves buffer allow_null make h = elim (Option-cases (read_blob buffer allow_null)) [
  | inl e ↦ rw (e, Placed) tt
  | inr ((len, b), e) ↦
      let placed : Within (length buffer) len =
        subst (Placed (length buffer) (λ (len, b). len)) e (blob-Placed buffer allow_null) in
      elim (Option-cases b) [
        | inl f ↦ rw (e, Placed) (rw (f, Placed) tt)
        | inr (c, f) ↦ rw (e, Placed) (rw (f, Placed) (h len c placed))
      ]
]

module _ (parse_f64 : Bytes → Option ℕ) where
  parse_header-HeaderMoves :
      (mode : ℕ) (buffer : Bytes) → HeaderMoves (length buffer) (parse_header parse_f64 mode buffer)
  unfolding parse_header
  parse_header-HeaderMoves mode buffer =
      if-HeaderMoves (length buffer) (mode == b'+') _ _ (line-Moves buffer _ (λ line len h. h)) (
        if-HeaderMoves (length buffer) (mode == b'-') _ _ (line-Moves buffer _ (λ line len h. h)) (
          if-HeaderMoves (length buffer) (mode == b':') _ _
            (elim (Option-cases (read_i64 buffer)) [
              | inl e ↦ rw (e, Placed) tt
              | inr ((value, len), e) ↦
                  rw (e, Placed)
                    (subst (Placed (length buffer) (λ (value, len). len)) e (i64-Placed buffer))
            ])
            (if-HeaderMoves (length buffer) (mode == b'$') _ _
              (elim (Option-cases (read_blob buffer true)) [
                | inl e ↦ rw (e, Placed) tt
                | inr ((len, b), e) ↦
                    rw (e, Placed)
                      (subst (Placed (length buffer) (λ (len, b). len)) e (blob-Placed buffer true))
              ])
              (if-HeaderMoves (length buffer) (mode == b'*') _ _
                (aggregate-HeaderMoves buffer AggregateKind.array)
                (if-HeaderMoves (length buffer) (mode == b'_') _ _
                  (line-Moves buffer _
                    (λ line len h. if-Placed (length buffer) len_of (length line == 0) _ _ h tt))
                  (if-HeaderMoves (length buffer) (mode == b'#') _ _
                    (line-Moves buffer _ (λ line len h.
                      some-Moves (length buffer) (boolean_of line) (Parser.boolean len) (λ a. h)))
                    (if-HeaderMoves (length buffer) (mode == b',') _ _
                      (line-Moves buffer _ (λ line len h.
                        some-Moves (length buffer) (double_of parse_f64 line) (Parser.double len)
                          (λ a. h)))
                      (if-HeaderMoves (length buffer) (mode == b'(') _ _
                        (line-Moves buffer _ (λ line len h.
                          if-Placed (length buffer) len_of (is_big_number line) _ _ h tt))
                        (if-HeaderMoves (length buffer) (mode == b'!') _ _
                          (blob-Moves buffer false Parser.bulk_error (λ len b h. h))
                          (if-HeaderMoves (length buffer) (mode == b'=') _ _
                            (blob-Moves buffer false Parser.verbatim (λ len b h. h))
                            (if-HeaderMoves (length buffer) (mode == b'%') _ _
                              (aggregate-HeaderMoves buffer AggregateKind.map)
                              (if-HeaderMoves (length buffer) (mode == b'~') _ _
                                (aggregate-HeaderMoves buffer AggregateKind.set)
                                (if-HeaderMoves (length buffer) (mode == b'>') _ _
                                  (aggregate-HeaderMoves buffer AggregateKind.push)
                                  (if-HeaderMoves (length buffer) (mode == b'|') _ _
                                    (aggregate-HeaderMoves buffer AggregateKind.attribute)
                                    tt))))))))))))))

  header_of-HeaderMoves :
      (buffer : Bytes) → HeaderMoves (length buffer) (header_of parse_f64 buffer)
  header_of-HeaderMoves [] = tt
  header_of-HeaderMoves (mode ∷ line) =
      if-HeaderMoves (length (mode ∷ line)) (ltb (length (mode ∷ line)) 3) (Header.whole none)
        (parse_header parse_f64 mode (mode ∷ line)) tt (parse_header-HeaderMoves mode (mode ∷ line))

  abbrev pub PartsAt : ℕ → Header → Type 0
  PartsAt top h =
      (kind : AggregateKind) × (n : ℕ) × (pos : ℕ) × (h ≡ Header.parts kind n pos) × Within top pos

  pub header-cases :
      (buffer : Bytes)
      → ((meta : Option Parser) × (header_of parse_f64 buffer ≡ Header.whole meta)
          × Moves (length buffer) meta)
        ⊎ PartsAt (length buffer) (header_of parse_f64 buffer)
  header-cases buffer = cases (header_of parse_f64 buffer) (header_of-HeaderMoves buffer)
    where
      cases :
          (h : Header)
          → HeaderMoves (length buffer) h
          → ((meta : Option Parser) × (h ≡ Header.whole meta) × Moves (length buffer) meta)
            ⊎ PartsAt (length buffer) h
      cases (Header.whole meta) m = inl (meta, refl, m)
      cases (Header.parts kind n pos) m = inr (kind, n, pos, refl, m)

  abbrev pub Grown : ℕ → ℕ → Option (ℕ × Parsers) → Type 0
  Grown top full none = Unit
  Grown top full (some (full', elements)) = (full ≤ full') × (full' ≤ full + top)

  -- What is read is never empty.
  abbrev pub Progress : ℕ → Type 0
  Progress fuel =
      ((b : Bytes) → Moves (length b) (parse_meta parse_f64 fuel b))
      × ((n full : ℕ) (b : Bytes) → Grown (length b) full (parse_elements parse_f64 fuel n full b))

  meta-Progress :
      (fuel : ℕ)
      → Progress fuel
      → (b : Bytes) → Moves (length b) (parse_meta parse_f64 (suc fuel) b)
  unfolding parse_meta
  meta-Progress fuel ih b = elim (header-cases b) [
    | inl (meta, e, m) ↦ rw (e, parse_meta) m
    | inr (kind, n, pos, e, at_pos) ↦
        elim (Option-cases (parse_elements parse_f64 fuel n pos (drop pos b))) [
          | inl f ↦ rw (e, parse_meta) (rw (f, Placed) tt)
          | inr ((full, es), f) ↦
              let further : (pos ≤ full) × (full ≤ pos + length (drop pos b)) =
                subst (Grown (length (drop pos b)) pos) f (ih.1 n pos (drop pos b)) in
              let rest = drop-exact pos b at_pos.1 in
              let fits : Within (length b) full =
                (omega (arith, further, at_pos), omega (arith, further, rest)) in
              rw (e, parse_meta)
                (rw (f, Placed)
                  (elim (Bool-cases (is_attribute kind)) [
                    | inr plain ↦ rw (plain, Placed) fits
                    | inl attribute ↦
                        elim (Option-cases (parse_meta parse_f64 fuel (drop full b))) [
                          | inl g ↦ rw (attribute, Placed) (rw (g, Placed) tt)
                          | inr (inner, g) ↦
                              let moved : Within (length (drop full b)) (len_of inner) =
                                subst (Moves (length (drop full b))) g (ih.0 (drop full b)) in
                              let rest' = drop-exact full b fits.1 in
                              rw (attribute, Placed)
                                (rw (g, Placed) (omega (arith, fits), omega (arith, moved, rest')))
                        ]
                  ]))
        ]
  ]

  elements-Progress :
      (fuel : ℕ)
      → Progress fuel
      → (n full : ℕ) (b : Bytes)
      → Grown (length b) full (parse_elements parse_f64 (suc fuel) n full b)
  unfolding parse_elements
  elements-Progress fuel ih zero full b = (omega arith, omega arith)
  elements-Progress fuel ih (suc n) full b = elim (Option-cases (parse_meta parse_f64 fuel b)) [
    | inl e ↦ rw (e, parse_elements) tt
    | inr (meta, e) ↦
        let later = parse_elements parse_f64 fuel n (full + len_of meta) (drop (len_of meta) b) in
        elim (Option-cases later) [
          | inl f ↦ rw (e, parse_elements) (rw (f, Grown) tt)
          | inr ((full', es), f) ↦
              let after = drop (len_of meta) b in
              let further : (full + len_of meta ≤ full')
                  × (full' ≤ full + len_of meta + length after) =
                subst (Grown (length after) (full + len_of meta)) f
                  (ih.1 n (full + len_of meta) after) in
              let moved : Within (length b) (len_of meta) = subst (Moves (length b)) e (ih.0 b) in
              let rest = drop-exact (len_of meta) b moved.1 in
              rw (e, parse_elements)
                (rw (f, Grown) (omega (arith, further), omega (arith, further, rest)))
        ]
  ]

  pub progress : (fuel : ℕ) → Progress fuel
  unfolding parse_meta parse_elements
  progress zero = (λ b. tt, λ n full b. tt)
  progress (suc fuel) = (meta-Progress fuel (progress fuel), elements-Progress fuel (progress fuel))
