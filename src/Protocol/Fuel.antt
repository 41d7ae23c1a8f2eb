-- ===== src/Protocol/Fuel.antt =====
-- The fuel of the parser of cache_cat/src/protocol/resp.rs is enough, also for what it refuses.
use cache_cat.Prelude.{
  ℕ, zero, suc, ◌+◌, ◌*◌, ◌<◌, ◌≡◌, refl, ◌∙◌, sym, subst, Option, none, Option-cases, [], ◌∷◌,
  Bytes, length, drop, arith, Bool-cases, inl, inr,
}
use cache_cat.Protocol.Parse.{len_of, parse_meta, parse_elements, is_attribute}
use cache_cat.Protocol.Extent.{Placed, Moves, drop-shorter, header-cases, Grown, progress}

module _ (parse_f64 : Bytes → Option ℕ) where
  -- The same result with two amounts of fuel that are both enough.
  abbrev Agrees : ℕ → Type 0
  Agrees fuel =
      (more : ℕ)
      → ((b : Bytes)
          → 2 * length b < fuel
          → 2 * length b < more
          → parse_meta parse_f64 fuel b ≡ parse_meta parse_f64 more b)
        × ((n full : ℕ) (b : Bytes)
            → 2 * length b + 1 < fuel
            → 2 * length b + 1 < more
            → parse_elements parse_f64 fuel n full b ≡ parse_elements parse_f64 more n full b)

  meta-nil : (fuel : ℕ) → parse_meta parse_f64 fuel [] ≡ none
  unfolding parse_meta
  meta-nil zero = refl
  meta-nil (suc fuel) = refl

  meta-Agrees :
      (fuel : ℕ)
      → Agrees fuel
      → (more : ℕ) (b : Bytes) → 2 * length b < suc fuel
      → 2 * length b < suc more
      → parse_meta parse_f64 (suc fuel) b ≡ parse_meta parse_f64 (suc more) b
  unfolding parse_meta
  meta-Agrees fuel ih more [] p q = refl
  meta-Agrees fuel ih more (x ∷ t) p q =
      let b = x ∷ t in
      elim (header-cases parse_f64 b) [
        | inl (meta, e, m) ↦ rw (e, parse_meta) refl
        | inr (kind, n, pos, e, at_pos) ↦
            let less = drop-shorter pos b at_pos.0 (omega arith) in
            let same_parts =
              (ih more).1 n pos (drop pos b) (omega (arith, less, p)) (omega (arith, less, q)) in
            elim (Option-cases (parse_elements parse_f64 fuel n pos (drop pos b))) [
              | inl f ↦ rw (e, parse_meta) (rw (f, sym same_parts ∙ f) refl)
              | inr ((full, es), f) ↦
                  let further =
                    subst (Grown parse_f64 (length (drop pos b)) pos) f
                      ((progress parse_f64 fuel).1 n pos (drop pos b)) in
                  let less' =
                    drop-shorter full b (omega (arith, at_pos.0, further.0)) (omega arith) in
                  let same_inner =
                    (ih more).0 (drop full b) (omega (arith, less', p)) (omega (arith, less', q)) in
                  rw (e, parse_meta)
                    (rw (f, sym same_parts ∙ f)
                      (elim (Bool-cases (is_attribute kind)) [
                        | inr plain ↦ rw plain refl
                        | inl attribute ↦ rw attribute (rw same_inner refl)
                      ]))
            ]
      ]

  elements-Agrees :
      (fuel : ℕ)
      → Agrees fuel
      → (more n full : ℕ) (b : Bytes) → 2 * length b + 1 < suc fuel
      → 2 * length b + 1 < suc more
      → parse_elements parse_f64 (suc fuel) n full b ≡ parse_elements parse_f64 (suc more) n full b
  unfolding parse_elements
  elements-Agrees fuel ih more zero full b p q = refl
  elements-Agrees fuel ih more (suc n) full [] p q =
      rw (meta-nil fuel, meta-nil more, parse_elements) refl
  elements-Agrees fuel ih more (suc n) full (x ∷ t) p q =
      let b = x ∷ t in
      let same_meta = (ih more).0 b (omega (arith, p)) (omega (arith, q)) in
      elim (Option-cases (parse_meta parse_f64 fuel b)) [
        | inl f ↦ rw (f, sym same_meta ∙ f, parse_elements) refl
        | inr (meta, f) ↦
            let moved = subst (Moves (length b)) f ((progress parse_f64 fuel).0 b) in
            let less = drop-shorter (len_of meta) b moved.0 (omega arith) in
            let same_rest =
              (ih more).1 n (full + len_of meta) (drop (len_of meta) b) (omega (arith, less, p))
                (omega (arith, less, q)) in
            rw (f, sym same_meta ∙ f, parse_elements) (rw same_rest refl)
      ]

  agrees : (fuel : ℕ) → Agrees fuel
  agrees zero more = (λ b p q. absurd (omega (arith, p)), λ n full b p q. absurd (omega (arith, p)))
  agrees (suc fuel) zero =
      (λ b p q. absurd (omega (arith, q)), λ n full b p q. absurd (omega (arith, q)))
  agrees (suc fuel) (suc more) =
      (meta-Agrees fuel (agrees fuel) more, elements-Agrees fuel (agrees fuel) more)

  -- The parser never runs out of fuel, on any buffer: with more fuel than twice the length of the
  -- buffer it comes to one and the same result. And what it finds takes up at least one byte and
  -- does not go past the end of the buffer.
  pub parse_meta-total :
      (buffer : Bytes) (fuel : ℕ)
      → 2 * length buffer < fuel
      → (parse_meta parse_f64 fuel buffer ≡ parse_meta parse_f64 (2 * length buffer + 1) buffer)
        × Placed (length buffer) len_of (parse_meta parse_f64 fuel buffer)
  parse_meta-total buffer fuel h = (
    (agrees fuel (2 * length buffer + 1)).0 buffer h (omega arith),
    (progress parse_f64 fuel).0 buffer,
  )
