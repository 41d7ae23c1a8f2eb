-- ===== src/Mocha/Scan.antt =====
-- cache_cat/src/mocha/mod.rs, `keys`: one pass over the table, at the two clocks. The list is not
-- there if the matcher panics on a key.
use cache_cat.Prelude.{
  ℕ, ◌≡◌, refl, ◌∙◌, ap, sym, Bool, true, false, not, ◌&&◌, ◌||◌, Option, none, some, List, [], ◌∷◌,
  leb, if◌then◌else◌, Eq, same, same_iff, Bytes, arith, All, count, count-nil, count-cons, bit,
  Option-cases, Bool-cases, inl, inr,
}
use cache_cat.Map.{HashMap}
use cache_cat.Glob.{Match, answer, panics, no_fuel, matches}
use cache_cat.Mocha.{Entry, Mocha}

-- Either clock has reached the instant of the entry.
abbrev pub hidden : Option ℕ → ℕ → Option ℕ → Bool
hidden none write_clock read_clock = false
hidden (some expire_at) write_clock none = leb expire_at write_clock
hidden (some expire_at) write_clock (some clock) = leb expire_at write_clock || leb expire_at clock

-- The list with the key in front, if it matches.
abbrev pub picked : {K : Type 0} → Match → Option (List K) → K → Option (List K)
picked (answer b) none key = none
picked (answer b) (some keys) key = some (if b then key ∷ keys else keys)
picked panics rest key = none
picked no_fuel rest key = none

picked-some :
    {K : Type 0} (mt : Match) (rest : Option (List K)) (key : K) (ks : List K)
    → picked mt rest key ≡ some ks
    → (b : Bool) × (keys : List K) × (mt ≡ answer b)
      × (rest ≡ some keys)
      × (ks ≡ (if b then key ∷ keys else keys))
picked-some (answer b) none key ks eq = absurd (ground (arith, eq))
picked-some (answer b) (some keys) key ks eq = (b, keys, refl, refl, ground (arith, eq))
picked-some panics rest key ks eq = absurd (ground (arith, eq))
picked-some no_fuel rest key ks eq = absurd (ground (arith, eq))

module _ {K V : Type 0} ⦃e : Eq K⦄ (h : HashMap K (Entry V)) (as_ref : K → Bytes) where
  unfoldable pub scan : ℕ → Option ℕ → Bytes → List (K × Entry V) → Option (List K)
  scan write_clock read_clock pattern [] = some []
  scan write_clock read_clock pattern ((key, entry) ∷ entries) =
      let rest = scan write_clock read_clock pattern entries in
      elim (hidden entry.expire_at write_clock read_clock) [
        | true ↦ rest
        | false ↦ picked (matches pattern (as_ref key)) rest key
      ]

  unfoldable pub keys : Mocha h → Bytes → Option ℕ → Option (List K)
  unfolding scan
  keys m pattern read_clock = scan m.logic_clock read_clock pattern (h.entries m.map)

  abbrev is_match : Match → Bool
  is_match (answer b) = b
  is_match panics = false
  is_match no_fuel = false

  -- The key is in the table, neither clock has reached its instant, and the pattern matches it.
  abbrev pub listed : Option (Entry V) → ℕ → Option ℕ → Bytes → K → Bool
  listed none write_clock read_clock pattern key = false
  listed (some entry) write_clock read_clock pattern key =
      not (hidden entry.expire_at write_clock read_clock) && is_match (matches pattern (as_ref key))

  scan_lem :
      (map : h.Map) (w : ℕ) (r : Option ℕ) (pattern : Bytes) (k : K) (es : List (K × Entry V))
      (ks : List K)
      → All (λ p. h.get map p.0 ≡ some p.1) es
      → scan w r pattern es ≡ some ks
      → count (λ j. same j k) ks
        ≡ (if listed (h.get map k) w r pattern k then count (λ p. same p.0 k) es else 0)
  unfolding scan
  scan_lem map w r pattern k [] ks all eq =
      ground
        (arith, eq, count-nil (λ (j : K). same j k), count-nil (λ (p : K × Entry V). same p.0 k))
  scan_lem map w r pattern k ((j, entry) ∷ es) ks all eq =
      let more = count-cons (λ p. same p.0 k) (j, entry) es in
      let held_there : same j k ≡ true → h.get map k ≡ some entry =
        λ t. ap (h.get map) (sym ((same_iff j k).0 t)) ∙ all.0 in
      let key_there : same j k ≡ true → as_ref k ≡ as_ref j =
        λ t. ap as_ref (sym ((same_iff j k).0 t)) in
      elim (Bool-cases (hidden entry.expire_at w r)) [
        | inl gone ↦
            (let ih = scan_lem map w r pattern k es ks all.1 (rw (gone, scan) at eq) in
              elim (Bool-cases (same j k)) [
                | inl t ↦ ground (arith, t, ih, more, held_there t, gone)
                | inr f ↦ ground (arith, f, ih, more)
              ])
        | inr there ↦
            (let (b, keys, hit, rest, got) =
                picked-some (matches pattern (as_ref j)) (scan w r pattern es) j ks
                  (rw (there, scan) at eq) in
              let ih = scan_lem map w r pattern k es keys all.1 rest in
              let front = count-cons (λ i. same i k) j keys in
              elim (Bool-cases (same j k)) [
                | inl t ↦
                    ground (arith, t, ih, more, front, held_there t, there, got, hit, key_there t)
                | inr f ↦ ground (arith, f, ih, more, front, got)
              ])
      ]

  -- A key is listed by `keys`, and then once, just if it is in the table, neither clock has reached
  -- its instant, and the pattern matches it.
  pub keys_lem :
      (m : Mocha h) (pattern : Bytes) (read_clock : Option ℕ) (k : K) (ks : List K)
      → keys m pattern read_clock ≡ some ks
      → count (λ j. same j k) ks ≡ bit (listed (h.get m.map k) m.logic_clock read_clock pattern k)
  unfolding keys
  keys_lem m pattern read_clock k ks eq =
      let all =
        scan_lem m.map m.logic_clock read_clock pattern k (h.entries m.map) ks (h.entries-All m.map)
          eq in
      let once = h.entries-count m.map k in
      elim (Option-cases (h.get m.map k)) [
        | inl gone ↦ ground (arith, all, gone)
        | inr (entry, there) ↦ ground (arith, all, once, there)
      ]
