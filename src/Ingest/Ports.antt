-- ===== src/Ingest/Ports.antt =====
-- The ports of SRT sources: crates/api/src/srt.rs, `assign_srt_port`.
use shed.Prelude.{
  ◌==◌, Bool-cases, any, ℕ, zero, suc, ◌+◌, ◌-◌, ◌≤◌, ◌<◌, ◌≡◌, refl, sym, ◌∙◌, ◌⊎◌, inl, inr, true,
  false, none, some, List, [], ◌∷◌, ◌++◌, map, arith,
}
use shed.Prelude.Maps.{IdMap}
use shed.Ingest.{first_free, wrap_u16, assign_srt_port}

abbrev pub IsTaken : List ℕ → ℕ → Type 0
IsTaken used p = any (λ q. q == p) used ≡ true

first_or_later : (p q : ℕ) → p ≤ q → (p ≡ q) ⊎ (suc p ≤ q)
first_or_later p q h = ground arith

no_later : (p q : ℕ) → (p ≤ q) ⊎ (q < p)
no_later p q = ground arith

first_free_cases :
    (used : List ℕ) (p left : ℕ)
    → ((port : ℕ) × (first_free used p left ≡ some port)
        × (p ≤ port)
        × (port < p + left)
        × (any (λ q. q == port) used ≡ false)
        × ((q : ℕ) → p ≤ q → q < port → IsTaken used q))
      ⊎ ((first_free used p left ≡ none) × ((q : ℕ) → p ≤ q → q < p + left → IsTaken used q))
unfolding first_free
first_free_cases used p zero = inr (refl, λ q a b. absurd (omega arith))
first_free_cases used p (suc left) = elim (Bool-cases (any (λ q. q == p) used)) [
  | inr free ↦
      inl (
        p,
        rw (first_free, free) refl,
        omega arith,
        omega arith,
        free,
        λ q a b. absurd (omega arith),
      )
  | inl taken ↦ elim (first_free_cases used (suc p) left) [
    | inl (port, e, above, below, free, earlier) ↦ inl (
      port,
      rw (first_free, taken) e,
      omega arith,
      omega arith,
      free,
      λ q a b. elim (first_or_later p q a) [
        | inl same ↦ rw (← same) taken
        | inr more ↦ earlier q more b
      ],
    )
    | inr (e, all) ↦ inr (
      rw (first_free, taken) e,
      λ q a b. elim (first_or_later p q a) [
        | inl same ↦ rw (← same) taken
        | inr more ↦ all q more (omega arith)
      ],
    )
  ]
]

-- A listener's port 0 hides no other.
listeners_hide_zero :
    (listeners : IdMap ℕ) (ports : List ℕ) (p : ℕ)
    → 0 < p
    → any (λ q. q == p) (map (λ l. 0) listeners ++ ports) ≡ any (λ q. q == p) ports
listeners_hide_zero [] ports p h = refl
listeners_hide_zero (l ∷ listeners) ports p h =
    let other : (0 == p) ≡ false = ground arith in
    rw other (listeners_hide_zero listeners ports p h)

module _ (start : ℕ) (listeners : IdMap ℕ) (ports : List ℕ) (positive : 0 < start)
    (fits : start + 100 < 65536) where
  assigned_cases :
      let port = assign_srt_port start listeners ports in
      ((start ≤ port)
        × (port < start + 100)
        × (any (λ q. q == port) ports ≡ false)
        × ((q : ℕ) → start ≤ q → q < port → IsTaken ports q))
      ⊎ ((port ≡ start + 100) × ((q : ℕ) → start ≤ q → q < start + 100 → IsTaken ports q))
  unfolding assign_srt_port
  assigned_cases =
      let used = map (λ l. 0) listeners ++ ports in
      let end : wrap_u16 (start + 100) ≡ start + 100 = omega arith in
      let left : wrap_u16 (start + 100) - start ≡ 100 = omega arith in
      let taken : (q : ℕ) → start ≤ q → IsTaken used q → IsTaken ports q =
        λ q a h. sym (listeners_hide_zero listeners ports q (omega arith)) ∙ h in
      elim (first_free_cases used start 100) [
        | inl (port, e, above, below, free, earlier) ↦
            let found : assign_srt_port start listeners ports ≡ port =
              rw (assign_srt_port, left, e) refl in
            inl (
              rw found (
                above,
                below,
                sym (listeners_hide_zero listeners ports port (omega arith)) ∙ free,
                λ q a b. taken q a (earlier q a b),
              ))
        | inr (e, all) ↦ inr (rw (assign_srt_port, left, e) end, λ q a b. taken q a (all q a b))
      ]

  -- While a port of the configured range of 100 belongs to no SRT source, a new source gets one in
  -- the range that belongs to none, and the first such. The range starts above 0 and ends below 2^16.
  pub assigned_port_is_free :
      (free : ℕ)
      → start ≤ free
      → free < start + 100
      → any (λ q. q == free) ports ≡ false
      → let port = assign_srt_port start listeners ports in
        (start ≤ port) × (port ≤ free) × (any (λ q. q == port) ports ≡ false)
  assigned_port_is_free free above below is_free = elim assigned_cases [
    | inl (a, b, c, earlier) ↦ elim (no_later (assign_srt_port start listeners ports) free) [
      | inl first ↦ (a, first, c)
      | inr later ↦ absurd (ground (arith, earlier free above later, is_free))
    ]
    | inr (e, all) ↦ absurd (ground (arith, all free above below, is_free))
  ]

  -- When every port of the range belongs to a source, a new one gets the port after the range,
  -- whether or not it is taken.
  pub exhausted_range_overflows :
      ((q : ℕ) → start ≤ q → q < start + 100 → IsTaken ports q)
      → assign_srt_port start listeners ports ≡ start + 100
  exhausted_range_overflows all = elim assigned_cases [
    | inl (a, b, c, earlier) ↦
        absurd (ground (arith, all (assign_srt_port start listeners ports) a b, c))
    | inr (e, _) ↦ e
  ]
