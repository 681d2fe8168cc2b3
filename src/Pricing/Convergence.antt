-- ===== src/Pricing/Convergence.antt =====
-- The twelve attempts of `resolveEstimatedChargeAmountKobo` under the default rules.
use gathergo_backend.Base.{
  ℕ, suc, ◌+◌, ◌*◌, ◌-◌, ◌/◌, ◌≤◌, ◌<◌, ◌≡◌, ◌⊎◌, inl, inr, arith, ◌==◌, if◌then◌else◌,
}
use gathergo_backend.Pricing.Fees.{
  PaymentProvider, paystack, alat_transfer, buyer, Env, default_rule, rule_fee,
  get_provider_fee_rule, estimate_provider_fee_kobo,
}
use gathergo_backend.Pricing.Summary.{attempt_charge, resolve_estimated_charge_amount_kobo}
use gathergo_backend.Pricing.Estimate.{
  IsMonotone, IsFixed, rule_fee_mono, attempt-suc-IsFixed, attempt-IsFixed_of_IsFixed,
}

-- Inside a range the fee grows by at most 150 basis points of the charge, rounded up, and never
-- grows twice in a row when the charge goes up by one kobo.
record Flat (fee : ℕ → ℕ) (In : ℕ → Type 0) : Type 0 where
  shrink : (c c' : ℕ) → In c → In c' → c ≤ c' → fee c' ≤ fee c + ((c' - c) * 150 + 9999) / 10000
  plateau : (c : ℕ) → In c → In (c + 2) → fee c < fee (c + 1) → fee (c + 2) ≤ fee (c + 1)

-- A charge either lies in the range or has left it, and from outside the loop settles in `later`
-- attempts.
module _ (fee : ℕ → ℕ) (floor later : ℕ) (In Out : ℕ → Type 0) (mono : IsMonotone fee)
    (flat : Flat fee In) (split : (c c' : ℕ) → In c → c ≤ c' → In c' ⊎ Out c')
    (leave : (n c : ℕ)
      → later ≤ n
      → Out c
      → floor ≤ c
      → c ≤ floor + fee c
      → IsFixed fee floor (attempt_charge n fee floor c)) where
  abbrev Settles : ℕ → ℕ → Type 0
  Settles n c = IsFixed fee floor (attempt_charge n fee floor c)

  -- The charge is the last but one or earlier, and the next is at most a kobo away, twice.
  settle_twice :
      (n c : ℕ)
      → later ≤ n
      → In c
      → floor + fee c ≡ c + 1
      → floor + fee (c + 1) ≡ c + 2
      → Settles n (c + 2)
  settle_twice n c h i e e2 = elim (split c (c + 2) i (omega arith)) [
    | inl i2 ↦
        attempt-IsFixed_of_IsFixed n fee floor (c + 2)
          (omega (arith, flat.plateau c i i2 (omega arith), mono (c + 1) (c + 2) (omega arith)))
    | inr o ↦ leave n (c + 2) h o (omega arith) (omega (arith, mono (c + 1) (c + 2) (omega arith)))
  ]

  -- A charge in the range whose next is at most `d` above it.
  abbrev Near : ℕ → ℕ → Type 0
  Near d c = In c × (c ≤ floor + fee c) × (floor + fee c ≤ c + d)

  -- After a step of one kobo the next step is of one kobo or of none.
  unit_step :
      (c : ℕ)
      → In c
      → In (c + 1)
      → floor + fee c ≡ c + 1
      → (c + 1 ≡ floor + fee (c + 1)) ⊎ (floor + fee (c + 1) ≡ c + 2)
  unit_step c i i1 e =
      omega (arith, flat.shrink c (c + 1) i i1 (omega arith), mono c (c + 1) (omega arith))

  settle_unit_next : (n c : ℕ) → later ≤ n → In c → floor + fee c ≡ c + 1 → Settles (suc n) (c + 1)
  settle_unit_next n c h i e = elim (split c (c + 1) i (omega arith)) [
    | inl i1 ↦ elim (unit_step c i i1 e) [
      | inl same ↦ attempt-IsFixed_of_IsFixed (suc n) fee floor (c + 1) same
      | inr next ↦ attempt-suc-IsFixed n fee floor (c + 1) (rw next (settle_twice n c h i e next))
    ]
    | inr o ↦
        leave (suc n) (c + 1) (omega arith) o (omega arith)
          (omega (arith, mono c (c + 1) (omega arith)))
  ]

  settle_unit : (n c : ℕ) → later ≤ n → Near 1 c → Settles (suc (suc n)) c
  settle_unit n c h (i, up, near) = elim same_or_next [
    | inl same ↦ attempt-IsFixed_of_IsFixed (suc (suc n)) fee floor c same
    | inr next ↦ attempt-suc-IsFixed (suc n) fee floor c (rw next (settle_unit_next n c h i next))
  ]
    where
      same_or_next : (c ≡ floor + fee c) ⊎ (floor + fee c ≡ c + 1)
      same_or_next = omega arith

  settle_advance :
      (n c d d' : ℕ)
      → later ≤ n
      → (d * 150 + 9999) / 10000 ≤ d'
      → ((c' : ℕ) → Near d' c' → Settles n c')
      → Near d c
      → Settles (suc n) c
  settle_advance n c d d' h shrunk next (i, up, near) =
      attempt-suc-IsFixed n fee floor c (go (split c (floor + fee c) i up))
    where
      go : In (floor + fee c) ⊎ Out (floor + fee c) → Settles n (floor + fee c)
      go (inl i') = next (floor + fee c) (
        i',
        omega (arith, mono c (floor + fee c) up),
        omega (arith, flat.shrink c (floor + fee c) i i' up),
      )
      go (inr o) =
          leave n (floor + fee c) h o (omega arith) (omega (arith, mono c (floor + fee c) up))

  -- From a step of at most 3,750 kobo four attempts settle, from 200,000 five.
  settle_3750 : (n c : ℕ) → later ≤ n → Near 3750 c → Settles (suc (suc (suc (suc n)))) c
  settle_3750 n c h near =
      settle_advance (suc (suc (suc n))) c 3750 57 (omega arith) (omega arith)
        (λ c1.
          settle_advance (suc (suc n)) c1 57 1 (omega arith) (omega arith)
            (λ c2. settle_unit n c2 h))
        near

  settle_200000 : (n c : ℕ) → later ≤ n → Near 200000 c → Settles (suc (suc (suc (suc (suc n))))) c
  settle_200000 n c h near =
      settle_advance (suc (suc (suc (suc n)))) c 200000 3000 (omega arith) (omega arith)
        (λ c1. settle_advance (suc (suc (suc n))) c1 3000 45 (omega arith) (omega arith) (λ c2.
          settle_advance (suc (suc n)) c2 45 1 (omega arith) (omega arith)
            (λ c3. settle_unit n c3 h)))
        near

-- The default rules.
abbrev paystack_fee : ℕ → ℕ
paystack_fee c = if c == 0 then 0 else rule_fee (default_rule paystack) c

abbrev alat_fee : ℕ → ℕ
alat_fee c = if c == 0 then 0 else rule_fee (default_rule alat_transfer) c

paystack_far_flat : Flat paystack_fee (λ c. 250000 ≤ c)
unfolding rule_fee
paystack_far_flat = record {
  shrink = λ c c' i i' le. ground arith;
  plateau = λ c i i' grows. ground arith;
}

paystack_near_flat : Flat paystack_fee (λ c. c < 250000)
unfolding rule_fee
paystack_near_flat = record {
  shrink = λ c c' i i' le. ground arith;
  plateau = λ c i i' grows. ground arith;
}

alat_flat : Flat alat_fee (λ c. 0 ≤ c)
unfolding rule_fee
alat_flat = record { shrink = λ c c' i i' le. ground arith; plateau = λ c i i' grows. ground arith }

paystack_fee_mono : IsMonotone paystack_fee
paystack_fee_mono a b h = ground (arith, rule_fee_mono (default_rule paystack) a b h)

alat_fee_mono : IsMonotone alat_fee
alat_fee_mono a b h = ground (arith, rule_fee_mono (default_rule alat_transfer) a b h)

alat_settles :
    (n floor c : ℕ)
    → 5 ≤ n
    → floor ≤ c
    → c ≤ floor + alat_fee c
    → IsFixed alat_fee floor (attempt_charge n alat_fee floor c)
unfolding rule_fee
alat_settles (suc (suc (suc (suc (suc n))))) floor c h low up =
    settle_200000 alat_fee floor 0 (λ c. 0 ≤ c) (λ c. ⊥) alat_fee_mono alat_flat
      (λ c c' _ _. inl (omega arith)) (λ n c _ o _ _. absurd o) n c (omega arith)
      (omega arith, up, ground arith)
alat_settles n floor c h low up = absurd (omega arith)

paystack_settles_far :
    (floor n c : ℕ)
    → 5 ≤ n
    → 250000 ≤ c
    → floor ≤ c
    → c ≤ floor + paystack_fee c
    → IsFixed paystack_fee floor (attempt_charge n paystack_fee floor c)
unfolding rule_fee
paystack_settles_far floor (suc (suc (suc (suc (suc n))))) c h far low up =
    settle_200000 paystack_fee floor 0 (λ c. 250000 ≤ c) (λ c. ⊥) paystack_fee_mono
      paystack_far_flat (λ c c' from up. inl (omega arith)) (λ n c _ o _ _. absurd o) n c
      (omega arith) (far, up, ground arith)
paystack_settles_far floor n c h far low up = absurd (omega arith)

near_or_far : (c : ℕ) → (c < 250000) ⊎ (250000 ≤ c)
near_or_far c = omega arith

paystack_settles :
    (n floor c : ℕ)
    → 9 ≤ n
    → floor ≤ c
    → c ≤ floor + paystack_fee c
    → IsFixed paystack_fee floor (attempt_charge n paystack_fee floor c)
unfolding rule_fee
paystack_settles (suc (suc (suc (suc n)))) floor c h low up = elim (near_or_far c) [
  | inl near ↦
      settle_3750 paystack_fee floor 5 (λ c. c < 250000) (λ c. 250000 ≤ c) paystack_fee_mono
        paystack_near_flat (λ c c' _ _. near_or_far c') (paystack_settles_far floor) n c
        (omega arith) (near, up, ground arith)
  | inr far ↦ paystack_settles_far floor (suc (suc (suc (suc n)))) c (omega arith) far low up
]
paystack_settles n floor c h low up = absurd (omega arith)

-- Where the provider's rule is the default one, the buyer's charge is exactly the base with the
-- buyer's platform fee and the provider's estimated fee on that charge: the twelve attempts of the
-- loop always reach the fixed point.
pub resolve-IsFixed_of_default :
    (env : Env) (base buyer_platform_fee : ℕ) (provider : PaymentProvider)
    → get_provider_fee_rule env provider ≡ default_rule provider
    → let charge =
        resolve_estimated_charge_amount_kobo env base buyer_platform_fee provider buyer in
      charge ≡ base + buyer_platform_fee + estimate_provider_fee_kobo env provider charge
unfolding resolve_estimated_charge_amount_kobo estimate_provider_fee_kobo
resolve-IsFixed_of_default env base fee paystack e = rw e (
    ground (
      arith,
      paystack_settles 12 (base + fee) (base + fee) (omega arith) (omega arith) (omega arith),
    ))
resolve-IsFixed_of_default env base fee alat_transfer e = rw e (
    ground
      (arith, alat_settles 12 (base + fee) (base + fee) (omega arith) (omega arith) (omega arith)))
