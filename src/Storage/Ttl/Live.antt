-- ===== src/Storage/Ttl/Live.antt =====
-- What the stripes add up to.
use native.Mathlib.Nat.{mod-lt}
use fyro_db.Prelude.{
  ℕ, zero, suc, ◌+◌, ◌-◌, ◌%◌, ◌^◌, ◌<◌, ◌≡◌, refl, sym, ap, ◌∙◌, inl, inr, min, Option, none, some,
  List, [], ◌∷◌, arith, ltb, Bool-cases, length, length-modify, modify,
}
use fyro_db.Storage.Ttl.{
  TtlCounters, stripe, fetch_add, fetch_sub, add_one, remove_one, total_onto, total_adds,
  total_removes, live, set_live,
}

total_onto-lt : (sum : ℕ) (stripes : List ℕ) → sum < 2 ^ 64 → total_onto sum stripes < 2 ^ 64
unfolding total_onto
total_onto-lt sum [] h = h
total_onto-lt sum (value ∷ stripes) h = total_onto-lt ((sum + value) % 2 ^ 64) stripes (omega arith)

-- More in the sum is more in the total.
total_onto-add :
    (more sum : ℕ) (stripes : List ℕ)
    → sum < 2 ^ 64
    → total_onto ((sum + more) % 2 ^ 64) stripes ≡ (total_onto sum stripes + more) % 2 ^ 64
unfolding total_onto
total_onto-add more sum [] h = refl
total_onto-add more sum (value ∷ stripes) h =
    ap (λ s. total_onto s stripes) (omega arith)
    ∙ total_onto-add more ((sum + value) % 2 ^ 64) stripes (omega arith)

-- A change of one stripe by some number, in the wrap-around, is a change of the total by it.
total_onto-modify :
    (f : ℕ → ℕ) (more i sum : ℕ) (stripes : List ℕ)
    → ((value : ℕ) → f value ≡ (value + more) % 2 ^ 64)
    → i < length stripes
    → sum < 2 ^ 64
    → total_onto sum (modify f i stripes) ≡ (total_onto sum stripes + more) % 2 ^ 64
unfolding total_onto
total_onto-modify f more i sum [] moves h small = elim h [ ]
total_onto-modify f more zero sum (value ∷ stripes) moves h small =
    ap (λ v. total_onto ((sum + v) % 2 ^ 64) stripes) (moves value)
    ∙ ap (λ s. total_onto s stripes) (omega arith)
    ∙ total_onto-add more ((sum + value) % 2 ^ 64) stripes (omega arith)
total_onto-modify f more (suc i) sum (value ∷ stripes) moves h small =
    total_onto-modify f more i ((sum + value) % 2 ^ 64) stripes moves (omega arith) (omega arith)

-- Both counters have the same stripes, one at least.
pub record IsStriped (counters : TtlCounters) : Type 0 where
  pub some_stripe : 0 < length counters.adds
  pub even : length counters.removes ≡ length counters.adds

module _ (cpu : Option ℕ) (counters : TtlCounters) (h : IsStriped counters) where
  stripe-lt : stripe cpu counters < length counters.adds
  unfolding stripe
  stripe-lt = stripe_bound cpu
    where
      stripe_bound : (cpu : Option ℕ) → stripe cpu counters < length counters.adds
      stripe_bound none = h.some_stripe
      stripe_bound (some cpu) = mod-lt cpu h.some_stripe

  pub total_adds-add_one : total_adds (add_one cpu counters) ≡ (total_adds counters + 1) % 2 ^ 64
  unfolding total_adds add_one
  total_adds-add_one =
      total_onto-modify (fetch_add 1) 1 (stripe cpu counters) 0 counters.adds (λ v. refl) stripe-lt
        (omega arith)

  pub total_removes-remove_one :
      total_removes (remove_one cpu counters) ≡ (total_removes counters + 1) % 2 ^ 64
  unfolding total_removes remove_one
  total_removes-remove_one =
      total_onto-modify (fetch_add 1) 1 (stripe cpu counters) 0 counters.removes (λ v. refl)
        (omega (arith, stripe-lt, h.even)) (omega arith)

  pub add_one-IsStriped : IsStriped (add_one cpu counters)
  unfolding add_one
  add_one-IsStriped = record {
    some_stripe =
        omega
          (arith, length-modify (fetch_add 1) (stripe cpu counters) counters.adds, h.some_stripe);
    even = h.even ∙ sym (length-modify (fetch_add 1) (stripe cpu counters) counters.adds);
  }

  pub remove_one-IsStriped : IsStriped (remove_one cpu counters)
  unfolding remove_one
  remove_one-IsStriped = record {
    some_stripe = h.some_stripe;
    even = length-modify (fetch_add 1) (stripe cpu counters) counters.removes ∙ h.even;
  }

-- After the live count was set, it is that number, or the number of the keys added where that is
-- smaller, even if the stripe that takes the correction wraps around.
pub live-set_live :
    (live_ttls : ℕ) (counters : TtlCounters)
    → IsStriped counters
    → live (set_live live_ttls counters) ≡ min live_ttls (total_adds counters)
unfolding live set_live total_adds total_removes
live-set_live live_ttls counters h =
    let adds = total_onto 0 counters.adds in
    let current = total_onto 0 counters.removes in
    let target : ℕ = adds - live_ttls in
    let small = total_onto-lt 0 counters.adds (omega arith) in
    let fits = total_onto-lt 0 counters.removes (omega arith) in
    elim (Bool-cases (ltb current target)) [
      | inl up ↦
          rw
            (
              up,
              total_onto-modify (fetch_add (target - current)) (target - current) 0 0
                  counters.removes (λ v. refl) (omega (arith, h.even, h.some_stripe)) (omega arith),
            )
            (ground (arith, small, fits))
      | inr not_up ↦ elim (Bool-cases (ltb target current)) [
        | inl down ↦
            rw
              (
                not_up,
                down,
                total_onto-modify (fetch_sub (current - target)) (2 ^ 64 - (current - target)) 0 0
                    counters.removes (λ v. omega (arith, fits))
                    (omega (arith, h.even, h.some_stripe)) (omega arith),
              )
              (ground (arith, small, fits))
        | inr level ↦ rw (not_up, level) (ground (arith, small, fits))
      ]
    ]
