-- ===== src/Pipeline/Topology/Tiers.antt =====
-- The names of the retry tiers.
use ragent.Common.{ℕ, ◌*◌, ◌≡◌, refl, arith, ◌∙◌, sym, ap}
use ragent.Pipeline.Topology.{TierUnit, unit_ms, tier_parts, retry_exchange_name}

-- The number of a tier's label times its unit is the delay, so delays with one label are equal.
pub tier_parts_exact : (delay : ℕ) → (tier_parts delay).0 * unit_ms (tier_parts delay).1 ≡ delay
unfolding tier_parts unit_ms
tier_parts_exact delay = ground arith

pub tier_parts_inj : (a b : ℕ) → tier_parts a ≡ tier_parts b → a ≡ b
tier_parts_inj a b e =
    sym (tier_parts_exact a) ∙ (ap (λ (t : ℕ × TierUnit). t.0 * unit_ms t.1) e ∙ tier_parts_exact b)

tier_names :
    (retry_exchange_name 5_000 ≡ "ragent.retry.5s")
    × (retry_exchange_name 30_000 ≡ "ragent.retry.30s")
    × (retry_exchange_name 300_000 ≡ "ragent.retry.5m")
unfolding retry_exchange_name
tier_names = (refl, refl, refl)
