-- ===== src/Health/Summary.antt =====
-- The traffic light of the gateway.
use sentinel_adc.Base.{
  ◌<◌, ◌≡◌, ◌↔◌, refl, Bool, true, false, ◌&&◌, List, [], ◌∷◌, arith, length, filter, All,
  length-filter-le,
}
use sentinel_adc.Pool.{Backend}
use sentinel_adc.Health.{Store, green, red, get_gateway_overall_health, is_status_healthy}

-- The backends that the light counts.
abbrev pub is_up : Backend → Bool
is_up b = b.healthy && is_status_healthy b.status

filter-All :
    (p : Backend → Bool) (bs : List Backend)
    → length (filter p bs) ≡ length bs
    → All (λ b. p b ≡ true) bs
unfolding filter
filter-All p [] h = tt
filter-All p (b ∷ bs) h = ground (arith, length-filter-le p bs, filter-All p bs)

All-filter :
    (p : Backend → Bool) (bs : List Backend)
    → All (λ b. p b ≡ true) bs
    → length (filter p bs) ≡ length bs
unfolding filter
All-filter p [] h = refl
All-filter p (b ∷ bs) h = ground (arith, All-filter p bs)

filter-none :
    (p : Backend → Bool) (bs : List Backend) → length (filter p bs) ≡ 0 → All (λ b. p b ≡ false) bs
unfolding filter
filter-none p [] h = tt
filter-none p (b ∷ bs) h = ground (arith, filter-none p bs)

none-filter :
    (p : Backend → Bool) (bs : List Backend) → All (λ b. p b ≡ false) bs → length (filter p bs) ≡ 0
unfolding filter
none-filter p [] h = refl
none-filter p (b ∷ bs) h = ground (arith, none-filter p bs)

-- For a pool that is not empty the light is green exactly when every backend is up, and red exactly
-- when none is.
pub overall_lem :
    (st : Store)
    → 0 < length st.pool
    → ((get_gateway_overall_health st ≡ green) ↔ All (λ b. is_up b ≡ true) st.pool)
      × ((get_gateway_overall_health st ≡ red) ↔ All (λ b. is_up b ≡ false) st.pool)
unfolding get_gateway_overall_health
overall_lem st ne = (
  (
    (λ e. filter-All is_up st.pool (ground arith)),
    (λ h. ground (arith, All-filter is_up st.pool h)),
  ),
  (
    (λ e. filter-none is_up st.pool (ground arith)),
    (λ h. ground (arith, none-filter is_up st.pool h)),
  ),
)
