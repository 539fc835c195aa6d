-- ===== src/Telegram/Backoff.antt =====
-- What the loop of RetryDelay computes.
use agent_chun_su.Base.{
  ℕ, zero, suc, ◌-◌, ◌*◌, ◌/◌, ◌≤◌, ◌≡◌, refl, ◌∙◌, ap, inl, inr, Option, arith, ltb, if◌then◌else◌,
  Bool-cases,
}
use agent_chun_su.Telegram.{ApiError, Pace, poll_delay, ceiling, back_off, flood_delay, retry_delay}

-- Twice as much, so many times.
unfoldable pub doubled : ℕ → ℕ → ℕ
doubled zero d = d
doubled (suc n) d = doubled n (d * 2)

abbrev pub least : ℕ → ℕ → ℕ
least a b = if ltb b a then b else a

doubled-grows : (n d : ℕ) → d ≤ doubled n d
unfolding doubled
doubled-grows zero d = omega arith
doubled-grows (suc n) d = omega (arith, doubled-grows n (d * 2))

back_off-top : (n top : ℕ) → back_off n top top ≡ top
unfolding back_off
back_off-top zero top = refl
back_off-top (suc n) top = ground arith

back_off_lem : (n top d : ℕ) → d ≤ top → back_off n top d ≡ least top (doubled n d)
unfolding back_off doubled
back_off_lem zero top d h = ground arith
back_off_lem (suc n) top d h = elim (Bool-cases (ltb d top)) [
  | inr full ↦ rw full (ground (arith, doubled-grows n (d * 2)))
  | inl less ↦ elim (Bool-cases (ltb (top / 2) d)) [
    | inl over ↦ rw (less, over) (back_off-top n top ∙ ground (arith, doubled-grows n (d * 2)))
    | inr under ↦ rw (less, under) (back_off_lem n top (d * 2) (ground arith))
  ]
]

-- RetryDelay waits for the polling interval, twice as long with each further failure, and never longer
-- than the ceiling, which is the retry delay or the polling interval if that is longer; where the
-- server asks for a longer pause, it waits just as long as asked.
retry_delay_lem :
    (e : Option ApiError) (failures : ℕ) (p : Pace)
    → retry_delay e failures p
      ≡ flood_delay e (least (ceiling p) (doubled (failures - 1) (poll_delay p)))
unfolding retry_delay
retry_delay_lem e failures p =
    ap (flood_delay e) (back_off_lem (failures - 1) (ceiling p) (poll_delay p) (ground arith))
