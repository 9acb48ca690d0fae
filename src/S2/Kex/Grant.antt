-- ===== src/S2/Kex/Grant.antt =====
-- Which keys a node gets.
use zwaved.Base.{
  ℕ, ◌<◌, ◌≡◌, refl, Bool, true, false, ◌&&◌, arith, ◌==◌, if◌then◌else◌, min, bit_and,
}
use zwaved.Base.Bits.{same_below, same_below_lem}
use zwaved.Base.Bits.And.{digit, digit-bit_and, digit-lt}
use zwaved.S2.Kex.{Report, grant_keys}

mask_digit : (k : ℕ) → k < 8 → digit k 0xfb ≡ (if k == 2 then 0 else 1)
unfolding digit same_below
mask_digit k h = same_below_lem (λ k. digit k 0xfb) (λ k. if k == 2 then 0 else 1) 8 k h refl

granted_digit :
    (csa : Bool) (requested supported k : ℕ)
    → k < 8
    → digit k
        (if csa then bit_and (bit_and requested supported) 0xfb else bit_and requested supported)
      ≡ (if csa && (k == 2) then 0 else min (digit k requested) (digit k supported))
granted_digit false requested supported k h = digit-bit_and k requested supported
granted_digit true requested supported k h = ground (
  arith,
  digit-bit_and k (bit_and requested supported) 0xfb,
  digit-bit_and k requested supported,
  mask_digit k h,
  digit-lt k requested,
  digit-lt k supported,
)

-- A key class is granted exactly when the node requests it and the controller supports it, except
-- that a node that asks for client-side authentication does not get Access Control (bit 2).
pub digit-grant_keys :
    (report : Report) (supported k : ℕ)
    → k < 8
    → digit k (grant_keys report supported) ≡ (
        if report.request_csa && (k == 2)
        then 0
        else min (digit k report.requested_keys) (digit k supported))
unfolding grant_keys
digit-grant_keys report supported k h =
    granted_digit report.request_csa report.requested_keys supported k h
