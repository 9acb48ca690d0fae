-- ===== src/Application/TransportService/Headers.antt =====
-- What the header fields that the splitter packs read back as.
use zwaved.Base.{ℕ, ◌+◌, ◌*◌, ◌/◌, ◌%◌, ◌<◌, ◌≡◌, refl, arith, bit_and, bit_or}
use zwaved.Base.Bits.{same_below, same_below_lem}
use zwaved.Application.TransportService.{
  first_segment, subsequent_segment, command_mask, datagram_size_mask, session_id_mask, ext_flag,
  offset_high_mask,
}

module _ (k : ℕ) (h : k < 8) where
  pub size_high-masked : bit_and k datagram_size_mask ≡ k
  unfolding same_below
  size_high-masked = same_below_lem (λ k. bit_and k datagram_size_mask) (λ k. k) 8 k h refl

  pub first-command : bit_and (bit_or first_segment k) command_mask ≡ first_segment
  unfolding same_below
  first-command =
      same_below_lem (λ k. bit_and (bit_or first_segment k) command_mask) (λ k. first_segment) 8 k h
        refl

  pub first-size : bit_and (bit_or first_segment k) datagram_size_mask ≡ k
  unfolding same_below
  first-size =
      same_below_lem (λ k. bit_and (bit_or first_segment k) datagram_size_mask) (λ k. k) 8 k h refl

  pub subsequent-command : bit_and (bit_or subsequent_segment k) command_mask ≡ subsequent_segment
  unfolding same_below
  subsequent-command =
      same_below_lem (λ k. bit_and (bit_or subsequent_segment k) command_mask)
        (λ k. subsequent_segment) 8 k h refl

module _ (s : ℕ) (h : s < 16) where
  pub session-masked : bit_and (s * 16) session_id_mask ≡ s * 16
  unfolding same_below
  session-masked = same_below_lem (λ s. bit_and (s * 16) session_id_mask) (λ s. s * 16) 16 s h refl

  pub session-read : bit_and (s * 16) session_id_mask / 16 ≡ s
  unfolding same_below
  session-read = same_below_lem (λ s. bit_and (s * 16) session_id_mask / 16) (λ s. s) 16 s h refl

  pub session-plain : bit_and (s * 16) ext_flag ≡ 0
  unfolding same_below
  session-plain = same_below_lem (λ s. bit_and (s * 16) ext_flag) (λ s. 0) 16 s h refl

  pub extended-session : bit_and (bit_or (s * 16) ext_flag) session_id_mask / 16 ≡ s
  unfolding same_below
  extended-session =
      same_below_lem (λ s. bit_and (bit_or (s * 16) ext_flag) session_id_mask / 16) (λ s. s) 16 s h
        refl

  pub extended-flag : bit_and (bit_or (s * 16) ext_flag) ext_flag ≡ ext_flag
  unfolding same_below
  extended-flag =
      same_below_lem (λ s. bit_and (bit_or (s * 16) ext_flag) ext_flag) (λ s. ext_flag) 16 s h refl

-- The session and the offset's high bits, which share a byte: `n` packs both.
packed : ℕ → ℕ
packed n = bit_or (n / 8 * 16) (n % 8)

module _ (s k : ℕ) (h : s < 16) (l : k < 8) where
  both : s * 8 + k < 128
  both = omega arith

  session_part : (s * 8 + k) / 8 ≡ s
  session_part = omega arith

  offset_part : (s * 8 + k) % 8 ≡ k
  offset_part = omega arith

  pub packed-session : bit_and (bit_or (s * 16) k) session_id_mask / 16 ≡ s
  unfolding same_below packed
  packed-session =
      rw (session_part, offset_part) at
        (same_below_lem (λ n. bit_and (packed n) session_id_mask / 16) (λ n. n / 8) 128 (s * 8 + k)
          both refl)

  pub packed-offset : bit_and (bit_or (s * 16) k) offset_high_mask ≡ k
  unfolding same_below packed
  packed-offset =
      rw (session_part, offset_part) at
        (same_below_lem (λ n. bit_and (packed n) offset_high_mask) (λ n. n % 8) 128 (s * 8 + k) both
          refl)

  pub packed-plain : bit_and (bit_or (s * 16) k) ext_flag ≡ 0
  unfolding same_below packed
  packed-plain =
      rw (session_part, offset_part) at
        (same_below_lem (λ n. bit_and (packed n) ext_flag) (λ n. 0) 128 (s * 8 + k) both refl)
