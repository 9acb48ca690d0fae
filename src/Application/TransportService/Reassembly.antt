-- ===== src/Application/TransportService/Reassembly.antt =====
-- One segment of the splitter at the assembler, and the check sequence it carries.
use zwaved.Base.{
  ℕ, zero, suc, ◌+◌, ◌-◌, ◌*◌, ◌/◌, ◌%◌, ◌<◌, ◌≡◌, refl, ap, ◌∙◌, true, false, List, [], ◌∷◌, ◌++◌,
  arith, length, length-append, get_or-append, get_or-append_next, take-append, drop-append,
  bit_and, bit_or, bit_xor,
}
use zwaved.Application.Crc16Encap.{crc_bit, crc_bits, crc_from, checksum}
use zwaved.Application.Crc16Encap.RoundTrip.{checksum-lt}
use zwaved.Application.TransportService.{
  Assembler, fcs_bit, fcs_bits, fcs_from, fcs, append_fcs, header_of, command_class,
  session_id_mask, payload_start, payload_of, place, finish, handle_first, handle_subsequent,
  dispatch, feed_segment,
}
use zwaved.Application.TransportService.Headers.{
  size_high-masked, first-command, first-size, subsequent-command, session-masked, session-read,
  session-plain, packed-session, packed-offset, packed-plain,
}
use zwaved.Application.TransportService.Filling.{filled, place-filled}

fcs_bits-crc_bits : (n crc : ℕ) → fcs_bits n crc ≡ crc_bits n crc
unfolding fcs_bits crc_bits fcs_bit crc_bit
fcs_bits-crc_bits zero crc = refl
fcs_bits-crc_bits (suc n) crc = fcs_bits-crc_bits n (crc_bit crc)

fcs_from-crc_from : (bytes : List ℕ) (crc : ℕ) → fcs_from crc bytes ≡ crc_from crc bytes
unfolding fcs_from crc_from
fcs_from-crc_from [] crc = refl
fcs_from-crc_from (byte ∷ bytes) crc =
    ap (λ (n : ℕ). fcs_from n bytes) (fcs_bits-crc_bits 8 (bit_xor crc (byte * 256) % 65536))
    ∙ fcs_from-crc_from bytes _

-- Transport Service and CRC-16 encapsulation use one and the same checksum.
pub fcs-checksum : (bytes : List ℕ) → fcs bytes ≡ checksum bytes
unfolding fcs checksum
fcs-checksum bytes = fcs_from-crc_from bytes 0x1d0f

fcs-lt : (bytes : List ℕ) → fcs bytes < 65536
fcs-lt bytes = omega (arith, fcs-checksum bytes, checksum-lt bytes)

-- A segment whose check sequence is its own passes the test.
checked :
    (a : Assembler) (body : List ℕ) (high low : ℕ)
    → fcs (command_class ∷ body) ≡ high * 256 + low
    → let segment : List ℕ = command_class ∷ (body ++ high ∷ low ∷ []) in
      feed_segment a segment ≡ dispatch a segment (length body + 1)
unfolding feed_segment
checked a body high low h = ground (
  arith,
  h,
  length-append body (high ∷ low ∷ []),
  take-append (length body + 1) (command_class ∷ body) (high ∷ low ∷ []) (omega arith),
  get_or-append body high (low ∷ []) 0 (length body) refl,
  get_or-append_next body high low [] 0 (length body + 1) refl,
)

pub trailer : List ℕ → List ℕ
trailer seg = fcs seg / 256 % 256 ∷ fcs seg % 256 ∷ []

pub feed_segment-append_fcs :
    (a : Assembler) (body : List ℕ) (n : ℕ)
    → length body + 1 ≡ n
    → feed_segment a (append_fcs (command_class ∷ body))
      ≡ dispatch a (command_class ∷ (body ++ trailer (command_class ∷ body))) n
unfolding append_fcs trailer
feed_segment-append_fcs a body n h =
    let crc = fcs (command_class ∷ body) in
    checked a body (crc / 256 % 256) (crc % 256) (omega (arith, fcs-lt (command_class ∷ body)))
    ∙ ap (dispatch a (command_class ∷ (body ++ trailer (command_class ∷ body)))) h

-- The payload behind a header of `n` bytes.
payload_of-append :
    (header payload trailer : List ℕ) (n : ℕ)
    → length header ≡ n
    → payload_of (header ++ (payload ++ trailer)) (n + length payload) n ≡ payload
payload_of-append header payload trailer n h =
    let size : n + length payload - n ≡ length payload = omega arith in
    rw (size, drop-append n header (payload ++ trailer) h)
      (take-append (length payload) payload trailer refl)

-- The first segment starts the datagram anew, whatever the assembler held.
first_lem :
    (a : Assembler) (s k low : ℕ) (payload trailer rest : List ℕ)
    → s < 16
    → k < 8
    → k * 256 + low ≡ length (payload ++ rest)
    → 0 < length (payload ++ rest)
    → let segment : List ℕ =
        command_class
        ∷ bit_or 0xc0 k
        ∷ low
        ∷ bit_and (s * 16) session_id_mask
        ∷ (payload ++ trailer) in
      dispatch a segment (4 + length payload) ≡ place (filled s [] (payload ++ rest)) 0 payload
unfolding dispatch handle_first payload_start
first_lem a s k low payload trailer rest hs hk size some_left = ground (
  arith,
  first-command k hk,
  first-size k hk,
  session-read s hs,
  session-masked s hs,
  session-plain s hs,
  payload_of-append (command_class ∷ bit_or 0xc0 k ∷ low ∷ bit_and (s * 16) session_id_mask ∷ [])
      payload trailer 4 refl,
)

subsequent_lem :
    (s k low high_offset low_offset : ℕ) (done payload trailer rest : List ℕ)
    → s < 16
    → k < 8
    → high_offset < 8
    → high_offset * 256 + low_offset ≡ length done
    → let segment : List ℕ =
        command_class
        ∷ bit_or 0xe0 k
        ∷ low
        ∷ bit_or (s * 16) high_offset
        ∷ low_offset
        ∷ (payload ++ trailer) in
      dispatch (filled s done (payload ++ rest)) segment (5 + length payload)
      ≡ place (filled s done (payload ++ rest)) (length done) payload
unfolding dispatch handle_subsequent payload_start
subsequent_lem s k low high_offset low_offset done payload trailer rest hs hk ho offset = ground (
  arith,
  subsequent-command k hk,
  packed-session s high_offset hs ho,
  packed-offset s high_offset hs ho,
  packed-plain s high_offset hs ho,
  payload_of-append
      (command_class ∷ bit_or 0xe0 k ∷ low ∷ bit_or (s * 16) high_offset ∷ low_offset ∷ []) payload
      trailer 5 refl,
)

header_of-first :
    (size s : ℕ)
    → size < 2048
    → header_of size s true 0
      ≡ command_class
        ∷ bit_or 0xc0 (size / 256)
        ∷ size % 256
        ∷ bit_and (s * 16) session_id_mask
        ∷ []
unfolding header_of
header_of-first size s h = rw (size_high-masked (size / 256) (omega arith)) refl

header_of-subsequent :
    (size s offset : ℕ)
    → size < 2048
    → offset < 2048
    → s < 16
    → header_of size s false offset
      ≡ command_class
        ∷ bit_or 0xe0 (size / 256)
        ∷ size % 256
        ∷ bit_or (s * 16) (offset / 256)
        ∷ offset % 256
        ∷ []
unfolding header_of
header_of-subsequent size s offset h k l =
    rw
      (
        size_high-masked (size / 256) (omega arith),
        size_high-masked (offset / 256) (omega arith),
        session-masked s l,
      )
      refl

-- One segment of the splitter, first or not, at the assembler that has all before it.
pub first_step :
    (a : Assembler) (s : ℕ) (payload rest : List ℕ)
    → s < 16
    → 0 < length (payload ++ rest)
    → length (payload ++ rest) < 2048
    → feed_segment a (append_fcs (header_of (length (payload ++ rest)) s true 0 ++ payload))
      ≡ finish (filled s payload rest)
first_step a s payload rest hs some_left bound =
    let size = length (payload ++ rest) in
    let body : List ℕ =
      bit_or 0xc0 (size / 256) ∷ size % 256 ∷ bit_and (s * 16) session_id_mask ∷ payload in
    ap (λ (header : List ℕ). feed_segment a (append_fcs (header ++ payload)))
      (header_of-first size s bound)
    ∙ feed_segment-append_fcs a body (4 + length payload) (omega arith)
    ∙ first_lem a s (size / 256) (size % 256) payload (trailer (command_class ∷ body)) rest hs
        (omega arith) (omega arith) some_left
    ∙ place-filled payload s [] rest

pub subsequent_step :
    (s : ℕ) (done payload rest : List ℕ) (size : ℕ)
    → s < 16
    → size < 2048
    → length done < 2048
    → feed_segment
        (filled s done (payload ++ rest))
        (append_fcs (header_of size s false (length done) ++ payload))
      ≡ finish (filled s (done ++ payload) rest)
subsequent_step s done payload rest size hs bound behind =
    let offset = length done in
    let a = filled s done (payload ++ rest) in
    let body : List ℕ =
      bit_or 0xe0 (size / 256)
      ∷ size % 256
      ∷ bit_or (s * 16) (offset / 256)
      ∷ offset % 256
      ∷ payload in
    ap (λ (header : List ℕ). feed_segment a (append_fcs (header ++ payload)))
      (header_of-subsequent size s offset bound behind hs)
    ∙ feed_segment-append_fcs a body (5 + length payload) (omega arith)
    ∙ subsequent_lem s (size / 256) (size % 256) (offset / 256) (offset % 256) done payload
        (trailer (command_class ∷ body)) rest hs (omega arith) (omega arith) (omega arith)
    ∙ place-filled payload s done rest
