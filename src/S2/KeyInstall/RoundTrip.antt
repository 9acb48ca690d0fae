-- ===== src/S2/KeyInstall/RoundTrip.antt =====
-- The key transfer commands are read back.
use zwaved.Base.{ℕ, ◌≡◌, Bool, true, false, List, ◌∷◌, ◌++◌, none, some, arith, length, take_all}
use zwaved.S2.KeyInstall.{
  encode_key_get, encode_key_report, encode_transfer_end, decode_key_get, decode_key_report,
  decode_transfer_end,
}

transfer_end_parts :
    (verified complete : Bool) (rest : List ℕ)
    → decode_transfer_end (encode_transfer_end verified complete ++ rest)
      ≡ some (record { key_verified = verified; key_request_complete = complete })
unfolding decode_transfer_end encode_transfer_end
transfer_end_parts true true rest = ground arith
transfer_end_parts true false rest = ground arith
transfer_end_parts false true rest = ground arith
transfer_end_parts false false rest = ground arith

-- A request for a key, a key of 16 bytes with its class bit, and the end of a transfer are read
-- back as they were written; a key report with a byte more is refused.
pub decode_key-encode_key :
    (bit : ℕ) (key : List ℕ) (verified complete : Bool) (extra : ℕ) (rest : List ℕ)
    → length key ≡ 16
    → (decode_key_get (encode_key_get bit ++ rest) ≡ some bit)
      × (decode_key_report (encode_key_report bit key)
          ≡ some (record { granted_key = bit; key = key }))
      × (decode_key_report (encode_key_report bit (extra ∷ key)) ≡ none)
      × (decode_transfer_end (encode_transfer_end verified complete ++ rest)
          ≡ some (record { key_verified = verified; key_request_complete = complete }))
decode_key-encode_key bit key verified complete extra rest h = (
  unfold decode_key_get in unfold encode_key_get in ground arith,
  unfold decode_key_report in unfold encode_key_report in ground (arith, take_all 16 key h),
  unfold decode_key_report in unfold encode_key_report in ground arith,
  transfer_end_parts verified complete rest,
)
