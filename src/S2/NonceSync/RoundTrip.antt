-- ===== src/S2/NonceSync/RoundTrip.antt =====
-- Encoders against decoders.
use zwaved.Base.{
  ℕ, ◌≤◌, ◌≡◌, ◌⊎◌, inl, inr, length-take, length-drop, drop, Bool, true, false, List, ◌++◌, Option,
  none, some, arith, length, length-append, take, take-append,
}
use zwaved.S2.NonceSync.{Report, ei_size, encode_nonce_report, decode_nonce_report}

-- A report that carries an entropy input exactly when it claims that the SPAN is out of sync.
abbrev pub CarriesRei : Bool → Option (List ℕ) → Type 0
CarriesRei true (some rei) = length rei ≡ ei_size
CarriesRei true none = ⊥
CarriesRei false (some rei) = ⊥
CarriesRei false none = Unit

decode_encoded :
    (seq : ℕ) (sos mos : Bool) (rei : Option (List ℕ)) (rest : List ℕ)
    → CarriesRei sos rei
    → let r : Report = record { sequence_number = seq; sos = sos; mos = mos; rei = rei } in
      decode_nonce_report (encode_nonce_report r ++ rest) ≡ some r
unfolding decode_nonce_report encode_nonce_report
decode_encoded seq true true (some rei) rest h =
    ground (arith, take-append ei_size rei rest h, length-append rei rest)
decode_encoded seq true false (some rei) rest h =
    ground (arith, take-append ei_size rei rest h, length-append rei rest)
decode_encoded seq true mos none rest h = absurd h
decode_encoded seq false mos (some rei) rest h = absurd h
decode_encoded seq false true none rest h = ground arith
decode_encoded seq false false none rest h = ground arith

-- A nonce report with an entropy input exactly when it is out of sync is read back as it
-- was written, whatever bytes follow.
pub decode_nonce_report-encode_nonce_report :
    (r : Report) (rest : List ℕ)
    → CarriesRei r.sos r.rei
    → decode_nonce_report (encode_nonce_report r ++ rest) ≡ some r
decode_nonce_report-encode_nonce_report r rest h =
    decode_encoded r.sequence_number r.sos r.mos r.rei rest h

decoded_cases :
    (payload : List ℕ) (r : Report)
    → decode_nonce_report payload ≡ some r
    → ((r.sos ≡ false) × (r.rei ≡ none))
      ⊎ ((r.sos ≡ true) × (r.rei ≡ some (take ei_size (drop 4 payload))) × (20 ≤ length payload))
unfolding decode_nonce_report
decoded_cases payload r e = ground arith

-- Every decoded report carries an entropy input, of full size, exactly when it is out of sync.
pub decode_nonce_report-CarriesRei :
    (payload : List ℕ) (r : Report) → decode_nonce_report payload ≡ some r → CarriesRei r.sos r.rei
decode_nonce_report-CarriesRei payload r e = elim (decoded_cases payload r e) [
  | inl (sos, rei) ↦ rw (sos, rei) tt
  | inr (sos, rei, size) ↦
      rw (sos, rei) (omega (arith, length-take ei_size (drop 4 payload), length-drop 4 payload))
]
