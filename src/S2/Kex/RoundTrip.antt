-- ===== src/S2/Kex/RoundTrip.antt =====
-- The key exchange commands are read back, and told apart.
use zwaved.Base.{ℕ, ◌≡◌, Bool, true, false, List, ◌++◌, none, some, arith}
use zwaved.S2.Kex.{
  Report, Set, encode_report, encode_set, encode_fail, decode_report, decode_set, decode_fail,
}

report_parts :
    (echo csa : Bool) (schemes curves keys : ℕ) (rest : List ℕ)
    → let r : Report = record {
      echo = echo;
      request_csa = csa;
      supported_schemes = schemes;
      supported_curves = curves;
      requested_keys = keys;
    } in
      decode_report (encode_report r ++ rest) ≡ some r
unfolding decode_report encode_report
report_parts true true schemes curves keys rest = ground arith
report_parts true false schemes curves keys rest = ground arith
report_parts false true schemes curves keys rest = ground arith
report_parts false false schemes curves keys rest = ground arith

set_parts :
    (echo csa : Bool) (scheme curve keys : ℕ) (rest : List ℕ)
    → let s : Set = record {
      echo = echo;
      request_csa = csa;
      selected_scheme = scheme;
      selected_curve = curve;
      granted_keys = keys;
    } in
      decode_set (encode_set s ++ rest) ≡ some s
unfolding decode_set encode_set
set_parts true true scheme curve keys rest = ground arith
set_parts true false scheme curve keys rest = ground arith
set_parts false true scheme curve keys rest = ground arith
set_parts false false scheme curve keys rest = ground arith

-- Reports, sets and failures are read back as they were written, whatever bytes follow, and none
-- of the three decoders takes another's command.
pub decode-encode :
    (r : Report) (s : Set) (fail_type : ℕ) (rest : List ℕ)
    → (decode_report (encode_report r ++ rest) ≡ some r)
      × (decode_set (encode_set s ++ rest) ≡ some s)
      × (decode_fail (encode_fail fail_type ++ rest) ≡ some fail_type)
      × (decode_report (encode_set s ++ rest) ≡ none)
      × (decode_set (encode_report r ++ rest) ≡ none)
      × (decode_fail (encode_report r ++ rest) ≡ none)
      × (decode_fail (encode_set s ++ rest) ≡ none)
      × (decode_report (encode_fail fail_type ++ rest) ≡ none)
      × (decode_set (encode_fail fail_type ++ rest) ≡ none)
decode-encode r s fail_type rest = (
  report_parts r.echo r.request_csa r.supported_schemes r.supported_curves r.requested_keys rest,
  set_parts s.echo s.request_csa s.selected_scheme s.selected_curve s.granted_keys rest,
  unfold decode_fail in unfold encode_fail in ground arith,
  unfold decode_report in unfold encode_set in ground arith,
  unfold decode_set in unfold encode_report in ground arith,
  unfold decode_fail in unfold encode_report in ground arith,
  unfold decode_fail in unfold encode_set in ground arith,
  unfold decode_report in unfold encode_fail in ground arith,
  unfold decode_set in unfold encode_fail in ground arith,
)
