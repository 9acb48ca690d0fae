-- ===== src/S2/Kex/Tests.antt =====
-- Key exchange and key transfer at concrete inputs.
use zwaved.Base.{
  ◌≡◌, refl, true, false, ◌&&◌, [], ◌++◌, none, some, arith, ◌==◌, if◌then◌else◌, min,
}
use zwaved.Base.Bits.And.{digit}
use zwaved.S2.Kex.{
  Report, Set, encode_report, encode_set, encode_fail, decode_report, decode_set, decode_fail,
  grant_keys,
}
use zwaved.S2.Kex.RoundTrip.{decode-encode}
use zwaved.S2.Kex.Grant.{digit-grant_keys}

-- A node without a label that asks for everything.
abbrev joining : Report
joining = record {
  echo = false;
  request_csa = true;
  supported_schemes = 2;
  supported_curves = 1;
  requested_keys = 0x87;
}

abbrev answer : Set
answer = record {
  echo = true;
  request_csa = true;
  selected_scheme = 2;
  selected_curve = 1;
  granted_keys = 0x83;
}

all_but_access_control : grant_keys joining 0x87 ≡ 0x83
unfolding grant_keys
all_but_access_control = refl

digit-grant_keys_example :
    digit 2 (grant_keys joining 0x87)
    ≡ (if true && (2 == 2) then 0 else min (digit 2 0x87) (digit 2 0x87))
digit-grant_keys_example = digit-grant_keys joining 0x87 2 (omega arith)

decode-encode_example :
    (decode_report (encode_report joining ++ []) ≡ some joining)
    × (decode_set (encode_set answer ++ []) ≡ some answer)
    × (decode_fail (encode_fail 7 ++ []) ≡ some 7)
    × (decode_report (encode_set answer ++ []) ≡ none)
    × (decode_set (encode_report joining ++ []) ≡ none)
    × (decode_fail (encode_report joining ++ []) ≡ none)
    × (decode_fail (encode_set answer ++ []) ≡ none)
    × (decode_report (encode_fail 7 ++ []) ≡ none)
    × (decode_set (encode_fail 7 ++ []) ≡ none)
decode-encode_example = decode-encode joining answer 7 []
