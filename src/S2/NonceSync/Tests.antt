-- ===== src/S2/NonceSync/Tests.antt =====
-- The theorems about the nonce commands at concrete inputs.
use zwaved.Base.{◌≡◌, refl, true, false, [], ◌∷◌, none, some, replicate}
use zwaved.S2.NonceSync.{Report, find_span_extension}
use zwaved.S2.NonceSync.Scan.{Object}

abbrev out_of_sync : Report
out_of_sync = record { sequence_number = 9; sos = true; mos = false; rei = some (replicate 16 5) }

-- An MGRP object that announces a successor.
abbrev announcing : Object
announcing = record { flags = 0xc3; body = 4 ∷ [] }

short_extension : find_span_extension (18 ∷ 0x41 ∷ 1 ∷ []) ≡ none
unfolding find_span_extension
short_extension = refl
