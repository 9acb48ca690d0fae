-- ===== src/S2/Mpan.antt =====
-- src/zwave-protocol/security/s2/Mpan.hpp and Mpan.cpp: the multicast pre-agreed nonce, its table of
-- groups, and the extensions that carry it.
pub mod Table
pub mod Scan
pub mod Tests
use zwaved.Base.{
  ℕ, zero, suc, ◌+◌, Bool, true, false, not, ◌||◌, List, [], ◌∷◌, ◌++◌, Option, none, some, ltb,
  ◌==◌, if◌then◌else◌, length, get_or, take, drop, bit_and,
}
use zwaved.S2.Crypto.{Crypto}
use zwaved.S2.Span.{increment_counter}
use zwaved.S2.NonceSync.{ext_type_mask, ext_more_follow_bit, has_bit}

abbrev pub mpan_extension_type : ℕ
mpan_extension_type = 0x02

abbrev pub mpan_extension_length : ℕ
mpan_extension_length = 19

abbrev pub mpan_extension_flags : ℕ
mpan_extension_flags = 0x42

abbrev pub mgrp_extension_type : ℕ
mgrp_extension_type = 0x03

abbrev pub mgrp_extension_length : ℕ
mgrp_extension_length = 3

abbrev pub mgrp_extension_flags : ℕ
mgrp_extension_flags = 0x43

-- `Generator::nextNonce`, on the inner state that a generator is: 13 bytes of the encrypted state.
unfoldable pub next_nonce : Crypto → List ℕ → List ℕ → List ℕ × List ℕ
next_nonce c key_mpan state = (take 13 (c.aes_ecb_encrypt key_mpan state), increment_counter state)

-- `Generator::advance`.
unfoldable pub advance : List ℕ → List ℕ
advance state = increment_counter state

-- `forEachExtension`: the visitor answers with what it found, and the walk stops there. The
-- argument is the chain from the offset on; each round takes two bytes at least.
pub walk : {A : Type 0} → (ℕ → List ℕ → Option A) → ℕ → List ℕ → Option A
walk visit zero rest = none
walk visit (suc fuel) rest =
    let len = get_or rest 0 0 in
    let flags = get_or rest 1 0 in
    let next = walk visit fuel (drop len rest) in
    if ltb (length rest) 2
    then none
    else if ltb len 2 || ltb (length rest) len
    then none
    else elim (visit flags (drop 2 (take len rest))) [
      | some found ↦ some found
      | none ↦ if has_bit flags ext_more_follow_bit then next else none
    ]

pub for_each_extension : {A : Type 0} → List ℕ → (ℕ → List ℕ → Option A) → Option A
unfolding walk
for_each_extension extensions visit = walk visit (suc (length extensions)) extensions

unfoldable pub encode_mpan_extension : ℕ → List ℕ → List ℕ
encode_mpan_extension group_id state =
    mpan_extension_length ∷ mpan_extension_flags ∷ group_id ∷ state

abbrev pub visit_mpan : ℕ → List ℕ → Option (ℕ × List ℕ)
visit_mpan flags body =
    if not (bit_and flags ext_type_mask == mpan_extension_type)
    then none
    else if not (length body == 17)
    then none
    else some (get_or body 0 0, take 16 (drop 1 body))

pub find_mpan_extension : List ℕ → Option (ℕ × List ℕ)
unfolding for_each_extension
find_mpan_extension extensions = for_each_extension extensions visit_mpan

unfoldable pub encode_mgrp_extension : ℕ → List ℕ
encode_mgrp_extension group_id = mgrp_extension_length ∷ mgrp_extension_flags ∷ group_id ∷ []

abbrev pub visit_mgrp : ℕ → List ℕ → Option ℕ
visit_mgrp flags body =
    if not (bit_and flags ext_type_mask == mgrp_extension_type) || not (length body == 1)
    then none
    else some (get_or body 0 0)

pub find_mgrp_extension : List ℕ → Option ℕ
unfolding for_each_extension
find_mgrp_extension extensions = for_each_extension extensions visit_mgrp
