-- ===== src/S0/Tests.antt =====
-- The S0 theorems at concrete inputs.
use zwaved.Base.{
  ℕ, ◌-◌, ◌≡◌, refl, List, [], ◌∷◌, ◌++◌, none, some, ltb, if◌then◌else◌, length, get_or, replicate,
}
use zwaved.Base.Maps.{pair_key, same_pair}
use zwaved.S0.Toy.{toy, toy-CipherLaws}
use zwaved.S0.Crypto.{derive_keys, cbc_mac}
use zwaved.S0.Security.{nonce_size, command_class, security_message_encapsulation}
use zwaved.S0.NonceTable.{NonceTable, generate, take_nonce}
use zwaved.S0.NonceTable.Expiry.{take_nonce-generate}
use zwaved.S0.Encapsulation.{encrypt, decrypt, auth_data}
use zwaved.S0.Encapsulation.RoundTrip.{decrypt-encrypt_single, decrypt-authentic}

abbrev sender_nonce : List ℕ
sender_nonce = 0xa1 ∷ replicate 7 2

abbrev our_nonce : List ℕ
our_nonce = 0x5c ∷ replicate 7 3

abbrev network_key : List ℕ
network_key = replicate 16 4

abbrev door_lock : List ℕ
door_lock = 0x62 ∷ 0x01 ∷ 0xff ∷ []

decrypt-encrypt_single_example :
    decrypt toy
      (encrypt toy door_lock 7 1 sender_nonce our_nonce network_key)
      7
      1
      our_nonce
      network_key
    ≡ some door_lock
decrypt-encrypt_single_example =
    decrypt-encrypt_single toy toy-CipherLaws door_lock 7 1 sender_nonce our_nonce network_key refl

abbrev sealed : List ℕ
unfolding encrypt
sealed = encrypt toy door_lock 7 1 sender_nonce our_nonce network_key

decrypt-authentic_example :
    (sender ciphertext : List ℕ) × (length sender ≡ nonce_size)
    × (sealed
        ≡ command_class
          ∷ security_message_encapsulation
          ∷ (sender
              ++ (ciphertext
                  ++ get_or our_nonce 0 0
                    ∷ cbc_mac toy
                        (derive_keys toy network_key).authentication
                        (auth_data sender our_nonce 7 1 ciphertext))))
unfolding sealed
decrypt-authentic_example =
    decrypt-authentic toy toy-CipherLaws sealed 7 1 our_nonce network_key door_lock
      decrypt-encrypt_single_example

abbrev issued_before : NonceTable
issued_before = record {
  freshness = 10;
  entries =
      ((7, 0x5c), record { nonce = our_nonce; issued = 1 })
      ∷ ((9, 0x5c), record { nonce = our_nonce; issued = 20 })
      ∷ [];
}

take_nonce-generate_example :
    ((take_nonce (generate issued_before 7 our_nonce 20).1 7 0x5c 25).0
      ≡ (if ltb 10 (25 - 20) then none else some our_nonce))
    × ((take_nonce (take_nonce (generate issued_before 7 our_nonce 20).1 7 0x5c 25).1 7 0x5c 26).0
        ≡ (if same_pair (7, 0x5c) (7, 0x5c) then none else (take_nonce issued_before 7 0x5c 26).0))
take_nonce-generate_example = take_nonce-generate issued_before 7 our_nonce 20 25 26 7 0x5c
