-- ===== src/S2/Multicast.antt =====
-- src/zwave-protocol/security/s2/MulticastSession.hpp and MulticastSession.cpp: a multicast group, from
-- the sender's side.
pub mod Lockstep
pub mod Tests
use zwaved.Base.{ℕ, zero, suc, ◌-◌, List, []}
use zwaved.S2.Crypto.{Crypto}
use zwaved.S2.Encapsulation.{Context, encrypt}
use zwaved.S2.Mpan.{next_nonce, advance, encode_mgrp_extension, encode_mpan_extension}

abbrev pub advance_per_round : ℕ
advance_per_round = 2

pub record Session : Type 0 where
  pub group_id : ℕ
  pub sender_node_id : ℕ
  pub home_id : List ℕ
  pub class_key_ccm : List ℕ
  pub generator : List ℕ

pub follow_up_extension : Session → List ℕ
follow_up_extension s = encode_mgrp_extension s.group_id

pub mpan_extension : Session → List ℕ
mpan_extension s = encode_mpan_extension s.group_id s.generator

-- The Destination Tag is the group.
abbrev pub multicast_context : Session → ℕ → Context
multicast_context s sequence_number = record {
  sender_node_id = s.sender_node_id;
  receiver_node_id = s.group_id;
  home_id = s.home_id;
  sequence_number = sequence_number;
}

-- The loop that brings the round's total up to `advance_per_round`.
pub advance_steps : ℕ → List ℕ → List ℕ
advance_steps zero state = state
advance_steps (suc n) state = advance_steps n (advance state)

-- The frame, and the session behind it.
pub multicast_frame : Crypto → Session → List ℕ → ℕ → List ℕ × Session
unfolding follow_up_extension advance_steps
multicast_frame c s inner sequence_number =
    let (nonce, state) = next_nonce c s.class_key_ccm s.generator in
    (
      encrypt c inner (multicast_context s sequence_number) s.class_key_ccm nonce
          (follow_up_extension s) [],
      record s { generator = advance_steps (advance_per_round - 1) state },
    )
