-- ===== src/Orchestrator/S2Delivery.antt =====
-- Two daemons, one of which sends to the other: SecurityS2OutboundOrchestrator.cpp at one end,
-- SecurityS2InboundOrchestrator.cpp at the other, and what is sent in between.
pub mod Frames
pub mod Complete
pub mod Tests
use zwaved.Base.{ℕ, List, [], ◌∷◌, Option}
use zwaved.S2.Crypto.{Crypto}
use zwaved.S2.Transport.{KeySet}
use zwaved.Orchestrator.Bus as Bus
use zwaved.Orchestrator.Bus.{Message}
use zwaved.Orchestrator.S2Peer.{Link}
use zwaved.Orchestrator.S2Inbound as S2Inbound
use zwaved.Orchestrator.S2Outbound as S2Outbound
use zwaved.Orchestrator.S2Outbound.{Pending, State}
use zwaved.Orchestrator.S2Outbound.Waiting.{requests}

-- What one end sends, as it arrives at the other, which knows it as `node`.
abbrev pub arrivals : Option KeySet → ℕ → ℕ → List ℕ → List Message → List S2Inbound.Event
arrivals keys scheme node entropy [] = []
arrivals keys scheme node entropy (Bus.send_data_command n payload callback_id ∷ ms) =
    S2Inbound.application_command keys scheme node payload entropy
    ∷ arrivals keys scheme node entropy ms
arrivals keys scheme node entropy (_ ∷ ms) = arrivals keys scheme node entropy ms

-- The same for the answers.
abbrev pub answers : ℕ → List ℕ → List Message → List S2Outbound.Event
answers node entropy [] = []
answers node entropy (Bus.send_data_command n payload callback_id ∷ ms) =
    S2Outbound.application_command node payload entropy ∷ answers node entropy ms
answers node entropy (_ ∷ ms) = answers node entropy ms

-- The commands as the receiver publishes them.
abbrev pub published : ℕ → List Pending → List Message
published node [] = []
published node (p ∷ ps) = Bus.application_command node p.payload ∷ published node ps

-- The sender `w` knows the receiver as `b`, the receiver `l` the sender as `a`: the requests for the
-- commands, what the receiver answers, what the sender sends then, and what the receiver publishes
-- of it, with the sender's state behind it.
pub exchange :
    Crypto
    → (Option KeySet × ℕ) × (Option KeySet × ℕ)
    → State
    → ℕ
    → Link
    → ℕ
    → List ℕ
    → List ℕ
    → List Pending
    → List Message × State
unfolding S2Outbound.run S2Inbound.run
exchange c ((k, scheme), (k', scheme')) w b l a rei sei commands =
    let (asked, w₁) = S2Outbound.run c w (requests k scheme b sei commands) in
    let (replies, l₁) = S2Inbound.run c l (arrivals k' scheme' a rei asked) in
    let (frames, w₂) = S2Outbound.run c w₁ (answers b sei replies) in
    let (got, l₂) = S2Inbound.run c l₁ (arrivals k' scheme' a rei frames) in (got, w₂)
