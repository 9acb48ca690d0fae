-- ===== src/Lib.antt =====
-- Verification of the core of zwaved, a Z-Wave controller daemon.
--
-- The daemon talks to a USB dongle over a serial line, wraps and unwraps application frames in
-- transport encapsulations and in the Security 0 and Security 2 layers, and passes what is left
-- to orchestrators and stores. Function names are the source's, in snake case.
-- Paths are those below src/.
--
-- Base: shared helpers. Base/Tests has the Boolean tests on numbers, Base/Lists the list
--   functions and their lemmas, Base/Bits the exclusive or of bytes and their digits, Base/Maps a `std::map` as an
--   association list.
-- Serial: the Host API's serial framing.
--   Serial/DataFrame models zwave-protocol/ZwaveDataFrame.cpp: frames, checksum and codec.
--   Serial/Parser models the byte parser `FrameTransport::feed`.
--   Serial/Transport models `FrameTransport::pumpOnce` and `sendRequest`. What the port answers is
--   an argument; writes, failed writes, handler calls and waits are a list of effects.
-- Application: encapsulations of zwave-protocol/application.
--   Application/Crc16Encap models Crc16Encap.cpp.
--   Application/TransportService models TransportService.cpp: the splitter, and the assembler as
--   a state that each segment changes.
-- S2: the Security 2 layer of zwave-protocol/security/s2. Serial frames carry its messages.
--   S2/Crypto is the parameter for the OpenSSL calls of Crypto.cpp, with the laws used.
--   S2/Span models Span.cpp, the generator of nonces and its table.
--   S2/NonceSync models NonceSync.cpp, the nonce commands and the scan for a SPAN extension.
--   S2/Encapsulation models Encapsulation.cpp.
--   S2/Mpan models Mpan.cpp, multicast state and extensions; S2/Multicast MulticastSession.cpp.
--   S2/Kex models Kex.cpp, key exchange commands and the grant; S2/KeyInstall KeyInstall.cpp.
--   S2/PublicKey models PublicKey.cpp, with the PIN of a device; S2/KeyDerivation KeyDerivation.cpp;
--   S2/Transport Transport.cpp.
--   S2/Manager models SpanManager.cpp, the nonce state of every peer, which uses Span, NonceSync and Encapsulation:
--   a peer's entry is looked up, one function on the entry is the operation, and the result
--   is assigned. Entropy is an argument of the operations that draw it.
--   S2/Toy is an instance of the crypto parameter with its laws, for runs.
-- S0: the Security 0 layer of zwave-protocol/security/s0.
--   S0/Crypto models Crypto.cpp over AES as a parameter; S0/Security the nonce commands of
--   Security.cpp; S0/NonceTable NonceTable.cpp, with clock ticks as numbers; S0/Encapsulation
--   Encapsulation.cpp. S0/Toy is an instance of the parameter, for runs.
-- Translator models cc-translator/Encapsulation.cpp, the handler that takes wrapped commands apart
--   and publishes the inner ones, and zwave-protocol/security/s0/NonceResponder.cpp. It uses
--   Application and S0; what it publishes is a list, and the network key is in its state.
--   Translator/Events has the bus: a command that the handler publishes comes back to it before it
--   returns.
--
-- Orchestrator: the state machines of src/orchestrator. A handler maps a state to what it publishes
--   and the new state; what it draws or reads from elsewhere is an argument.
--   Orchestrator/Bus has what they publish.
--   Orchestrator/S2Bootstrap models SecurityS2BootstrapOrchestrator.cpp: the file itself has state
--   and negotiation, Channel the encrypted part, Dispatch the switch on the phase and runs of
--   events, Moves the life of a session as a relation with the reason for every step.
--   Orchestrator/S0Bootstrap models SecurityBootstrapOrchestrator.cpp, Orchestrator/S0Outbound
--   SecurityOutboundOrchestrator.cpp; both use S0/Encapsulation.
--   Orchestrator/S2Inbound and Orchestrator/S2Outbound model SecurityS2InboundOrchestrator.cpp and
--   SecurityS2OutboundOrchestrator.cpp over S2/Manager, Orchestrator/S2Peer what they share.
--   Orchestrator/S2Delivery puts the one at the other end of the other.
--   Orchestrator/Interview models InterviewOrchestrator.cpp, and Orchestrator/Inclusion
--   InclusionOrchestrator.cpp, which takes policies from PolicyRegister.
-- PolicyRegister models the binary form and the merge of policies in policy-register/PolicyRegister.cpp.
--
-- Bounds and fuel. Bytes are natural numbers, and wrap-around is written out. The scans over extension
-- chains recurse on fuel that starts above the length of the chain; every round takes two
-- bytes at least, and a lemma beside each scan says that more fuel changes nothing. The send
-- loop recurses on the attempts left, and the splitter on the size of the datagram, of which every
-- segment takes a byte at least. How deep the translator may be called again by what it publishes is an argument,
-- and what is said of runs holds of every depth above zero.
--
-- Not modelled: threads and locks (each operation is one step), log lines, OpenSSL and its failures,
-- persistence, the D-Bus interface, and the parts that the manifest lists as such.
pub mod Application
pub mod Base
pub mod Orchestrator
pub mod PolicyRegister
pub mod S0
pub mod S2
pub mod Serial
pub mod Translator
