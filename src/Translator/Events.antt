-- ===== src/Translator/Events.antt =====
-- Streams of events, and that a node's events leave the others alone.
use zwaved.Base.{
  ℕ, zero, suc, ◌-◌, ◌≡◌, ◌≢◌, refl, ap, ap₂, ◌∙◌, not, ◌||◌, Bool, true, false, ◌&&◌, List, [],
  ◌∷◌, ◌++◌, Option, none, some, arith, ltb, ◌==◌, if◌then◌else◌, length, get_or,
}
use zwaved.Base.Maps.{number_key, lookup, assign, lookup-assign}
use zwaved.Application.TransportService as TransportService
use zwaved.Application.Crc16Encap as Crc16Encap
use zwaved.S0.Security.{command_class, security_message_encapsulation}
use zwaved.Application.TransportService.{
  Assembler, feed_segment, split_from, split_outbound, append_fcs, header_of,
}
use zwaved.Application.TransportService.InOrder.{cons_some}
use zwaved.S0.Crypto.{Cipher}
use zwaved.S0.NonceTable.{take_nonce}
use zwaved.Translator.{
  State, Published, application_command, node_security_status, send_data_command, or_new,
  assembler_of, republish, announce, opened, on_segment, on_encapsulation, on_application_command,
}

-- An event: the node, the bytes, and the times at which the handler reads the clock while it takes them
-- apart.
pub record Event : Type 0 where
  pub node : ℕ
  pub bytes : List ℕ
  pub clock : ℕ → ℕ

-- The bytes of a node's events.
unfoldable pub bytes_of : ℕ → List Event → List (List ℕ)
bytes_of node [] = []
bytes_of node (e ∷ es) =
    let rest = bytes_of node es in if e.node == node then e.bytes ∷ rest else rest

-- The commands that are published as a node's.
unfoldable pub commands_of : ℕ → List Published → List (List ℕ)
commands_of node [] = []
commands_of node (application_command n bytes ∷ ps) =
    let rest = commands_of node ps in if n == node then bytes ∷ rest else rest
commands_of node (node_security_status n scheme ∷ ps) = commands_of node ps
commands_of node (send_data_command n bytes callback ∷ ps) = commands_of node ps

-- The command among what the handler publishes; there is one at most, the last, and it is the node's own.
abbrev pub inner_command : List Published → Option (List ℕ)
inner_command [] = none
inner_command (application_command n bytes ∷ ps) = some bytes
inner_command (node_security_status n scheme ∷ ps) = inner_command ps
inner_command (send_data_command n bytes callback ∷ ps) = inner_command ps

abbrev pub nested :
    (State → List ℕ → List Published × State)
    → List Published × State
    → Option (List ℕ)
    → List Published × State
nested handle r none = r
nested handle r (some inner) = let (further, w) = handle r.1 inner in (r.0 ++ further, w)

-- The bus is synchronous: the command that the handler publishes comes back to it before it returns, and so
-- on, as deep as `depth`.
unfoldable pub deliver : Cipher → ℕ → State → ℕ → List ℕ → (ℕ → ℕ) → List Published × State
deliver c zero w node bytes clock = ([], w)
deliver c (suc depth) w node bytes clock =
    let r = on_application_command c w node bytes (clock depth) in
    nested (λ w' inner. deliver c depth w' node inner clock) r (inner_command r.0)

unfoldable pub run : Cipher → ℕ → State → List Event → List Published
run c depth w [] = []
run c depth w (e ∷ es) =
    let (published, w') = deliver c depth w e.node e.bytes e.clock in published ++ run c depth w' es

-- What the handler takes apart.
abbrev pub is_wrapper : List ℕ → Bool
is_wrapper bytes =
    not (ltb (length bytes) 2)
    && (((get_or bytes 0 0 == Crc16Encap.command_class)
          && (get_or bytes 1 0 == Crc16Encap.crc16_encap))
        || ((get_or bytes 0 0 == TransportService.command_class)
            || ((get_or bytes 0 0 == command_class)
                && (get_or bytes 1 0 == security_message_encapsulation))))

pub commands_of-append :
    (node : ℕ) (ps qs : List Published)
    → commands_of node (ps ++ qs) ≡ commands_of node ps ++ commands_of node qs
unfolding commands_of
commands_of-append node [] qs = refl
commands_of-append node (application_command n bytes ∷ ps) qs =
    ground (arith, commands_of-append node ps qs)
commands_of-append node (node_security_status n scheme ∷ ps) qs = commands_of-append node ps qs
commands_of-append node (send_data_command n bytes callback ∷ ps) qs = commands_of-append node ps qs

commands_of-republish :
    (node other : ℕ) (o : Option (List ℕ))
    → other ≢ node
    → commands_of node (republish other o) ≡ []
unfolding commands_of
commands_of-republish node other none h = refl
commands_of-republish node other (some inner) h = ground arith

commands_of-announce :
    (node other : ℕ) (o : Option (List ℕ)) → other ≢ node → commands_of node (announce other o) ≡ []
unfolding commands_of
commands_of-announce node other none h = refl
commands_of-announce node other (some inner) h = ground arith

pub commands_of-republish_self :
    (node : ℕ) (o : Option (List ℕ)) → commands_of node (republish node o) ≡ cons_some o []
unfolding commands_of
commands_of-republish_self node none = refl
commands_of-republish_self node (some inner) = ground arith

pub cons_some-append :
    (o : Option (List ℕ)) (outs : List (List ℕ)) → cons_some o [] ++ outs ≡ cons_some o outs
cons_some-append none outs = refl
cons_some-append (some out) outs = refl

-- What leaves a node alone: nothing is published as its command, and its assembler stays.
abbrev pub Spares : State → ℕ → List Published × State → Type 0
Spares w node r = (commands_of node r.0 ≡ []) × (assembler_of r.1 node ≡ assembler_of w node)

either :
    (w : State) (node : ℕ) (b : Bool) (r s : List Published × State)
    → Spares w node r
    → Spares w node s
    → Spares w node (if b then r else s)
either w node true r s h k = h
either w node false r s h k = k

nested-Spares :
    (w : State) (node : ℕ) (handle : State → List ℕ → List Published × State)
    (r : List Published × State) (o : Option (List ℕ))
    → ((w' : State) (inner : List ℕ) → Spares w' node (handle w' inner))
    → Spares w node r
    → Spares w node (nested handle r o)
nested-Spares w node handle r none h spared = spared
nested-Spares w node handle r (some inner) h spared = (
  commands_of-append node r.0 (handle r.1 inner).0 ∙ ap₂ ◌++◌ spared.0 (h r.1 inner).0,
  (h r.1 inner).1 ∙ spared.1,
)

idle : (w : State) (node : ℕ) → Spares w node ([], w)
unfolding commands_of
idle w node = (refl, refl)

entry_other :
    (entries : List (ℕ × Assembler)) (other node : ℕ) (a : Assembler)
    → other ≢ node
    → lookup (assign entries other a) node ≡ lookup entries node
entry_other entries other node a h = ground (arith, lookup-assign entries other a node)

pub entry_self :
    (entries : List (ℕ × Assembler)) (node : ℕ) (a : Assembler)
    → lookup (assign entries node a) node ≡ some a
entry_self entries node a = ground (arith, lookup-assign entries node a node)

module _ (c : Cipher) where
  on_segment-Spares :
      (w : State) (node other : ℕ) (bytes : List ℕ)
      → other ≢ node
      → Spares w node (on_segment w other bytes)
  unfolding on_segment assembler_of
  on_segment-Spares w node other bytes h =
      let fed = feed_segment (or_new (lookup w.assemblers other)) bytes in
      (
        commands_of-republish node other fed.0 h,
        ap or_new (entry_other w.assemblers other node fed.1 h),
      )

  on_encapsulation-Spares :
      (w : State) (node other : ℕ) (bytes : List ℕ) (now : ℕ)
      → other ≢ node
      → Spares w node (on_encapsulation c w other bytes now)
  unfolding on_encapsulation assembler_of
  on_encapsulation-Spares w node other bytes now h =
      either w node (ltb (length bytes) 20) ([], w) _ (idle w node)
        (elim w.network_key
          as (λ k. Spares w node (elim k [
            | none ↦ ([], w)
            | some key ↦ (
              announce other (
                  opened c w other bytes key
                    (take_nonce w.issued_nonces other (get_or bytes (length bytes - 9) 0) now).0),
              record w {
                issued_nonces =
                    (take_nonce w.issued_nonces other (get_or bytes (length bytes - 9) 0) now).1;
              },
            )
          ])) [ none ↦ idle w node | some key ↦ (commands_of-announce node other _ h, refl) ])

  on_application_command-Spares :
      (w : State) (node other : ℕ) (bytes : List ℕ) (now : ℕ)
      → other ≢ node
      → Spares w node (on_application_command c w other bytes now)
  unfolding on_application_command
  on_application_command-Spares w node other bytes now h =
      let class = get_or bytes 0 0 in
      let command = get_or bytes 1 0 in
      either w node (ltb (length bytes) 2) _ _ (idle w node) (
        either w node ((class == Crc16Encap.command_class) && (command == Crc16Encap.crc16_encap)) _
          _ (commands_of-republish node other (Crc16Encap.verify_and_unwrap bytes) h, refl)
          (either w node (class == TransportService.command_class) _ _
            (on_segment-Spares w node other bytes h)
            (either w node ((class == command_class) && (command == security_message_encapsulation))
              _ _ (on_encapsulation-Spares w node other bytes now h) (idle w node))))

  -- An event of another node publishes nothing as this one's and leaves its assembler alone.
  pub deliver-Spares :
      (depth : ℕ) (w : State) (node other : ℕ) (bytes : List ℕ) (clock : ℕ → ℕ)
      → other ≢ node
      → Spares w node (deliver c depth w other bytes clock)
  unfolding deliver
  deliver-Spares zero w node other bytes clock h = idle w node
  deliver-Spares (suc depth) w node other bytes clock h =
      let r = on_application_command c w other bytes (clock depth) in
      nested-Spares w node (λ w' inner. deliver c depth w' other inner clock) r (inner_command r.0)
        (λ w' inner. deliver-Spares depth w' node other inner clock h)
        (on_application_command-Spares w node other bytes (clock depth) h)

  -- What is no wrapper is left alone.
  pub deliver-plain :
      (depth : ℕ) (w : State) (node : ℕ) (bytes : List ℕ) (clock : ℕ → ℕ)
      → is_wrapper bytes ≡ false
      → deliver c depth w node bytes clock ≡ ([], w)
  unfolding deliver on_application_command
  deliver-plain zero w node bytes clock h = refl
  deliver-plain (suc depth) w node bytes clock h = ground arith
