-- ===== src/Translator/Segments.antt =====
-- Datagrams of several nodes in one stream of events.
use zwaved.Base.{
  ℕ, suc, false, Option, none, some, ◌<◌, ◌≡◌, refl, ap, ap₂, sym, subst, ◌∙◌, List, [], ◌∷◌, ◌++◌,
  arith, ◌==◌, length, All, Bool-cases, inl, inr,
}
use zwaved.Base.Maps.{number_key, lookup, assign}
use zwaved.Application.TransportService.{Assembler, feed_segment, split_outbound}
use zwaved.Application.TransportService.InOrder.{feed_all, cons_some, feed_all-split_outbound}
use zwaved.Application.TransportService.Shape.{IsSegment, split_outbound-IsSegment}
use zwaved.S0.Crypto.{Cipher}
use zwaved.Translator.{
  republish, State, Published, or_new, assembler_of, on_segment, on_application_command,
}
use zwaved.Translator.Events.{
  Event, bytes_of, commands_of, run, commands_of-append, commands_of-republish_self,
  cons_some-append, entry_self, deliver-Spares, deliver-plain, deliver, nested, inner_command,
  is_wrapper,
}

abbrev IsPlain : List ℕ → Type 0
IsPlain bytes = is_wrapper bytes ≡ false

IsPlain-both :
    (o : Option (List ℕ)) (outs : List (List ℕ))
    → All IsPlain (cons_some o outs)
    → All IsPlain (cons_some o []) × All IsPlain outs
IsPlain-both none outs h = (tt, h)
IsPlain-both (some out) outs h = ((h.0, tt), h.1)

module _ (c : Cipher) where
  -- A segment of the node itself goes to its assembler.
  on_application_command-segment :
      (w : State) (node : ℕ) (bytes : List ℕ) (now : ℕ)
      → IsSegment bytes
      → on_application_command c w node bytes now ≡ on_segment w node bytes
  unfolding on_application_command
  on_application_command-segment w node bytes now h = ground arith

  on_segment_self :
      (w : State) (node : ℕ) (bytes : List ℕ)
      → (commands_of node (on_segment w node bytes).0
          ≡ cons_some (feed_segment (assembler_of w node) bytes).0 [])
        × (assembler_of (on_segment w node bytes).1 node
            ≡ (feed_segment (assembler_of w node) bytes).1)
  unfolding on_segment assembler_of
  on_segment_self w node bytes =
      let fed = feed_segment (or_new (lookup w.assemblers node)) bytes in
      (commands_of-republish_self node fed.0, ap or_new (entry_self w.assemblers node fed.1))

  republish-plain :
      (depth : ℕ) (w : State) (node : ℕ) (o : Option (List ℕ)) (clock : ℕ → ℕ)
      → All IsPlain (cons_some o [])
      → nested
          (λ w' inner. deliver c depth w' node inner clock)
          (republish node o, w)
          (inner_command (republish node o))
        ≡ (republish node o, w)
  republish-plain depth w node none clock plain = refl
  republish-plain depth w node (some inner) clock plain =
      rw (deliver-plain c depth w node inner clock plain.0) refl

  -- A segment is delivered to the assembler of its node; what it completes is not taken apart further.
  deliver-segment :
      (depth : ℕ) (w : State) (node : ℕ) (bytes : List ℕ) (clock : ℕ → ℕ)
      → IsSegment bytes
      → All IsPlain (cons_some (feed_segment (assembler_of w node) bytes).0 [])
      → deliver c (suc depth) w node bytes clock ≡ on_segment w node bytes
  unfolding deliver on_segment
  deliver-segment depth w node bytes clock segment plain =
      let fed = feed_segment (assembler_of w node) bytes in
      ap
        (λ (r : List Published × State).
          nested (λ w' inner. deliver c depth w' node inner clock) r (inner_command r.0))
        (on_application_command-segment w node bytes (clock depth) segment)
      ∙ republish-plain depth (record w { assemblers = assign w.assemblers node fed.1 }) node fed.0
          clock plain

  own_event :
      (depth : ℕ) (w : State) (node : ℕ) (e : Event) (es : List Event)
      → e.node ≡ node
      → All IsSegment (e.bytes ∷ bytes_of node es)
      → All IsPlain (cons_some (feed_segment (assembler_of w node) e.bytes).0 [])
      → let w' = (on_segment w node e.bytes).1 in
        commands_of node (run c (suc depth) w' es)
          ≡ (feed_all (assembler_of w' node) (bytes_of node es)).0
        → commands_of node (run c (suc depth) w (e ∷ es))
          ≡ (feed_all (assembler_of w node) (e.bytes ∷ bytes_of node es)).0
  unfolding run feed_all
  own_event depth w node e es own h plain later =
      let o = (feed_segment (assembler_of w node) e.bytes).0 in
      let r = on_segment w node e.bytes in
      let (out, stays) = on_segment_self w node e.bytes in
      let rest = bytes_of node es in
      ap
        (λ (n : ℕ). commands_of node (
          (deliver c (suc depth) w n e.bytes e.clock).0
          ++ run c (suc depth) (deliver c (suc depth) w n e.bytes e.clock).1 es))
        own
      ∙ ap (λ (x : List Published × State). commands_of node (x.0 ++ run c (suc depth) x.1 es))
          (deliver-segment depth w node e.bytes e.clock h.0 plain)
      ∙ commands_of-append node r.0 (run c (suc depth) r.1 es)
      ∙ ap₂ ◌++◌ out (later ∙ ap (λ (a : Assembler). (feed_all a rest).0) stays)
      ∙ cons_some-append o (feed_all (feed_segment (assembler_of w node) e.bytes).1 rest).0

  -- The commands published as a node's, when all it sends are segments and no wrapper comes out of them:
  -- those that its assembler completes, whatever the other nodes send in between.
  commands_of-run :
      (depth : ℕ) (w : State) (node : ℕ) (es : List Event)
      → All IsSegment (bytes_of node es)
      → All IsPlain (feed_all (assembler_of w node) (bytes_of node es)).0
      → commands_of node (run c (suc depth) w es)
        ≡ (feed_all (assembler_of w node) (bytes_of node es)).0
  unfolding run bytes_of
  commands_of-run depth w node [] h plain = unfold commands_of in unfold feed_all in refl
  commands_of-run depth w node (e ∷ es) h plain = elim (Bool-cases (e.node == node)) [
    | inl own ↦
        let w' = (on_segment w node e.bytes).1 in
        let (here, there) =
          IsPlain-both (feed_segment (assembler_of w node) e.bytes).0
            (feed_all (feed_segment (assembler_of w node) e.bytes).1 (bytes_of node es)).0
            (unfold feed_all in rw own at plain) in
        rw own (
          own_event depth w node e es (ground (arith, own)) (rw own at h) here (
            commands_of-run depth w' node es (rw own at h).1 (
              subst (λ (a : Assembler). All IsPlain (feed_all a (bytes_of node es)).0)
                (sym (on_segment_self w node e.bytes).1) there)))
    | inr foreign ↦
        let (nothing, same) =
          deliver-Spares c (suc depth) w node e.node e.bytes e.clock (ground (arith, foreign)) in
        let r = deliver c (suc depth) w e.node e.bytes e.clock in
        rw foreign (
          commands_of-append node r.0 (run c (suc depth) r.1 es)
          ∙ ap (λ (t : List (List ℕ)). t ++ commands_of node (run c (suc depth) r.1 es)) nothing
          ∙ commands_of-run depth r.1 node es (rw foreign at h) (
              subst (λ (a : Assembler). All IsPlain (feed_all a (bytes_of node es)).0) (sym same)
                (rw foreign at plain))
          ∙ ap (λ (a : Assembler). (feed_all a (bytes_of node es)).0) same)
  ]

-- A node's datagram of 1 to 2047 bytes that is itself no wrapper, sent in segments one after the other, is
-- published as its command, once, whatever other nodes send in between,
-- whatever was left of an earlier datagram, and however deep the handler may be called again by what it
-- publishes.
pub commands_of-split_outbound :
    (c : Cipher) (depth : ℕ) (w : State) (node : ℕ) (es : List Event) (datagram : List ℕ) (s : ℕ)
    → bytes_of node es ≡ split_outbound datagram s
    → is_wrapper datagram ≡ false
    → s < 16
    → 0 < length datagram
    → length datagram < 2048
    → commands_of node (run c (suc depth) w es) ≡ datagram ∷ []
commands_of-split_outbound c depth w node es datagram s e plain hs some_left bound =
    let whole =
      ap (λ (t : List (List ℕ)). (feed_all (assembler_of w node) t).0) e
      ∙ (feed_all-split_outbound (assembler_of w node) datagram s hs some_left bound).0 in
    commands_of-run c depth w node es
      (subst (All IsSegment) (sym e) (split_outbound-IsSegment datagram s))
      (subst (All IsPlain) (sym whole) (plain, tt))
    ∙ whole
