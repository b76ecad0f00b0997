-- ===== src/Capture/Lines/Packets.antt =====
-- The events of a capture beside its lines grouped into packets.
use bgp_flowspec_receiver.Prelude.{
  ℕ, ◌≡◌, refl, sym, ap, ◌∙◌, String, Option, none, some, List, [], ◌∷◌, ◌++◌,
}
use mathlib.Core.List.{append_assoc, append-nil}
use bgp_flowspec_receiver.Capture.{Packet}
use bgp_flowspec_receiver.Capture.Lines.{
  Groups, PacketEvent, Reading, event_of, flush_packet, read_line, read_lines, read_capture,
  dump_bytes, packet_of,
}

module _ (captures : String → Option Groups) (peer : String) where
  -- The bytes before the first line of a packet, and each packet with the bytes behind its line.
  abbrev pub group :
      Option Groups → List ℕ → List ℕ → List (Packet × List ℕ) → List ℕ × List (Packet × List ℕ)
  group none dumped bytes packets = (dumped ++ bytes, packets)
  group (some c) dumped bytes packets = ([], (packet_of peer c, bytes) ∷ packets)

  abbrev pub groups : List String → List ℕ × List (Packet × List ℕ)
  groups [] = ([], [])
  groups (line ∷ lines) =
      let (bytes, packets) = groups lines in group (captures line) (dump_bytes line) bytes packets

  abbrev pub events_of : List (Packet × List ℕ) → List PacketEvent
  events_of [] = []
  events_of ((p, bytes) ∷ packets) = event_of p bytes ∷ events_of packets

  abbrev opened : Option Packet → List ℕ → List (Packet × List ℕ)
  opened none bytes = []
  opened (some p) bytes = (p, bytes) ∷ []

  flush_at :
      (packet : Option Packet) (bytes : List ℕ) (events : List PacketEvent)
      → elim packet [ none ↦ events | some p ↦ events ++ event_of p bytes ∷ [] ]
        ≡ events ++ events_of (opened packet bytes)
  flush_at none bytes events = sym (append-nil events)
  flush_at (some p) bytes events = refl

  flush-opened :
      (r : Reading) → flush_packet r ≡ r.events ++ events_of (opened r.packet (r.bytes ++ []))
  unfolding flush_packet
  flush-opened r =
      flush_at r.packet r.bytes r.events
      ∙ ap (λ bytes. r.events ++ events_of (opened r.packet bytes)) (sym (append-nil r.bytes))

  -- The reading of the first line, when the rest is known.
  abbrev Told : Reading → List ℕ × List (Packet × List ℕ) → List PacketEvent → Type 0
  Told r (bytes, packets) events =
      events ≡ r.events ++ (events_of (opened r.packet (r.bytes ++ bytes)) ++ events_of packets)

  one_line :
      (v : Option Groups) (dumped bytes : List ℕ) (packets : List (Packet × List ℕ)) (r : Reading)
      (events : List PacketEvent)
      → Told
          (elim v [
            | some c ↦ record {
              packet = some (packet_of peer c);
              bytes = [];
              events = flush_packet r;
            }
            | none ↦ record r { bytes = r.bytes ++ dumped }
          ])
          (bytes, packets)
          events
      → Told r (group v dumped bytes packets) events
  one_line none dumped bytes packets r events e =
      e
      ∙ ap (λ bytes. r.events ++ (events_of (opened r.packet bytes) ++ events_of packets))
          (append_assoc r.bytes dumped bytes)
  one_line (some c) dumped bytes packets r events e =
      e
      ∙ ap (λ before. before ++ (event_of (packet_of peer c) bytes ∷ events_of packets))
          (flush-opened r)
      ∙ append_assoc r.events (events_of (opened r.packet (r.bytes ++ [])))
          (event_of (packet_of peer c) bytes ∷ events_of packets)

  read-groups :
      (lines : List String) (r : Reading)
      → Told r (groups lines) (flush_packet (read_lines captures peer lines r))
  unfolding read_lines read_line
  read-groups [] r =
      flush-opened r
      ∙ ap (λ events. r.events ++ events)
          (sym (append-nil (events_of (opened r.packet (r.bytes ++ [])))))
  read-groups (line ∷ lines) r =
      one_line (captures line) (dump_bytes line) (groups lines).0 (groups lines).1 r
        (flush_packet (read_lines captures peer lines (read_line captures peer line r)))
        (read-groups lines (read_line captures peer line r))

  -- Each line of a packet becomes exactly one event, in the order of the lines and the last one when the
  -- task ends, with the bytes of the dump lines between it and the next line of a packet; dump lines
  -- before the first packet's line are in no event.
  pub read_capture-groups :
      (lines : List String) → read_capture captures peer lines ≡ events_of (groups lines).1
  unfolding read_capture
  read_capture-groups lines = read-groups lines (record { packet = none; bytes = []; events = [] })
