-- ===== src/Wire/Tests.antt =====
-- The theorems about the wire at concrete messages.
use bgp_flowspec_receiver.Prelude.{
  Option, some, String, ℕ, ◌≤◌, ◌≡◌, refl, inl, inr, ◌↔◌, List, [], ◌∷◌, ◌++◌, none, length, map,
  All, bytes_only-All, concat, drop, arith, true,
}
use bgp_flowspec_receiver.Prelude.Dict
use bgp_flowspec_receiver.Prelude.Dict.{Dict}
use bgp_flowspec_receiver.Wire.Result.{Result, ok, Ensures, Settles}
use bgp_flowspec_receiver.Wire.Address.{Ipv4Addr, hex_encode, ipv4_text, octets}
use bgp_flowspec_receiver.Wire.Address.Hex.{hex_decode, hex_decode-hex_encode}
use bgp_flowspec_receiver.Wire.Message.{be16_bytes, marker, header, build_open, open_message}
use bgp_flowspec_receiver.Wire.Message.Frames.{header_iff}
use bgp_flowspec_receiver.Wire.Message.Open.{Accepted, open-build_open, open-IsHold}
use bgp_flowspec_receiver.Wire.Prefix.{unicast, mask_prefix}
use bgp_flowspec_receiver.Wire.Prefix.Mask.{KeepsBits, mask_prefix-KeepsBits}
use bgp_flowspec_receiver.Wire.Prefix.RoundTrip
use bgp_flowspec_receiver.Wire.Prefix.RoundTrip.{Network, IsNetwork, network_text, unicast_networks}
use bgp_flowspec_receiver.Wire.FlowSpec.{Rule, Component, flowspec, operators, components}
use bgp_flowspec_receiver.Wire.FlowSpec.RoundTrip.{frame, Framed, IsFramed, flowspec_frames}
use bgp_flowspec_receiver.Wire.FlowSpec.Operators
use bgp_flowspec_receiver.Wire.FlowSpec.Operators.{
  Op, IsOp, op_text, operators_read, encode_op, encode_bitmask_op, encode_op-decode_op,
}
use bgp_flowspec_receiver.Wire.Update.{Update, Routes, update}
use bgp_flowspec_receiver.Wire.Update.Total.{update-Settles}

-- Messages.
abbrev router : Ipv4Addr
router = record { a = 192; b = 0; c = 2; d = 1 }

abbrev keepalive : List ℕ
keepalive = marker ++ 0 ∷ 19 ∷ 4 ∷ []

header_iff_example :
    (header keepalive ≡ ok (4, 0))
    ↔ ((keepalive ≡ marker ++ (be16_bytes 19 ++ (4 ∷ []))) × (0 ≤ 4077))
header_iff_example = header_iff keepalive 4 0 (bytes_only-All keepalive refl)

open-build_open_example :
    open_message (drop 19 (build_open 65536 180 router))
    ≡ ok (record {
      version = 4;
      peer_as = 65536;
      hold_time = 180;
      router_id = ipv4_text (octets router);
      supports_4byte_asn = true;
    })
open-build_open_example =
    open-build_open 65536 180 router (omega arith) (omega arith) (inr (omega arith))

open-IsHold_example :
    Ensures
      (Accepted (4 ∷ 0 ∷ 1 ∷ 0 ∷ 90 ∷ 192 ∷ 0 ∷ 2 ∷ 1 ∷ 0 ∷ []))
      (open_message (4 ∷ 0 ∷ 1 ∷ 0 ∷ 90 ∷ 192 ∷ 0 ∷ 2 ∷ 1 ∷ 0 ∷ []))
open-IsHold_example = open-IsHold (4 ∷ 0 ∷ 1 ∷ 0 ∷ 90 ∷ 192 ∷ 0 ∷ 2 ∷ 1 ∷ 0 ∷ [])

hex_decode-hex_encode_example : hex_decode (hex_encode (0 ∷ 171 ∷ 255 ∷ [])) ≡ 0 ∷ 171 ∷ 255 ∷ []
hex_decode-hex_encode_example =
    hex_decode-hex_encode (0 ∷ 171 ∷ 255 ∷ []) (bytes_only-All (0 ∷ 171 ∷ 255 ∷ []) refl)

mask_prefix-KeepsBits_example :
    Ensures
      (λ m. (length m ≡ 4) × KeepsBits (10 ∷ 31 ∷ 255 ∷ 1 ∷ []) 12 m)
      (mask_prefix (10 ∷ 31 ∷ 255 ∷ 1 ∷ []) 12)
mask_prefix-KeepsBits_example =
    mask_prefix-KeepsBits (10 ∷ 31 ∷ 255 ∷ 1 ∷ []) 12 (bytes_only-All (10 ∷ 31 ∷ 255 ∷ 1 ∷ []) refl)
      (omega arith)

abbrev networks : List Network
networks = record { bits = 12; raw = 10 ∷ 31 ∷ [] } ∷ record { bits = 0; raw = [] } ∷ []

networks-IsNetwork : All (IsNetwork 1) networks
networks-IsNetwork = (
  record { bounded = omega arith; sized = refl },
  (record { bounded = omega arith; sized = refl }, tt),
)

unicast_networks_example :
    unicast (concat (map RoundTrip.encode networks)) 1 none
    ≡ ok (map (λ net. record { prefix = network_text 1 net; next_hop = none }) networks)
unicast_networks_example = unicast_networks 1 none networks (inl refl) networks-IsNetwork

-- FlowSpec.
abbrev tcp_only : Framed
tcp_only = record {
  raw = 3 ∷ 0x81 ∷ 6 ∷ [];
  rule = ("ip-proto", Component.texts ("=tcp(6)" ∷ [])) ∷ [];
}

tcp_only-IsFramed : IsFramed 1 tcp_only
unfolding components Dict.insert
tcp_only-IsFramed = record { decodes = refl; fits = omega arith }

flowspec_frames_example :
    flowspec (concat (map (λ f. frame f.raw) (tcp_only ∷ tcp_only ∷ []))) 1
    ≡ ok (map (λ f. f.rule) (tcp_only ∷ tcp_only ∷ []))
flowspec_frames_example =
    flowspec_frames 1 (tcp_only ∷ tcp_only ∷ []) (tcp_only-IsFramed, (tcp_only-IsFramed, tt))

abbrev above : Op
above = record { op = 0x13; raw = 4 ∷ 0 ∷ [] }

abbrev below : Op
below = record { op = 0xc5; raw = 99 ∷ [] }

operators_read_example :
    operators 5 (
      concat (map Operators.encode (above ∷ []))
      ++ (Operators.encode (record { op = 0x85; raw = 99 ∷ [] }) ++ 7 ∷ []))
    ≡ ok (
      map (op_text 5) (above ∷ []) ++ op_text 5 (record { op = 0x85; raw = 99 ∷ [] }) ∷ [],
      7 ∷ [],
    )
operators_read_example =
    operators_read 5 (above ∷ []) (record { op = 0x85; raw = 99 ∷ [] }) (7 ∷ [])
      (record { end = refl; sized = refl }, tt) (record { end = refl; sized = refl })

abbrev attr : ℕ → List ℕ → List ℕ
attr code bytes = 0x80 ∷ code ∷ length bytes ∷ bytes

abbrev update_body : List ℕ → List ℕ → List ℕ
update_body attrs nlri = 0 ∷ 0 ∷ (be16_bytes (length attrs) ++ (attrs ++ nlri))

abbrev mixed_rule : List ℕ
mixed_rule =
    3 ∷ 0x81 ∷ 6 ∷ 5 ∷ 0x13 ∷ 4 ∷ 0 ∷ 0x95 ∷ 255 ∷ 255 ∷ 9 ∷ 1 ∷ 2 ∷ 0x83 ∷ 16 ∷ 11 ∷ 0x81 ∷ 255
    ∷ 12 ∷ 0x80 ∷ 5 ∷ []

abbrev mixed_attrs : List ℕ
mixed_attrs =
    attr 14 (0 ∷ 1 ∷ 133 ∷ 4 ∷ 192 ∷ 0 ∷ 2 ∷ 1 ∷ 0 ∷ length mixed_rule ∷ mixed_rule)
    ++ attr 16 (8 ∷ 0 ∷ 0 ∷ 0 ∷ 0 ∷ 0 ∷ 0 ∷ 0 ∷ [])

update-Settles_example : Settles (update (update_body mixed_attrs (24 ∷ 10 ∷ 0 ∷ 1 ∷ [])) 2)
update-Settles_example = update-Settles (update_body mixed_attrs (24 ∷ 10 ∷ 0 ∷ 1 ∷ [])) 2

-- What the routes of an UPDATE and its actions are.
abbrev seen : Result String Update → Option (Dict Routes × List String)
seen (ok u) = some (u.announce, u.actions)
seen _ = none

-- The rule that the test of tests/native.rs expects, in the order of its keys.
abbrev mixed_texts : Rule
mixed_texts =
    ("dscp", Component.texts ("=63" ∷ []))
    ∷ ("dst-port", Component.texts (">=1024" ∷ "<=65535" ∷ []))
    ∷ ("fragment", Component.texts ("any(df,first-fragment)" ∷ []))
    ∷ ("ip-proto", Component.texts ("=tcp(6)" ∷ []))
    ∷ ("tcp-flags", Component.texts ("all(syn)" ∷ "not-all(ack)" ∷ []))
    ∷ []

mixed-seen :
    seen (update (update_body mixed_attrs []) 2)
    ≡ some (
      ("ipv4-flowspec", Routes.flowspec_rules (mixed_texts ∷ [])) ∷ [],
      "redirect-to-ipv4=192.0.2.1" ∷ [],
    )
unfolding update Dict.insert
mixed-seen = refl
