-- ===== src/Capture/Tests.antt =====
-- The theorem about captured packets at a KEEPALIVE behind the start of a header.
use bgp_flowspec_receiver.Prelude.{
  ℕ, ◌≡◌, ◌≢◌, refl, some, List, [], ◌∷◌, ◌++◌, All, arith, false, ◌==◌, ◌-◌, String, Option, none,
  str_eq, if◌then◌else◌,
}
use bgp_flowspec_receiver.Wire.Message.{message}
use bgp_flowspec_receiver.Capture.{bgp_type}
use bgp_flowspec_receiver.Capture.Lines.{Groups, read_capture, dump_bytes, split_whitespace}
use bgp_flowspec_receiver.Capture.Lines.Words.{hex_words}
use bgp_flowspec_receiver.Capture.Lines.Hex.{
  dump_line, bytes_of, word_count, AreBytes, dump_bytes-dump_line,
}
use bgp_flowspec_receiver.Capture.Lines.Packets.{groups, events_of, read_capture-groups}
use bgp_flowspec_receiver.Capture.Finds.{message-found}

abbrev headers : List ℕ
headers = 69 ∷ 0 ∷ 0 ∷ 59 ∷ 192 ∷ 0 ∷ 2 ∷ 1 ∷ []

ne : (b : ℕ) → (b == 255) ≡ false → b ≢ 255
ne b h = ground (arith, h)

headers-All : All (λ b. b ≢ 255) headers
headers-All = (
  ne 69 refl,
  (ne 0 refl, (ne 0 refl, (ne 59 refl, (ne 192 refl, (ne 0 refl, (ne 2 refl, (ne 1 refl, tt))))))),
)

message-found_example : bgp_type (headers ++ message 4 []) ≡ some "KEEPALIVE"
message-found_example = message-found headers 4 [] "KEEPALIVE" headers-All refl

abbrev first_words : List (ℕ × ℕ)
first_words = (69, 0) ∷ (0, 59) ∷ (0, 1) ∷ (64, 0) ∷ (64, 6) ∷ (182, 235) ∷ (192, 0) ∷ (2, 1) ∷ []

-- A short line, with an odd number of bytes.
abbrev last_words : List (ℕ × ℕ)
last_words = (8, 0) ∷ (69, 171) ∷ []

last_words-AreBytes : AreBytes last_words (some 205)
last_words-AreBytes = ground arith

dump_bytes-dump_line_example :
    dump_bytes (dump_line 48 last_words (some 205) 24 "..E..")
    ≡ bytes_of last_words (some 205)
      ++ hex_words (8 - word_count last_words (some 205)) (split_whitespace "..E..")
dump_bytes-dump_line_example =
    dump_bytes-dump_line 48 last_words (some 205) 24 "..E.." (omega arith) (omega arith)
      last_words-AreBytes

-- The regular expression on two lines of a packet.
abbrev captures : String → Option Groups
captures line =
    if str_eq line "IP 192.0.2.1.179 > 192.0.2.2.40000: Flags [P.], length 19"
    then some (record {
      src_ip = "192.0.2.1";
      src_port = "179";
      dst_ip = "192.0.2.2";
      dst_port = "40000";
      flags = "P.";
      length = "19";
    })
    else none

abbrev output : List String
output =
    dump_line 0 first_words none 0 "E..;..@.@..."
    ∷ "IP 192.0.2.1.179 > 192.0.2.2.40000: Flags [P.], length 19"
    ∷ dump_line 0 first_words none 0 "E..;..@.@..."
    ∷ []

read_capture-groups_example :
    read_capture captures "192.0.2.2" output
    ≡ events_of captures "192.0.2.2" (groups captures "192.0.2.2" output).1
read_capture-groups_example = read_capture-groups captures "192.0.2.2" output

-- A short line, whose column of characters is taken for bytes.
short_run : dump_bytes (dump_line 16 ((1, 2) ∷ []) none 0 "abcd") ≡ 1 ∷ 2 ∷ 171 ∷ 205 ∷ []
unfolding dump_bytes
short_run = refl
