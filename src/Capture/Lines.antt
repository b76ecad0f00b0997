-- ===== src/Capture/Lines.antt =====
-- The loop of capture.rs over the lines of tcpdump's output, and its end. The regular expression that finds
-- the line of a packet is the parameter `captures`. The lines of the other pipe become events as they
-- are, and are left out.
pub mod Hex
pub mod Words
pub mod Packets
use Prim.Native.Char.{Char, code}
use Prim.Native.String
use text.Mathlib.Text.{starts_with}
use bgp_flowspec_receiver.Prelude.{
  ℕ, zero, suc, ◌+◌, ◌-◌, ◌*◌, ◌^◌, Bool, true, false, ◌&&◌, ◌||◌, String, Option, none, some, List,
  [], ◌∷◌, ◌++◌, ltb, leb, ◌==◌, str_eq, format, if◌then◌else◌,
}
use bgp_flowspec_receiver.Capture.{Packet, flush}

-- `char::is_whitespace`
unfoldable pub is_whitespace : Char → Bool
is_whitespace c =
    let n = code c in
    leb 9 n && leb n 13
    || n == 32
    || n == 133
    || n == 160
    || n == 5760
    || leb 8192 n && leb n 8202
    || n == 8232
    || n == 8233
    || n == 8239
    || n == 8287
    || n == 12288

unfoldable pub trim_start : String → String
unfolding is_whitespace
trim_start String.[] = ""
trim_start (String.◌∷◌ c s) =
    let rest = trim_start s in if is_whitespace c then rest else String.◌∷◌ c s

-- The part behind the first colon.
unfoldable pub after_colon : String → Option String
after_colon String.[] = none
after_colon (String.◌∷◌ c s) = let rest = after_colon s in if code c == 58 then some s else rest

abbrev pub push_word : String → List String → List String
push_word String.[] words = words
push_word (String.◌∷◌ c s) words = String.◌∷◌ c s ∷ words

-- The characters before the first space, and the words behind it.
unfoldable pub first_word : String → String × List String
unfolding is_whitespace
first_word String.[] = ("", [])
first_word (String.◌∷◌ c s) =
    let (word, words) = first_word s in
    if is_whitespace c then ("", push_word word words) else (String.◌∷◌ c word, words)

unfoldable pub split_whitespace : String → List String
unfolding first_word
split_whitespace s = let (word, words) = first_word s in push_word word words

unfoldable pub is_hexdigit : Char → Bool
is_hexdigit c =
    let n = code c in leb 48 n && leb n 57 || leb 65 n && leb n 70 || leb 97 n && leb n 102

abbrev pub hexdigit_value : Char → ℕ
hexdigit_value c =
    let n = code c in if ltb n 58 then n - 48 else if ltb n 71 then n - 55 else n - 87

abbrev pub hex_byte : Char → Char → ℕ
hex_byte hi lo = hexdigit_value hi * 16 + hexdigit_value lo

-- The bytes of a word of two or four digits.
unfoldable pub word_bytes : String → Option (List ℕ)
unfolding is_hexdigit
word_bytes (String.◌∷◌ a (String.◌∷◌ b String.[])) =
    if is_hexdigit a && is_hexdigit b then some (hex_byte a b ∷ []) else none
word_bytes (String.◌∷◌ a (String.◌∷◌ b (String.◌∷◌ c (String.◌∷◌ d String.[])))) =
    if is_hexdigit a && is_hexdigit b && (is_hexdigit c && is_hexdigit d)
    then some (hex_byte a b ∷ hex_byte c d ∷ [])
    else none
word_bytes word = none

-- The loop over the words, at most `n` of them.
unfoldable pub words_bytes : ℕ → List String → List ℕ
unfolding word_bytes
words_bytes zero words = []
words_bytes (suc n) [] = []
words_bytes (suc n) (word ∷ words) =
    let rest = words_bytes n words in
    elim (word_bytes word) [ none ↦ [] | some bytes ↦ bytes ++ rest ]

-- What a line of the dump adds to the bytes.
unfoldable pub dump_bytes : String → List ℕ
unfolding after_colon split_whitespace words_bytes trim_start
dump_bytes line =
    if starts_with (trim_start line) "0x"
    then elim (after_colon line) [ none ↦ [] | some hex ↦ words_bytes 8 (split_whitespace hex) ]
    else []

-- The groups of the regular expression, without the first.
pub record Groups : Type 0 where
  pub src_ip : String
  pub src_port : String
  pub dst_ip : String
  pub dst_port : String
  pub flags : String
  pub length : String

abbrev pub digits_value : String → ℕ → Option ℕ
digits_value String.[] n = some n
digits_value (String.◌∷◌ c s) n =
    let m = n * 10 + (code c - 48) in
    let rest = digits_value s m in
    if leb 48 (code c) && leb (code c) 57 && ltb m (2 ^ 32) then rest else none

-- `parse::<u32>()`, 0 in place of an error. No sign is in the group.
unfoldable pub parse_length : String → ℕ
parse_length String.[] = 0
parse_length (String.◌∷◌ c s) = elim (digits_value (String.◌∷◌ c s) 0) [ none ↦ 0 | some n ↦ n ]

unfoldable pub flag_names : String → String
flag_names f =
    if str_eq f "S"
    then "SYN"
    else if str_eq f "R"
    then "RST"
    else if str_eq f "F"
    then "FIN"
    else if str_eq f "P"
    then "PSH"
    else if str_eq f "."
    then "ACK"
    else if str_eq f "S."
    then "SYN-ACK"
    else if str_eq f "F."
    then "FIN-ACK"
    else if str_eq f "R."
    then "RST-ACK"
    else if str_eq f "P."
    then "PSH-ACK"
    else f

unfoldable pub tcp_event : String → Option String
tcp_event f =
    if str_eq f "S"
    then some "TCP SYN - connection attempt"
    else if str_eq f "S."
    then some "TCP SYN-ACK - connection accepted"
    else if str_eq f "R" || str_eq f "R."
    then some "TCP RST - connection refused/reset"
    else if str_eq f "F" || str_eq f "F."
    then some "TCP FIN - connection closing"
    else none

unfoldable pub packet_of : String → Groups → Packet
unfolding flag_names tcp_event parse_length
packet_of peer c = record {
  flags = flag_names c.flags;
  src = format (c.src_ip ∷ ":" ∷ c.src_port ∷ []);
  direction = if str_eq c.dst_ip peer then "→" else "←";
  dst = format (c.dst_ip ∷ ":" ∷ c.dst_port ∷ []);
  length = parse_length c.length;
  tcp_event = tcp_event c.flags;
}

-- An event about a packet: the packet, its line of text, and the type of its message.
pub record PacketEvent : Type 0 where
  pub packet : Packet
  pub message : String
  pub bgp_type : Option String

abbrev pub event_of : Packet → List ℕ → PacketEvent
event_of p bytes =
    let (message, kind) = flush p bytes in record { packet = p; message = message; bgp_type = kind }

-- The variables of the task, with the events that it has emitted.
pub record Reading : Type 0 where
  pub packet : Option Packet
  pub bytes : List ℕ
  pub events : List PacketEvent

-- `flush(&app, packet.take(), &bytes)`
unfoldable pub flush_packet : Reading → List PacketEvent
unfolding flush
flush_packet r = elim r.packet [ none ↦ r.events | some p ↦ r.events ++ event_of p r.bytes ∷ [] ]

module _ (captures : String → Option Groups) (peer : String) where
  unfoldable pub read_line : String → Reading → Reading
  unfolding flush_packet packet_of dump_bytes
  read_line line r = elim (captures line) [
    | some c ↦ record { packet = some (packet_of peer c); bytes = []; events = flush_packet r }
    | none ↦ record r { bytes = r.bytes ++ dump_bytes line }
  ]

  unfoldable pub read_lines : List String → Reading → Reading
  unfolding read_line
  read_lines [] r = r
  read_lines (line ∷ lines) r = read_lines lines (read_line line r)

  -- The events of the task for the lines that it reads before it ends.
  unfoldable pub read_capture : List String → List PacketEvent
  unfolding read_lines flush_packet
  read_capture lines =
      flush_packet (read_lines lines (record { packet = none; bytes = []; events = [] }))
