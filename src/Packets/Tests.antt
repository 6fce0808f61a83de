-- ===== src/Packets/Tests.antt =====
-- A segment that Assignment3P2/read_messages.c prints.
use network_programming_assi.Base.{◌≡◌, refl, some, [], ◌∷◌, ok, Str, arith, replicate}
use network_programming_assi.Packets.Reader.{receive_packet, print_packet}
use network_programming_assi.Packets.Fields.{Segment, frame, IsSegment, printed, print_packet-frame}

-- A segment with one word of options, the flags SYN and ACK, and an acknowledgement of 65536 * 18 + 52.
abbrev segment : Segment
segment = record {
  dest_mac = record { b0 = 1; b1 = 2; b2 = 3; b3 = 4; b4 = 5; b5 = 6 };
  source_mac = record { b0 = 7; b1 = 8; b2 = 9; b3 = 10; b4 = 11; b5 = 12 };
  size = 44;
  ttl = 64;
  source = record { a0 = 10; a1 = 0; a2 = 0; a3 = 1 };
  dest = record { a0 = 10; a1 = 0; a2 = 0; a3 = 2 };
  options = 1 ∷ 1 ∷ 1 ∷ 0 ∷ [];
  source_port = 8080;
  dest_port = 443;
  seq = 7;
  ack = 1179700;
  flags = 18;
  window = 1024;
  rest = [];
}

segment-IsSegment : IsSegment segment
segment-IsSegment = record { words = refl; few = omega arith; short = omega arith }

print_packet-frame_example :
    (now : Str) × (receive_packet (replicate 100 255) (some (frame segment)) ≡ ok now)
    × (print_packet now ≡ printed segment)
print_packet-frame_example = print_packet-frame segment (replicate 100 255) segment-IsSegment
