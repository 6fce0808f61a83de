-- ===== src/Packets/Reader.antt =====
-- Assignment3P2/read_messages.c: the buffer of received packets and what is printed of each, on a
-- little-endian machine.
use network_programming_assi.Base.{
  ℕ, ◌+◌, ◌*◌, ◌/◌, ◌%◌, Option, none, some, List, [], ◌∷◌, ◌++◌, Outcome, ok, stopped, ◌>>=◌, ◌==◌,
  if◌then◌else◌, Str, take, drop, get_or, length,
}

-- A byte of the buffer, and two bytes in network order, as ntohs gives them.
unfoldable pub byte : Str → ℕ → ℕ
byte buffer i = get_or buffer i 0

unfoldable pub ntohs_at : Str → ℕ → ℕ
ntohs_at buffer i = byte buffer i * 256 + byte buffer (i + 1)

pub record Mac : Type 0 where
  pub b0 : ℕ
  pub b1 : ℕ
  pub b2 : ℕ
  pub b3 : ℕ
  pub b4 : ℕ
  pub b5 : ℕ

pub record Address : Type 0 where
  pub a0 : ℕ
  pub a1 : ℕ
  pub a2 : ℕ
  pub a3 : ℕ

unfoldable pub mac_at : Str → ℕ → Mac
mac_at buffer i = record {
  b0 = byte buffer i;
  b1 = byte buffer (i + 1);
  b2 = byte buffer (i + 2);
  b3 = byte buffer (i + 3);
  b4 = byte buffer (i + 4);
  b5 = byte buffer (i + 5);
}

unfoldable pub address_at : Str → ℕ → Address
address_at buffer i = record {
  a0 = byte buffer i;
  a1 = byte buffer (i + 1);
  a2 = byte buffer (i + 2);
  a3 = byte buffer (i + 3);
}

-- The lines that only a TCP segment has at the end.
pub record Tcp : Type 0 where
  pub window : ℕ
  pub syn : ℕ
  pub fin : ℕ
  pub rst : ℕ
  pub ack : ℕ

-- What is printed of a packet.
pub record Printed : Type 0 where
  pub source_mac : Mac
  pub dest_mac : Mac
  pub source : Address
  pub dest : Address
  pub size : ℕ
  pub ttl : ℕ
  pub ports : Option (ℕ × ℕ)
  pub protocol : ℕ
  pub tcp : Option Tcp

-- The header after the IP header, of `ihl` words.
unfoldable pub transport : Str → ℕ
transport buffer = byte buffer 14 % 16 * 4 + 14

unfoldable pub ports_of : Str → ℕ → Option (ℕ × ℕ)
ports_of buffer protocol =
    let at = transport buffer in
    let both = some (ntohs_at buffer at, ntohs_at buffer (at + 2)) in
    if protocol == 6 then both else if protocol == 17 then both else none

-- The argument of ntohs has 16 bits: of the acknowledgement number it gets the first two bytes.
unfoldable pub tcp_of : Str → ℕ → Option Tcp
tcp_of buffer protocol =
    let at = transport buffer in
    let flags = byte buffer (at + 13) in
    if protocol == 6
    then some (record {
      window = ntohs_at buffer (at + 14);
      syn = flags / 2 % 2;
      fin = flags % 2;
      rst = flags / 4 % 2;
      ack = ntohs_at buffer (at + 8);
    })
    else none

unfoldable pub print_packet : Str → Printed
print_packet buffer = record {
  source_mac = mac_at buffer 6;
  dest_mac = mac_at buffer 0;
  source = address_at buffer 26;
  dest = address_at buffer 30;
  size = ntohs_at buffer 16;
  ttl = byte buffer 22;
  ports = ports_of buffer (byte buffer 23);
  protocol = byte buffer 23;
  tcp = tcp_of buffer (byte buffer 23);
}

-- A receive into the buffer, which keeps the bytes after the packet; none if it fails.
unfoldable pub receive_packet : Str → Option Str → Outcome Str
receive_packet buffer none = stopped
receive_packet buffer (some packet) =
    let got = take 65536 packet in ok (got ++ drop (length got) buffer)

-- The loop over the packets that come.
unfoldable pub capture : Str → List (Option Str) → Outcome (List Printed)
capture buffer [] = ok []
capture buffer (packet ∷ packets) = receive_packet buffer packet >>= λ now.
    capture now packets >>= λ rest. ok (print_packet now ∷ rest)
