-- ===== src/Packets/Fields.antt =====
-- What Assignment3P2/read_messages.c prints of a TCP segment.
use network_programming_assi.Base.{
  ℕ, zero, suc, ◌+◌, ◌*◌, ◌/◌, ◌%◌, ◌≤◌, ◌≡◌, refl, ap, ap₂, ◌∙◌, Option, some, [], ◌∷◌, ◌++◌,
  append_assoc, ok, Str, take, drop, get_or, length, length-append, arith,
}
use network_programming_assi.Packets.Reader.{
  byte, ntohs_at, Mac, Address, mac_at, address_at, Tcp, Printed, transport, ports_of, tcp_of,
  print_packet, receive_packet,
}

-- The fields of a segment of TCP in a frame of Ethernet: `options` are the words of the IP header
-- after its first five, and `rest` is what follows the window.
pub record Segment : Type 0 where
  pub dest_mac : Mac
  pub source_mac : Mac
  pub size : ℕ
  pub ttl : ℕ
  pub source : Address
  pub dest : Address
  pub options : Str
  pub source_port : ℕ
  pub dest_port : ℕ
  pub seq : ℕ
  pub ack : ℕ
  pub flags : ℕ
  pub window : ℕ
  pub rest : Str

abbrev pub mac_bytes : Mac → Str → Str
mac_bytes m s = m.b0 ∷ m.b1 ∷ m.b2 ∷ m.b3 ∷ m.b4 ∷ m.b5 ∷ s

abbrev pub address_bytes : Address → Str → Str
address_bytes a s = a.a0 ∷ a.a1 ∷ a.a2 ∷ a.a3 ∷ s

abbrev pub two : ℕ → Str → Str
two n s = n / 256 ∷ n % 256 ∷ s

abbrev pub tcp_bytes : Segment → Str
tcp_bytes p = two p.source_port (
    two p.dest_port (
      two (p.seq / 65536) (
        two (p.seq % 65536)
          (two (p.ack / 65536) (two (p.ack % 65536) (80 ∷ p.flags ∷ two p.window p.rest))))))

-- The frame: type 0x0800, version 4, protocol 6; the fields that are not printed are 0.
abbrev pub headers : Segment → Str
headers p = mac_bytes p.dest_mac (
    mac_bytes p.source_mac (
      8
      ∷ 0
      ∷ (4 * 16 + (5 + length p.options / 4))
      ∷ 0
      ∷ two p.size
          (0 ∷ 0 ∷ 0 ∷ 0 ∷ p.ttl ∷ 6 ∷ 0 ∷ 0 ∷ address_bytes p.source (address_bytes p.dest []))))

abbrev pub frame : Segment → Str
frame p = headers p ++ (p.options ++ tcp_bytes p)

-- The options are whole words, at most ten, and the frame fits the buffer.
pub record IsSegment (p : Segment) : Type 0 where
  pub words : length p.options % 4 ≡ 0
  pub few : length p.options ≤ 40
  pub short : length p.rest ≤ 60000

-- All is printed as it was sent, but for the acknowledgement number: of that only the high half.
abbrev pub printed : Segment → Printed
printed p = record {
  source_mac = p.source_mac;
  dest_mac = p.dest_mac;
  source = p.source;
  dest = p.dest;
  size = p.size;
  ttl = p.ttl;
  ports = some (p.source_port, p.dest_port);
  protocol = 6;
  tcp = some (record {
    window = p.window;
    syn = p.flags / 2 % 2;
    fin = p.flags % 2;
    rst = p.flags / 4 % 2;
    ack = p.ack / 65536;
  });
}

get_or-append : (xs ys : Str) (j : ℕ) → get_or (xs ++ ys) (length xs + j) 0 ≡ get_or ys j 0
get_or-append [] ys j = ap (λ n. get_or ys n 0) (omega arith)
get_or-append (x ∷ xs) ys j =
    let next : suc (length xs) + j ≡ suc (length xs + j) = omega arith in
    ap (λ n. get_or (x ∷ (xs ++ ys)) n 0) next ∙ get_or-append xs ys j

halves : (n : ℕ) → n / 256 * 256 + n % 256 ≡ n
halves n = omega arith

transport-frame :
    (p : Segment) (tail : Str) → IsSegment p → transport (frame p ++ tail) ≡ 34 + length p.options
unfolding transport byte
transport-frame p tail v = omega (arith, v.words, v.few)

-- A byte of the TCP header.
byte-frame :
    (p : Segment) (tail : Str) (j : ℕ)
    → byte (frame p ++ tail) (34 + length p.options + j) ≡ get_or (tcp_bytes p ++ tail) j 0
unfolding byte
byte-frame p tail j =
    let split : frame p ++ tail ≡ headers p ++ (p.options ++ (tcp_bytes p ++ tail)) =
      append_assoc (headers p) (p.options ++ tcp_bytes p) tail
      ∙ ap (λ l. headers p ++ l) (append_assoc p.options (tcp_bytes p) tail) in
    let index : 34 + length p.options + j ≡ length (headers p) + (length p.options + j) =
      omega arith in
    ap₂ (λ l n. get_or l n 0) split index
    ∙ get_or-append (headers p) (p.options ++ (tcp_bytes p ++ tail)) (length p.options + j)
    ∙ get_or-append p.options (tcp_bytes p ++ tail) j

-- Two bytes of the TCP header at an index that may be written in another way.
ntohs-frame :
    (p : Segment) (tail : Str) (at j n : ℕ)
    → at ≡ 34 + length p.options + j
    → get_or (tcp_bytes p ++ tail) j 0 * 256 + get_or (tcp_bytes p ++ tail) (j + 1) 0 ≡ n
    → ntohs_at (frame p ++ tail) at ≡ n
unfolding ntohs_at
ntohs-frame p tail at j n place value =
    let next : at + 1 ≡ 34 + length p.options + (j + 1) = omega (arith, place) in
    ap₂ (λ a b. byte (frame p ++ tail) a * 256 + byte (frame p ++ tail) b) place next
    ∙ ap₂ (λ a b. a * 256 + b) (byte-frame p tail j) (byte-frame p tail (j + 1))
    ∙ value

ports-frame :
    (p : Segment) (tail : Str)
    → IsSegment p
    → ports_of (frame p ++ tail) 6 ≡ some (p.source_port, p.dest_port)
unfolding ports_of
ports-frame p tail v = rw (transport-frame p tail v) (
    ap₂ (λ a b. some (a, b))
      (ntohs-frame p tail (34 + length p.options) 0 p.source_port (omega arith)
        (halves p.source_port))
      (ntohs-frame p tail (34 + length p.options + 2) 2 p.dest_port (omega arith)
        (halves p.dest_port)))

tcp-frame : (p : Segment) (tail : Str) → IsSegment p → tcp_of (frame p ++ tail) 6 ≡ (printed p).tcp
unfolding tcp_of
tcp-frame p tail v =
    let at = 34 + length p.options in
    rw
      (
        transport-frame p tail v,
        ntohs-frame p tail (at + 14) 14 p.window (omega arith) (halves p.window),
        ntohs-frame p tail (at + 8) 8 (p.ack / 65536) (omega arith) (halves (p.ack / 65536)),
        byte-frame p tail 13,
      )
      refl

size-frame : (p : Segment) (tail : Str) → ntohs_at (frame p ++ tail) 16 ≡ p.size
unfolding ntohs_at byte
size-frame p tail = halves p.size

print-frame : (p : Segment) (tail : Str) → IsSegment p → print_packet (frame p ++ tail) ≡ printed p
unfolding print_packet mac_at address_at byte
print-frame p tail v =
    ap
      (λ (n : ℕ). record (printed p) {
        size = n;
        ports = ports_of (frame p ++ tail) 6;
        tcp = tcp_of (frame p ++ tail) 6;
      })
      (size-frame p tail)
    ∙ ap
        (λ (q : Option (ℕ × ℕ)). record (printed p) { ports = q; tcp = tcp_of (frame p ++ tail) 6 })
        (ports-frame p tail v)
    ∙ ap (λ (q : Option Tcp). record (printed p) { tcp = q }) (tcp-frame p tail v)

take_nil : (n : ℕ) → take {A = ℕ} n [] ≡ []
take_nil zero = refl
take_nil (suc n) = refl

take_fit : (n : ℕ) (xs : Str) → length xs ≤ n → take n xs ≡ xs
take_fit n [] fit = take_nil n
take_fit zero (x ∷ xs) fit = absurd (omega arith)
take_fit (suc n) (x ∷ xs) fit = ap (λ l. x ∷ l) (take_fit n xs (omega arith))

-- A packet that fits the buffer stands at its start.
receive-fit :
    (buffer packet : Str)
    → length packet ≤ 65536
    → receive_packet buffer (some packet) ≡ ok (packet ++ drop (length packet) buffer)
unfolding receive_packet
receive-fit buffer packet fit =
    ap (λ (got : Str). ok (got ++ drop (length got) buffer)) (take_fit 65536 packet fit)

-- A segment of TCP with at most ten words of options is printed as it was sent, whatever the buffer
-- held before and whatever the options are; but of the acknowledgement number only the high half.
pub print_packet-frame :
    (p : Segment) (buffer : Str)
    → IsSegment p
    → (now : Str) × (receive_packet buffer (some (frame p)) ≡ ok now)
      × (print_packet now ≡ printed p)
print_packet-frame p buffer v =
    let size : length (frame p) ≤ 65536 =
      omega (arith, length-append p.options (tcp_bytes p), v.few, v.short) in
    (
      frame p ++ drop (length (frame p)) buffer,
      receive-fit buffer (frame p) size,
      print-frame p (drop (length (frame p)) buffer) v,
    )
