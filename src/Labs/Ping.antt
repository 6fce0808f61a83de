-- ===== src/Labs/Ping.antt =====
-- The loop of `send_ping` of labs/2016A7PS0064P_lab8/read_icmp.c over the packets it receives.
use network_programming_assi.Base.{
  ℕ, ◌+◌, ◌-◌, ◌≡◌, refl, ◌∙◌, Option, none, some, Bool, false, ◌&&◌, List, [], ◌∷◌, ◌++◌, Str,
  ◌==◌, if◌then◌else◌, take, replicate, get_or, length, arith, inl, inr, Bool-cases,
}

-- The 64 bytes of `pckt` after bzero and a receive: a packet, or none if it fails.
unfoldable pub filled : Option Str → Str
filled none = replicate 64 0
filled (some packet) = let got = take 64 packet in got ++ replicate (64 - length got) 0

-- The first two bytes, as `type` and `code`.
unfoldable pub is_ping : Str → Bool
is_ping pckt = (get_or pckt 0 0 == 69) && (get_or pckt 1 0 == 0)

-- A round of the loop. `msg_count` stays 0, so a receive that fails goes the same way.
unfoldable pub count_ping : ℕ → Option Str → ℕ
count_ping count packet = if is_ping (filled packet) then count + 1 else count

-- The number of packets printed at the end.
unfoldable pub listen : ℕ → List (Option Str) → ℕ
listen count [] = count
listen count (packet ∷ rest) = listen (count_ping count packet) rest

-- The packet begins with an IPv4 header of 20 bytes, version 4 and length 5, and service type 0.
abbrev pub has_plain_ip : Option Str → Bool
has_plain_ip none = false
has_plain_ip (some []) = false
has_plain_ip (some (a ∷ [])) = a == 69
has_plain_ip (some (a ∷ b ∷ rest)) = (a == 69) && (b == 0)

abbrev pub plain_packets : List (Option Str) → ℕ
plain_packets [] = 0
plain_packets (packet ∷ rest) = (if has_plain_ip packet then 1 else 0) + plain_packets rest

is_ping-filled : (packet : Option Str) → is_ping (filled packet) ≡ has_plain_ip packet
unfolding is_ping filled
is_ping-filled none = refl
is_ping-filled (some []) = refl
is_ping-filled (some (a ∷ [])) = ground arith
is_ping-filled (some (a ∷ b ∷ rest)) = refl

listen_counts_from :
    (count : ℕ) (packets : List (Option Str)) → listen count packets ≡ count + plain_packets packets
unfolding listen count_ping
listen_counts_from count [] = omega arith
listen_counts_from count (packet ∷ rest) = elim (Bool-cases (has_plain_ip packet)) [
  | inl e ↦ rw (is_ping-filled packet, e) (listen_counts_from (count + 1) rest ∙ omega arith)
  | inr e ↦ rw (is_ping-filled packet, e) (listen_counts_from count rest ∙ omega arith)
]

-- What the program counts are the packets that begin with the bytes 69 and 0, and no failed
-- receives: of a raw socket these are the version, header length and service type of the IP header
-- that stands before the ICMP message. The type and the code of that message, all that comes after
-- the first two bytes, change nothing.
pub listen-plain_packets : (packets : List (Option Str)) → listen 0 packets ≡ plain_packets packets
listen-plain_packets packets = listen_counts_from 0 packets ∙ omega arith
