-- ===== src/Effects/Wol/Packet.antt =====
-- The packet of Wake-on-LAN, for a hardware address as it is printed.
use nut_dog.Prelude.{
  ℕ, zero, suc, ◌*◌, ◌/◌, ◌%◌, ◌<◌, ◌≡◌, ◌∙◌, refl, sym, ap, some, inr, List, [], ◌∷◌, ◌++◌,
  append_assoc, append-nil, arith, length, length-append, replicate, All, All-append, Text,
}
use nut_dog.GoStrings.Parts.{hex_digit}
use nut_dog.GoNet.Mac.{hex_value, hex_byte, bytes_between, of_length, parse_mac}
use nut_dog.Effects.Wol.{append_times, packet_of, magic_packet}

-- A hardware address as it is printed: two digits for each byte, with colons between the bytes.
abbrev pub print_mac : List ℕ → Text
print_mac [] = []
print_mac (b ∷ []) = hex_digit (b / 16) ∷ hex_digit (b % 16) ∷ []
print_mac (b ∷ c ∷ bs) = hex_digit (b / 16) ∷ hex_digit (b % 16) ∷ b':' ∷ print_mac (c ∷ bs)

abbrev pub IsBytes : List ℕ → Type 0
IsBytes = All (λ b. b < 256)

-- `hw`, as often as `n` says
abbrev pub repeated : ℕ → Text → Text
repeated zero hw = []
repeated (suc n) hw = hw ++ repeated n hw

hex_value-digit : (n : ℕ) → n < 16 → hex_value (hex_digit n) ≡ some n
unfolding hex_value
hex_value-digit n h = ground arith

hex_byte-digits : (b : ℕ) → b < 256 → hex_byte (hex_digit (b / 16)) (hex_digit (b % 16)) ≡ some b
unfolding hex_byte
hex_byte-digits b h =
    let low : b % 16 < 16 = omega arith in
    let high : b / 16 < 16 = omega arith in
    rw (hex_byte, hex_value-digit (b / 16) high, hex_value-digit (b % 16) low)
      (ap some (omega arith))

bytes_between-print_mac :
    (b : ℕ) (bs : List ℕ) → IsBytes (b ∷ bs) → bytes_between 58 (print_mac (b ∷ bs)) ≡ some (b ∷ bs)
unfolding bytes_between
bytes_between-print_mac b [] h = rw (hex_byte-digits b h.0) refl
bytes_between-print_mac b (c ∷ bs) h =
    rw (hex_byte-digits b h.0, bytes_between-print_mac c bs h.1) refl

parse_mac-print_mac :
    (hw : List ℕ) → length hw ≡ 6 → IsBytes hw → parse_mac (print_mac hw) ≡ some hw
unfolding parse_mac of_length
parse_mac-print_mac (a ∷ b ∷ c ∷ d ∷ e ∷ f ∷ []) n h =
    rw (bytes_between-print_mac a (b ∷ c ∷ d ∷ e ∷ f ∷ []) h) refl
parse_mac-print_mac [] n h = absurd (omega arith)
parse_mac-print_mac (a ∷ []) n h = absurd (omega arith)
parse_mac-print_mac (a ∷ b ∷ []) n h = absurd (omega arith)
parse_mac-print_mac (a ∷ b ∷ c ∷ []) n h = absurd (omega arith)
parse_mac-print_mac (a ∷ b ∷ c ∷ d ∷ []) n h = absurd (omega arith)
parse_mac-print_mac (a ∷ b ∷ c ∷ d ∷ e ∷ []) n h = absurd (omega arith)
parse_mac-print_mac (a ∷ b ∷ c ∷ d ∷ e ∷ f ∷ g ∷ hw) n h = absurd (omega arith)

append_times-repeated : (n : ℕ) (hw pkt : Text) → append_times n hw pkt ≡ pkt ++ repeated n hw
unfolding append_times
append_times-repeated zero hw pkt = sym (append-nil pkt)
append_times-repeated (suc n) hw pkt =
    append_times-repeated n hw (pkt ++ hw) ∙ append_assoc pkt hw (repeated n hw)

length-repeated : (n : ℕ) (hw : Text) → length (repeated n hw) ≡ n * length hw
length-repeated zero hw = omega arith
length-repeated (suc n) hw = omega (arith, length-append hw (repeated n hw), length-repeated n hw)

repeated-IsBytes : (n : ℕ) (hw : Text) → IsBytes hw → IsBytes (repeated n hw)
repeated-IsBytes zero hw h = tt
repeated-IsBytes (suc n) hw h = All-append _ hw (repeated n hw) h (repeated-IsBytes n hw h)

-- For a printed hardware address of six bytes the packet is six bytes 0xFF and then sixteen times the
-- address: 102 bytes.
pub magic_packet-print_mac :
    {E : Type 0} (hw : List ℕ)
    → length hw ≡ 6
    → IsBytes hw
    → let pkt = replicate 6 255 ++ repeated 16 hw in
      (magic_packet {E = E} (print_mac hw) ≡ inr pkt) × (length pkt ≡ 102) × IsBytes pkt
unfolding magic_packet packet_of
magic_packet-print_mac hw n h = (
  rw (parse_mac-print_mac hw n h, n) (ap inr (append_times-repeated 16 hw (replicate 6 255))),
  omega (arith, length-append (replicate 6 255) (repeated 16 hw), length-repeated 16 hw),
  All-append _ (replicate 6 255) (repeated 16 hw) (ground arith) (repeated-IsBytes 16 hw h),
)
