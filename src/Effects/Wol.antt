-- ===== src/Effects/Wol.antt =====
-- internal/effects/wol.go: Wake-on-LAN. The sockets are a `Udp`, which is a parameter.
pub mod Packet
use nut_dog.Prelude.{
  ℕ, zero, suc, ◌-◌, ◌+◌, ◌*◌, ◌<◌, ◌≤◌, ◌≡◌, ◌≢◌, ◌∙◌, refl, sym, ap, Bool, true, false, Option,
  none, some, ◌⊎◌, inl, inr, List, [], ◌∷◌, ◌++◌, arith, length, length-append, replicate, All,
  All-append, Text, nat_eq, if◌then◌else◌,
}
use nut_dog.GoNet.Mac.{parse_mac}
use nut_dog.Effects.{Effect, WakerEffect}

-- The calls of package net that `Wake` makes: each may fail. `allow_broadcast` is the setting of
-- SO_BROADCAST by way of `SyscallConn` and `Control`.
pub record Udp (E W : Type 0) : Type 0 where
  pub resolve : Text → Effect E W
  pub dial : Text → Effect E W
  pub allow_broadcast : Effect E W
  pub write : Text → Effect E W
  pub close : W → W

-- the errors of `magicPacket`, and those of the calls
pub data WolError (E : Type 0) : Type 0 where
  mac_invalid mac_not_six : Text → WolError E
  socket_failed : E → WolError E

-- `for range n { pkt = append(pkt, hw...) }`
unfoldable pub append_times : ℕ → Text → Text → Text
append_times zero hw pkt = pkt
append_times (suc n) hw pkt = append_times n hw (pkt ++ hw)

unfoldable pub packet_of : {E : Type 0} → Text → Option Text → WolError E ⊎ Text
unfolding append_times
packet_of mac none = inl (mac_invalid mac)
packet_of mac (some hw) =
    if nat_eq (length hw) 6
    then inr (append_times 16 hw (replicate 6 0xFF))
    else inl (mac_not_six mac)

-- magicPacket
unfoldable pub magic_packet : {E : Type 0} → Text → WolError E ⊎ Text
unfolding packet_of parse_mac
magic_packet mac = packet_of mac (parse_mac mac)

module _ {E W : Type 0} (udp : Udp E W) where
  -- an error ends the chain
  abbrev pub then_call : Option E × W → Effect E W → Option E × W
  then_call (some e, w) next = (some e, w)
  then_call (none, w) next = next w

  abbrev pub as_wol : Option E × W → Option (WolError E) × W
  as_wol (none, w) = (none, w)
  as_wol (some e, w) = (some (socket_failed e), w)

  -- behind the dial: the connection is closed at every return
  abbrev pub write_packet : Text → Effect E W
  write_packet pkt w =
      let (r, w') = then_call (udp.allow_broadcast w) (udp.write pkt) in (r, udp.close w')

  abbrev pub send_packet : Text → WolError E ⊎ Text → Effect (WolError E) W
  send_packet broadcast (inl e) w = (some e, w)
  send_packet broadcast (inr pkt) w =
      as_wol
        (then_call (then_call (udp.resolve broadcast w) (udp.dial broadcast)) (write_packet pkt))

  -- Wake
  unfoldable pub wake : Text → Text → Effect (WolError E) W
  unfolding magic_packet
  wake mac broadcast w = send_packet broadcast (magic_packet mac) w

  -- UDPWaker as a Waker
  abbrev pub udp_waker : WakerEffect (WolError E) W
  udp_waker = record { wake = wake }
