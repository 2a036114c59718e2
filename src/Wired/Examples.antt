-- ===== src/Wired/Examples.antt =====
-- Runs of wired_configurator.c.
use bigblackhardware.Base.{◌≡◌, refl, true, some, [], ◌∷◌, pos, negative, replicate, arith}
use bigblackhardware.Protocol.{int_enums}
use bigblackhardware.Packet.{parse_header}
use bigblackhardware.PacketManager.Examples.{blank}
use bigblackhardware.Wlan.{WlanConfig, mode_ap, sec_open}
use bigblackhardware.Wired.{
  Wired, recv_header, recv_body, set_mode, get_wlan_config_from_packet, uart_irq_hdnl,
}
use bigblackhardware.Wired.Network.{
  NetworkWire, network_layout, named, get_wlan_config_from_packet-named,
}
use bigblackhardware.Wired.Interrupts.{
  ends, start, next, transferred, Runs-recv_body, uart_irq_hdnl-Runs,
}

abbrev no_config : WlanConfig
no_config = record {
  mode = mode_ap;
  sec = sec_open;
  channel = 0;
  ssid = replicate 32 0;
  ssid_len = 0;
  pwd = replicate 64 0;
  pwd_len = 0;
}

abbrev home : NetworkWire
home = record {
  mode = 0;
  phy = 1;
  channel = 6;
  ssid = b'h' ∷ b'o' ∷ b'm' ∷ b'e' ∷ [];
  pwd = b'x' ∷ [];
}

get_wlan_config_from_packet-named_example :
    get_wlan_config_from_packet (network_layout home (replicate 10 0)) no_config
    ≡ some (set_mode 0 6 (named home no_config))
get_wlan_config_from_packet-named_example =
    get_wlan_config_from_packet-named home (replicate 10 0) no_config (omega arith) (omega arith)
      refl refl

abbrev in_body : Wired
in_body = record { state = recv_body; cfg_packet = blank; dma = some 2; tasks = 0 }

abbrev after_body : Wired
after_body = uart_irq_hdnl int_enums (pos 0) (transferred (1 ∷ 2 ∷ []) in_body)

Runs-recv_body_example : after_body.state ≡ recv_body
Runs-recv_body_example =
    Runs-recv_body {abi = int_enums} {s = in_body} {t = after_body} refl
      (next start (ends (1 ∷ 2 ∷ []) (pos 0) refl refl))

abbrev no_frame : Wired
no_frame = record { state = recv_header; cfg_packet = blank; dma = some 5; tasks = 0 }

no_frame_fails : negative (parse_header int_enums blank.packet_data blank.header).0 ≡ true
unfolding parse_header
no_frame_fails = refl

uart_irq_hdnl-Runs_example :
    uart_irq_hdnl int_enums (pos 0) no_frame ≡ uart_irq_hdnl int_enums (pos 0) no_frame
uart_irq_hdnl-Runs_example =
    uart_irq_hdnl-Runs int_enums (pos 0) no_frame (uart_irq_hdnl int_enums (pos 0) no_frame)
      (λ e. no_frame_fails) (λ e. absurd cc) start
