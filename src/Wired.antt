-- ===== src/Wired.antt =====
-- wired_configurator.c: packets that arrive over a UART by DMA, and the network configuration in
-- them. The operating system's creation of a task is a parameter.
pub mod Network
pub mod Interrupts
pub mod Updater
mod Examples
use bigblackhardware.Base.{
  ℕ, zero, suc, ◌+◌, Option, none, some, List, [], ◌∷◌, ◌++◌, ◌==◌, if◌then◌else◌, ◌>>=◌, ℤ, pos,
  negsuc, negative, u8, get_elem?, length, drop, read?, copy?,
}
use bigblackhardware.Protocol.{EnumAbi, packet_header_size}
use bigblackhardware.Packet.{Packet, PacketHeader, parse_header}
use bigblackhardware.Wlan.{WlanConfig, mode_ap, mode_sta, sec_open, sec_wpa_wpa2}

abbrev pub ssid_len_offset : ℕ
ssid_len_offset = 3

-- What follows the copies: the mode is checked first, then the security is set from the password.
unfoldable pub set_mode : (mode channel : ℕ) → WlanConfig → ℤ × WlanConfig
set_mode mode channel config =
    let sec = if config.pwd_len == 0 then sec_open else sec_wpa_wpa2 in
    if mode == 1
    then (pos 0, record config { mode = mode_ap; sec = sec; channel = channel })
    else if mode == 0
    then (pos 0, record config { mode = mode_sta; sec = sec; channel = channel })
    else (negsuc 0, config)

-- No length is checked against the arrays of the configuration.
unfoldable pub get_wlan_config_from_packet : List ℕ → WlanConfig → Option (ℤ × WlanConfig)
get_wlan_config_from_packet packet config = do
  channel ← get_elem? packet 2
  mode ← get_elem? packet 0
  phy ← get_elem? packet 1
  ssid_len ← get_elem? packet ssid_len_offset
  pwd_len ← get_elem? packet (ssid_len_offset + ssid_len + 1)
  let pwd_off = u8 (ssid_len_offset + ssid_len + 2)
  ssid_bytes ← read? ssid_len (drop (ssid_len_offset + 1) packet)
  ssid ← copy? config.ssid ssid_bytes
  pwd_bytes ← read? pwd_len (drop pwd_off packet)
  pwd ← copy? config.pwd pwd_bytes
  some (
      set_mode mode channel
        (record config { ssid = ssid; ssid_len = ssid_len; pwd = pwd; pwd_len = pwd_len }))

pub data WiredState : Type 0 where
  recv_header recv_body : WiredState

-- `dma` is the number of bytes that the DMA controller is set up for, if any. `tasks` counts the
-- updater tasks.
pub record Wired : Type 0 where
  pub state : WiredState
  pub cfg_packet : Packet
  pub dma : Option ℕ
  pub tasks : ℕ

-- n_bytes is a _u8. The offset is 0 in every call.
unfoldable pub wired_recv : ℕ → Wired → Wired
wired_recv n_bytes w = record w { dma = some (u8 n_bytes) }

-- `created` is the status of osi_TaskCreate. StateRecvHeader is assigned to `status`.
unfoldable pub uart_irq_hdnl : EnumAbi → (created : ℤ) → Wired → Wired
uart_irq_hdnl abi created w =
    let stopped = record w { dma = none } in
    elim w.state [
      | recv_header ↦
          let (status, header) = parse_header abi w.cfg_packet.packet_data w.cfg_packet.header in
          let parsed = record stopped { cfg_packet = record (w.cfg_packet) { header = header } } in
          if negative status
          then parsed
          else wired_recv header.data_size (record parsed { state = recv_body })
      | recv_body ↦
          if negative created
          then stopped
          else wired_recv packet_header_size (record stopped { tasks = w.tasks + 1 })
    ]

unfoldable pub wired_conf_start : Wired → Wired
wired_conf_start w = wired_recv packet_header_size (record w { state = recv_header })
