-- ===== src/Wired/Updater.antt =====
-- wired_configurator.c: the task that saves the network configuration of a packet and restarts.
use bigblackhardware.Base.{◌==◌, Option, some, if◌then◌else◌, ◌>>=◌, negative, replicate}
use bigblackhardware.Protocol.{type_code, network_configuration}
use bigblackhardware.Packet.{Packet}
use bigblackhardware.Wlan.{WlanConfig, mode_ap, sec_open, max_ssid_length, max_pwd_length}
use bigblackhardware.Wlan.Storage.{Fs, Layout, wlan_save_config}
use bigblackhardware.Wired.{get_wlan_config_from_packet}

-- mem_set(&cfg, 0, sizeof cfg)
abbrev pub zero_config : WlanConfig
zero_config = record {
  mode = mode_ap;
  sec = sec_open;
  channel = 0;
  ssid = replicate max_ssid_length 0;
  ssid_len = 0;
  pwd = replicate max_pwd_length 0;
  pwd_len = 0;
}

-- The files when the task has ended, or when sys_restart resets the board.
pub data Updated (F : Type 0) : Type 0 where
  task_deleted board_restarted : F → Updated F

module _ {F : Type 0} (fs : Fs F) (layout : Layout) where
  -- The other types of packets do nothing.
  unfoldable pub updater_task : Packet → F → Option (Updated F)
  updater_task cfg_packet f =
      let update = (do
        (parsed, config) ← get_wlan_config_from_packet cfg_packet.packet_data zero_config
        let save = (do
          (status, f1) ← wlan_save_config fs layout config f
          some (if negative status then task_deleted f1 else board_restarted f1))
        if negative parsed then some (task_deleted f) else save) in
      if cfg_packet.header.type == type_code network_configuration
      then update
      else some (task_deleted f)
