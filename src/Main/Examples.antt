-- ===== src/Main/Examples.antt =====
-- Runs of the updater and the initialization task with the toy devices of the parts.
use bigblackhardware.Base.{
  ℕ, ◌≡◌, ◌⊎◌, refl, false, none, some, List, [], ◌∷◌, pos, negsuc, replicate, arith,
}
use bigblackhardware.Protocol.{type_code, network_configuration}
use bigblackhardware.Packet.{Packet}
use bigblackhardware.PacketManager.Examples.{blank}
use bigblackhardware.Programmer.Examples.{silent}
use bigblackhardware.Wlan.{
  Wlan, connected, wlan_init, wlan_start, wlan_start_task, configure_sta, connecting_loop,
}
use bigblackhardware.Wlan.Storage.{wlan_load_config}
use bigblackhardware.Wlan.Examples.{
  radio, network, network-Fits, switched_on, Flash, flash, packed, flash-FileLaws,
  packed-LayoutLaws, empty_flash,
}
use bigblackhardware.Wired.{recv_header}
use bigblackhardware.Wired.Network.{NetworkWire, network_layout}
use bigblackhardware.Wired.Updater.{Updated, updater_task}
use bigblackhardware.Bridge.{Uart}
use bigblackhardware.Handling.Listen.{Startup}
use bigblackhardware.Handling.Examples.{server}
use bigblackhardware.Main.{Parts, choose_config, initialization_task}
use bigblackhardware.Main.Config.{Applies, updater_task-Applies}
use bigblackhardware.Main.Start.{Started, GivenUp, initialization_task-ends}
use bigblackhardware.Main.Boot.{Runs, Boots, initialization_task-Boots}

abbrev home : NetworkWire
home = record {
  mode = 0;
  phy = 1;
  channel = 6;
  ssid = b'h' ∷ b'o' ∷ b'm' ∷ b'e' ∷ [];
  pwd = b'x' ∷ [];
}

abbrev home_packet : Packet
home_packet = record blank {
  header = record (blank.header) { type = type_code network_configuration };
  packet_data = network_layout home (replicate 10 0);
}

updater_task-Applies_example :
    (u : Updated Flash) × (updater_task flash packed home_packet empty_flash ≡ some u)
    × Applies flash packed flash-FileLaws packed-LayoutLaws home empty_flash u
updater_task-Applies_example =
    updater_task-Applies flash packed flash-FileLaws packed-LayoutLaws home (replicate 10 0)
      home_packet empty_flash refl refl (omega arith) (omega arith) refl

-- The start task runs to its end in the first second.
abbrev second : ℕ → Wlan ℕ → Wlan ℕ
second ms w = elim (wlan_start_task radio network w) [ none ↦ w | some w' ↦ w' ]

-- The state of the second UART is the list of what was put.
abbrev second_uart : Uart (List ℕ)
second_uart = record {
  config_baudrate = λ rate u. u;
  enable = λ u. u;
  char_put = λ b u. b ∷ u;
  task_create = λ u. (pos 0, u);
}

abbrev startup : Startup (List ℕ)
startup = record {
  queue_status = pos 0;
  handling_status = pos 0;
  listening_status = pos 0;
  connection_slots = replicate 2 0;
  packet_slots = replicate 10 0;
  created = [];
}

abbrev saved : Flash
saved = record { file = some (packed.to_bytes network); written = [] }

abbrev parts : Parts (List ℕ) (List (List ℕ)) ℕ Flash (List ℕ) ℕ
parts = record {
  wlan = switched_on;
  wired = record { state = recv_header; cfg_packet = blank; dma = none; tasks = 0 };
  files = saved;
  bridge = [];
  resolver = record {
    cfg = record { key = none; port = 0 };
    listen_sock = negsuc 0;
    running = false;
  };
  server = server;
}

saved_chosen : choose_config flash packed saved ≡ some (network, saved)
unfolding choose_config wlan_load_config
saved_chosen = refl

second_connected :
    (second 1000 (wlan_start radio network (wlan_init radio switched_on).1).1).wl_status ≡ connected
unfolding wlan_start_task wlan_start wlan_init configure_sta connecting_loop
second_connected = refl

initialization_task-ends_example :
    (p' : Parts (List ℕ) (List (List ℕ)) ℕ Flash (List ℕ) ℕ) × (initialization_task silent radio
        flash packed second_uart second 2
        (pos 0)
        (some 77)
        startup
        parts
      ≡ some p')
    × (p'.files ≡ saved)
    × (Started silent radio flash packed second_uart startup (pos 0) parts p'
        ⊎ GivenUp silent radio flash packed second_uart startup parts p')
initialization_task-ends_example =
    initialization_task-ends silent radio flash packed second_uart startup second 2 (pos 0) 77 parts
      network saved refl saved_chosen refl (1, omega arith, λ e. let c = second_connected in cc)

-- The start task runs in the first second.
second-Runs :
    Runs second radio network 0 (wlan_start radio network (wlan_init radio switched_on).1).1
unfolding wlan_start_task wlan_start wlan_init configure_sta connecting_loop
second-Runs = record { waits = λ j h. absurd (omega arith); runs = refl }

initialization_task-Boots_example :
    (p' : Parts (List ℕ) (List (List ℕ)) ℕ Flash (List ℕ) ℕ) × (initialization_task silent radio
        flash packed second_uart second 2
        (pos 0)
        (some 77)
        startup
        parts
      ≡ some p')
    × (p'.files ≡ saved)
    × Boots silent radio flash packed second_uart startup
        (pos 0)
        network
        (wlan_start radio network (wlan_init radio switched_on).1).1
        parts
        p'
initialization_task-Boots_example =
    initialization_task-Boots silent radio flash packed second_uart startup second 0 2 (pos 0) 77
      parts network saved refl saved_chosen network-Fits refl second-Runs (omega arith)
