-- ===== src/Lib.antt =====
-- The verification library of the BigBlack programmer's firmware: a device that takes packets from
-- a host over the network and programs AVR microcontrollers.
--
-- The program's parts and their files:
--   Protocol   protocol.h, packets.h and the mappings of packets.c: the wire format's constants, the
--              packet types and their groups (get_control_packet_type and its siblings)
--   Packet     packets.c: parse_header, update_header, create_packet. Packet.Wire describes a frame
--              field by field, Packet.Parse and Packet.Frame hold the theorems
--   Pool       pool.c: pool_create, pool_get, pool_release, pool_delete. Pool.Refines relates a pool
--              to a stack of idle objects, Pool.Owners has histories of gets and releases
--   Parser     programmer_parser.c, create_memory_cmd: from a pattern to a command of four bytes.
--              Parser.Pattern has the tokens of a pattern and the bits they stand for
--   Payload    programmer_parser.c, the payloads of the programmer packets: get_prog_mem_data,
--              get_read_mem_data, get_mcu_info, and check_cmd_status
--   Programmer programmer.c: programmer_enable_pgm_mode, programmer_program_memory and, in
--              Programmer.Read, programmer_read_memory. Programmer.Script, Programmer.ReadScript
--              and Programmer.Readout relate them to lists of commands, Programmer.Enable and
--              Programmer.Echo to the answers
--   PacketManager
--              packet_manager.c: create_send_packet, send_ack and its siblings over the pool, the heap
--              of packets and a queue. PacketManager.Send has the theorems
--   Controller controller.c: process_packet, the table of handlers and the handlers, over a board of
--              packets, a device and the MCU info. Controller.Handlers has the handlers that program,
--              Controller.Reply the one that reads
--   Transport  packet_handler.c: recv_nbytes, send_nbytes, recv_packet and send_packet (send_frame)
--              over sockets. Transport.Chunks follows the chunks that a socket delivers,
--              Transport.Receive a whole packet
--   Handling   packet_handler.c: the connections (get_read_fd, close_conn). Handling.Serve has the
--              rounds of vHandlingTask, Handling.Listen packet_handler_start and the rounds of
--              vListeningTask. Handling.ReadSet, Handling.Room, Handling.Queues, Handling.Sending,
--              Handling.Rounds and Handling.Histories have the set for select, the queue of a
--              connection, the sending loop, and the histories of both tasks with what stays true in
--              them. Handling.Answers, Handling.Frames, Handling.Requests and Handling.Replies
--              follow a frame from the socket through its handler to the queued answer, Handling.OneRound a
--              round of the task, for the frames of Handling.Programs, Handling.Loads and
--              Handling.Reads; Handling.Closes and Handling.ClosingRound are about the frame that
--              closes its connection, Handling.Session and Handling.Runs about rounds in a row
--   Wlan       wlan_config.c: wlan_start, wlan_stop, their tasks, configure_ap, configure_sta, and in
--              Wlan.Storage wlan_save_config and wlan_load_config. Wlan.Joins has how a start ends,
--              Wlan.Tasks the histories of starts and stops, Wlan.Saved the file
--   Wired      wired_configurator.c: uart_irq_hdnl, get_wlan_config_from_packet, and in Wired.Updater
--              updater_task. Wired.Interrupts has the states that follow each other, Wired.Network
--              the layout of the configuration
--   UdpResolver
--              udp_resolver.c: the loop of udp_resolver_task, check_for_resolve, cmp_keys, get_port,
--              and in UdpResolver.Task the start, the whole task and the stop.
--              UdpResolver.Answers has which datagrams are answered
--   Bridge     bridge.c: bridge_start, bridge_write and the rounds of bridge_task. Bridge.Puts has
--              what they put on the UART
--   Main       main.c: get_default_config and vInitializationTask (initialization_task). Main.Config
--              has the way of a configuration from a packet to the next start, Main.Start the end of
--              the task, Main.Boot its course beside the task that starts the network
--   Base       lists, bits, machine words and results that the parts share
-- The host sends frames, which Packet takes apart; their payloads go to Payload, and its patterns go
-- to Parser, whose commands the programmer sends to the microcontroller. Packets come from a Pool.
-- Handling receives a packet with Transport and has it processed by Controller, which queues answers
-- with PacketManager; Handling sends what is in the connection's queue. Main starts the rest: it loads what Wired has saved with Wlan.
--
-- Conventions. Bytes and words are natural numbers with the wrap-around of their width written out.
-- Statuses are integers, 0 or negative as in the code. A result `none` is a run without defined
-- behaviour: an access out of bounds, or a pointer that is not valid. The allocator is taken to
-- succeed. Log output is left out.
--
-- Four things that the language does not define are parameters, and the theorems say what they ask
-- of them: whether the six writes of get_mcu_info behind the ends of its blocks leave alone what the
-- program uses (`tolerates`; the run has no result otherwise); the byte that a variable on the stack
-- holds (`stack_byte`); the byte that the initialization task finds where udp_resolver_start ends
-- without a return statement (`left`); and the queue that a handler gets. packet_handler.c passes
-- info->out_queue, the value of a queue's handle, where process_packet takes the address of a queue,
-- which compiles where OsiMsgQ_t is a pointer. The queue functions then work on the memory that the
-- handle leads to, which is the connection's `handed_queue`. The sending loop reads &info->out_queue,
-- and what becomes of that queue when the memory behind its handle is written is `spills`. The rest
-- of the state is taken to be out of reach of such a write.
--
-- Loops are structural, over the count that the code gives. The loop of create_memory_cmd may
-- consume several characters in a round: it has one round for each character, which is enough since
-- every round moves on, as the theorem on its result shows by giving the result itself.
--
-- The loops of the programmer get one round more than there are bytes; the model has no result where
-- that does not suffice, and the theorems on them give the result.
--
-- Receiving and sending repeat while the socket is busy, for which there is no bound: they run on a
-- number of rounds, and the theorems say how many are enough for what the socket delivers.
--
-- The sending loop of the handling task runs on a number of rounds too: one more than the queue is
-- long is enough, since each round takes a packet from the queue. Waiting for the network is bounded
-- by ten polls in the code. The initialization task waits without a bound: its rounds are enough once
-- a poll within them finds the status changed.
--
-- Tasks are steps: a start or stop of the network runs to its end in one step, and the listening and
-- the handling task do one round in one step; their histories are sequences of such steps in any
-- order. A parameter stands for what the vendor's library and the operating system do: sockets,
-- select, the file system, locks, the creation of tasks, queues, SPI, the second UART.
--
-- Not modelled: of main.c, main and BoardInit, which call drivers only, and the hooks of the
-- operating system; of sys.c the queue functions and sys_restart, one call of the operating system
-- each; misc.c, whose function is not called; the drivers and the vendor's libraries; the pin set-
-- up, which the vendor's tool generated; print_packet, wlan_print_config and the other log output;
-- the build files.
pub mod Base
pub mod Bridge
pub mod Controller
pub mod Handling
pub mod Main
pub mod Packet
pub mod PacketManager
pub mod Parser
pub mod Payload
pub mod Pool
pub mod Programmer
pub mod Protocol
pub mod Transport
pub mod UdpResolver
pub mod Wired
pub mod Wlan
