-- ===== src/Handling/Session.antt =====
-- Two rounds of the handling task in a row: the info of the microcontroller, then a program.
use bigblackhardware.Base.{ℕ, ◌+◌, ◌≡◌, ap, sym, ◌∙◌, true, Option, none, some, List, ℤ}
use bigblackhardware.Pool.Refines.{Store, view, take_item}
use bigblackhardware.PacketManager.{Os}
use bigblackhardware.Programmer.{Device}
use bigblackhardware.Transport.{Net}
use bigblackhardware.Handling.{Sockets, Server, get_read_fd}
use bigblackhardware.Handling.Room.{behind_next}
use bigblackhardware.Handling.Serve.{Served, went_on, rebooted, fd_isset, positive}
use bigblackhardware.Handling.Queues.{QueueLaws}
use bigblackhardware.Handling.Programs.{Programs}

server_of : {Q D S : Type 0} → Server Q D S → Option (Served Q D S) → Server Q D S
server_of srv (some (went_on ended fds srv')) = srv'
server_of srv (some (rebooted b)) = srv
server_of srv none = srv

-- A round ends in one way only.
pub same_server :
    {Q D S : Type 0} (o : Option (Served Q D S)) (e e' : ℤ) (fds fds' : List ℕ)
    (srv srv' : Server Q D S)
    → o ≡ some (went_on e fds srv)
    → o ≡ some (went_on e' fds' srv')
    → srv ≡ srv'
unfolding server_of
same_server o e e' fds fds' srv srv' one other = ap (server_of srv) (sym one ∙ other)

module _ {Q D S : Type 0} (os : Os Q) (dev : Device D) (net : Net S) (host : Sockets S) (tries : ℕ)
    (laws : QueueLaws os) where
  -- The packet that a stack gives next.
  abbrev pub gives : Store → Option ℕ
  gives st = (take_item (os.packet_address st.made) st).0

  -- The stack of packets behind an answered request: the request's packet and the answer's are gone.
  abbrev pub behind_answer : Server Q D S → Store
  behind_answer srv = behind_next os (behind_next os (view srv.board.packets.pool))

  -- Select reports the handles of `ready`, the one of the connection among them.
  pub record Reports (hndl : ℕ) (ready : List ℕ) (srv : Server Q D S) (status : ℤ) (s0 : S)
      : Type 0 where
    pub some_ready : positive status ≡ true
    pub isset : fd_isset hndl ready ≡ true
    pub selected :
        let (max_fd, fds) = get_read_fd srv.conns srv.conn_info in
        host.select (max_fd + 1) fds srv.sockets ≡ (status, ready, s0)
