-- ===== src/Handling/ClosingRound.antt =====
-- A round in which the control connection is closed, and the connection that follows it.
use bigblackhardware.Base.{ℕ, ◌≡◌, Option, none, some, List, [], ◌∷◌}
use bigblackhardware.Protocol.{control_group}
use bigblackhardware.PacketManager.{Os}
use bigblackhardware.Programmer.{Device}
use bigblackhardware.Transport.{Net}
use bigblackhardware.Handling.{Connections, put_connection, Sockets, Server}
use bigblackhardware.Handling.Queues.{QueueLaws}

-- A connection that joins the control group.
abbrev joined : {Q : Type 0} → ℕ → Connections Q → Connections Q
joined c conns = put_connection c (record (conns c) { group = control_group }) conns

module _ {Q D S : Type 0} (os : Os Q) (dev : Device D) (net : Net S) (host : Sockets S) (tries : ℕ)
    (laws : QueueLaws os) where
  -- The connection that waits first.
  abbrev pub waiting : List ℕ → Option ℕ
  waiting [] = none
  waiting (c ∷ cs) = some c

  -- The entry goes to the connection that waits, which joins the control group.
  pub record Follows (next : Option ℕ) (srv : Server Q D S) : Type 0 where
    pub entries : srv.conn_info ≡ next ∷ none ∷ none ∷ []
    pub group : (c : ℕ) → next ≡ some c → (srv.conns c).group ≡ control_group
