-- ===== src/UdpResolver/Task.antt =====
-- udp_resolver.c: the start, the task from its socket to its end, and the stop.
use bigblackhardware.Base.{
  ℕ, ◌-◌, ◌%◌, Bool, true, false, Option, none, some, List, [], ◌∷◌, ◌++◌, leb, if◌then◌else◌,
  ◌>>=◌, ℤ, pos, negsuc, negative, length,
}
use bigblackhardware.UdpResolver.{Datagram, Answer, key_size, resolver_loop}

-- The key is `none` for NULL.
pub record UdpResolverCfg : Type 0 where
  pub key : Option (List ℕ)
  pub port : ℕ

-- `running` says whether the task exists.
pub record Resolver : Type 0 where
  pub cfg : UdpResolverCfg
  pub listen_sock : ℤ
  pub running : Bool

-- strcpy of a string, given without its terminator, into KEY_SIZE + 1 bytes. `created` is the
-- status of osi_TaskCreate. It is returned as a _u8; on success nothing is returned.
unfoldable pub udp_resolver_start :
    (created : ℤ) (key : List ℕ) (port : ℕ) → Resolver → Option (Option ℕ × Resolver)
udp_resolver_start created key port r =
    let copied = record r { cfg = record { key = some (key ++ (0 ∷ [])); port = port } } in
    if leb (length key) key_size
    then some (elim created [
      | pos n ↦ (none, record copied { running = true })
      | negsuc n ↦ (some (255 - n % 256), copied)
    ])
    else none

-- `sock` and `bound` are what socket and bind return, and the datagrams are those that arrive
-- until a call fails. The handle stays in listen_sock when the socket is closed.
unfoldable pub udp_resolver_task :
    {A : Type 0} (sock bound : ℤ) (buffer : List ℕ)
    → List (Datagram A)
    → Resolver
    → Option (List (Answer A) × Resolver)
udp_resolver_task sock bound buffer ds r =
    let opened = record r { listen_sock = sock } in
    let ended = record opened { running = false } in
    let serve = (do
      key ← r.cfg.key
      (status, answers) ← resolver_loop key buffer ds
      some (answers, (if negative status then ended else opened))) in
    if negative sock then some ([], ended) else if negative bound then some ([], ended) else serve

-- Freeing the key leaves the pointer as it is; the model keeps no freed memory.
unfoldable pub udp_resolver_stop : Resolver → Resolver
udp_resolver_stop r =
    if negative r.listen_sock
    then r
    else record r { running = false; cfg = record (r.cfg) { key = none } }
