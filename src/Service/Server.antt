-- ===== src/Service/Server.antt =====
-- crates/grimoire-service/src/server.rs: the accept loop of `run` as a step relation. What the system
-- says of a connection, its user and its process, is a parameter of a step; the permits of the
-- semaphore are the clients that are being served. Binding the sockets, the workers that `run` starts
-- and the files it removes are left out.
pub mod Clients
use bitsafe.Prelude.{
  ℕ, ◌%◌, ◌^◌, ◌≡◌, Bool, true, false, not, Option, none, some, List, [], ◌∷◌, ◌++◌, ltb, length,
  ◌==◌, if◌then◌else◌,
}
use mathlib.Core.Option.{map}

abbrev pub max_connections : ℕ
max_connections = 64

-- `peer_cred`; the process as the system's signed 32 bits, written as the number they are modulo 2^32.
pub record PeerCred : Type 0 where
  pub uid : ℕ
  pub pid : Option ℕ

-- A connection that is being served, by a task that holds a permit.
pub record Client : Type 0 where
  pub uid : ℕ
  pub peer_pid : Option ℕ

-- What the loop does with a connection: the arms that end in `continue`, and the task it spawns.
pub data Decision : Type 0 where
  no_credentials other_user limit_reached : Decision
  served : Client → Decision

as_u32 : ℕ → ℕ
as_u32 p = p % 2 ^ 32

-- `try_acquire_owned`
admit : List Client → Client → Decision
admit clients client = if ltb (length clients) max_connections then served client else limit_reached

same_user : ℕ → List Client → PeerCred → Decision
unfolding admit as_u32
same_user my_uid clients cred =
    if not (cred.uid == my_uid)
    then other_user
    else admit clients (record { uid = cred.uid; peer_pid = map as_u32 cred.pid })

-- `none` is a connection whose credentials cannot be read.
pub decide_connection : ℕ → List Client → Option PeerCred → Decision
unfolding same_user
decide_connection my_uid clients none = no_credentials
decide_connection my_uid clients (some cred) = same_user my_uid clients cred

spawn : List Client → Decision → List Client
spawn clients (served client) = client ∷ clients
spawn clients _ = clients

unfoldable pub accept_connection : ℕ → List Client → Option PeerCred → List Client
unfolding decide_connection spawn
accept_connection my_uid clients cred = spawn clients (decide_connection my_uid clients cred)

-- One thing that happens while the loop runs: a connection is accepted, `accept` fails, or a task ends
-- and drops its permit.
pub data Step (my_uid : ℕ) : List Client → List Client → Type 0 where
  accepted :
      (cred : Option PeerCred) (clients : List Client)
      → Step my_uid clients (accept_connection my_uid clients cred)
  accept_failed : (clients : List Client) → Step my_uid clients clients
  finished :
      (before : List Client) (client : Client) (after : List Client)
      → Step my_uid (before ++ client ∷ after) (before ++ after)

pub data Serves (my_uid : ℕ) : List Client → Type 0 where
  started : Serves my_uid []
  next :
      {clients clients' : List Client}
      → Serves my_uid clients
      → Step my_uid clients clients'
      → Serves my_uid clients'
