-- ===== src/Service/Server/Clients.antt =====
-- server.rs: whom the service serves, and how many at once.
use bitsafe.Prelude.{
  ℕ, suc, ◌≤◌, ◌≡◌, refl, Option, none, some, List, [], ◌∷◌, ◌++◌, arith, length, All, ap,
}
use bitsafe.Service.Server.{
  max_connections, PeerCred, Client, decide_connection, accept_connection, Step, accepted,
  accept_failed, finished, Serves, started, next, admit, same_user, spawn,
}

abbrev pub IsServable : ℕ → List Client → Type 0
IsServable my_uid clients =
    (length clients ≤ max_connections) × All (λ client. client.uid ≡ my_uid) clients

accepted-IsServable :
    (my_uid : ℕ) (cred : Option PeerCred) (clients : List Client)
    → IsServable my_uid clients
    → IsServable my_uid (accept_connection my_uid clients cred)
unfolding accept_connection decide_connection same_user admit spawn
accepted-IsServable my_uid none clients h = h
accepted-IsServable my_uid (some cred) clients h = ground arith

length-append-drop :
    (before : List Client) (client : Client) (after : List Client)
    → length (before ++ client ∷ after) ≡ suc (length (before ++ after))
length-append-drop [] client after = refl
length-append-drop (b ∷ before) client after =
    ap (λ n. suc n) (length-append-drop before client after)

All-append-drop :
    (P : Client → Type 0) (before : List Client) (client : Client) (after : List Client)
    → All P (before ++ client ∷ after)
    → All P (before ++ after)
All-append-drop P [] client after h = h.1
All-append-drop P (b ∷ before) client after h = (h.0, All-append-drop P before client after h.1)

fewer :
    (before : List Client) (client : Client) (after : List Client)
    → length (before ++ client ∷ after) ≤ max_connections
    → length (before ++ after) ≤ max_connections
fewer before client after h = let e = length-append-drop before client after in omega arith

Step-IsServable :
    (my_uid : ℕ) (clients clients' : List Client)
    → Step my_uid clients clients'
    → IsServable my_uid clients
    → IsServable my_uid clients'
Step-IsServable my_uid _ _ (accepted cred clients) h = accepted-IsServable my_uid cred clients h
Step-IsServable my_uid _ _ (accept_failed clients) h = h
Step-IsServable my_uid _ _ (finished before client after) h =
    (fewer before client after h.0, All-append-drop _ before client after h.1)

-- Whatever connections arrive, fail and end, and in whatever order, the service serves at most
-- `MAX_CONNECTIONS` clients at once, each of its own user.
pub Serves-IsServable :
    (my_uid : ℕ) (clients : List Client) → Serves my_uid clients → IsServable my_uid clients
Serves-IsServable my_uid _ started = (ground arith, tt)
Serves-IsServable my_uid clients' (next {clients = clients} before step) =
    Step-IsServable my_uid clients clients' step (Serves-IsServable my_uid clients before)
