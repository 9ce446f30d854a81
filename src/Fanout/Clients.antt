-- ===== src/Fanout/Clients.antt =====
-- target/fanout/clients.go: the registry of the connected clients. A `sendCh` is the number of the
-- channel, `made` counts those made so far and `closed` lists those closed. The clock is an argument,
-- and the lock makes each method one step. A `maxClients` of zero or less is 0.
pub mod Capacity
use laredo.Common.{
  ℕ, suc, String, Bool, true, false, ◌&&◌, Option, none, some, List, [], ◌∷◌, ◌++◌, if◌then◌else◌,
  ltb, leb, length, Assoc, get, put, delete, comparable_string,
}

-- `clientState`
pub record ClientState : Type 0 where
  pub id : String
  pub current_sequence : ℕ
  pub connected_at : ℕ
  pub state : String
  pub buffer_depth : ℕ
  pub send_ch : ℕ

-- `ClientInfo`
pub record ClientInfo : Type 0 where
  pub id : String
  pub current_sequence : ℕ
  pub connected_at : ℕ
  pub state : String
  pub buffer_depth : ℕ

-- `clientRegistry`
pub record ClientRegistry : Type 0 where
  pub clients : Assoc String ClientState
  pub max_clients : ℕ
  pub made : ℕ
  pub closed : List ℕ

-- `newClientRegistry`
unfoldable pub new_client_registry : ℕ → ClientRegistry
new_client_registry max_clients = record {
  clients = [];
  max_clients = max_clients;
  made = 0;
  closed = [];
}

abbrev pub new_client : ClientRegistry → ℕ → String → ClientState
new_client r now client_id = record {
  id = client_id;
  current_sequence = 0;
  connected_at = now;
  state = "catching_up";
  buffer_depth = 0;
  send_ch = r.made;
}

-- `register`
unfoldable pub register : ClientRegistry → ℕ → String → ClientRegistry × Bool
register r now client_id =
    if ltb 0 r.max_clients && leb r.max_clients (length r.clients) then (r, false) else (
      record r {
        clients = put r.clients client_id (new_client r now client_id);
        made = suc r.made;
      },
      true,
    )

-- `unregister`
unfoldable pub unregister : ClientRegistry → String → ClientRegistry
unregister r client_id = elim (get r.clients client_id) [
  | none ↦ r
  | some cs ↦ record r {
    clients = delete r.clients client_id;
    closed = r.closed ++ (cs.send_ch ∷ []);
  }
]

-- the assignment that the next three methods make to the state of a client that is registered
abbrev pub modify : ClientRegistry → String → (ClientState → ClientState) → ClientRegistry
modify r client_id change = elim (get r.clients client_id) [
  | none ↦ r
  | some cs ↦ record r { clients = put r.clients client_id (change cs) }
]

-- `updateSequence`
unfoldable pub update_sequence : ClientRegistry → String → ℕ → ClientRegistry
update_sequence r client_id seq = modify r client_id (λ cs. record cs { current_sequence = seq })

-- `setState`
unfoldable pub set_state : ClientRegistry → String → String → ClientRegistry
set_state r client_id state = modify r client_id (λ cs. record cs { state = state })

-- `setBufferDepth`
unfoldable pub set_buffer_depth : ClientRegistry → String → ℕ → ClientRegistry
set_buffer_depth r client_id depth = modify r client_id (λ cs. record cs { buffer_depth = depth })

-- `count`
unfoldable pub count : ClientRegistry → ℕ
count r = length r.clients

abbrev pub info : ClientState → ClientInfo
info cs = record {
  id = cs.id;
  current_sequence = cs.current_sequence;
  connected_at = cs.connected_at;
  state = cs.state;
  buffer_depth = cs.buffer_depth;
}

infos : Assoc String ClientState → List ClientInfo
infos [] = []
infos ((client_id, cs) ∷ rest) = info cs ∷ infos rest

-- `list`
unfoldable pub list : ClientRegistry → List ClientInfo
unfolding infos
list r = infos r.clients

-- `get`
unfoldable pub get_client : ClientRegistry → String → Option ClientInfo
get_client r client_id = elim (get r.clients client_id) [ none ↦ none | some cs ↦ some (info cs) ]

channels : Assoc String ClientState → List ℕ
channels [] = []
channels ((client_id, cs) ∷ rest) = cs.send_ch ∷ channels rest

-- `disconnectAll`
unfoldable pub disconnect_all : ClientRegistry → ClientRegistry
unfolding channels
disconnect_all r = record r { clients = []; closed = r.closed ++ channels r.clients }
