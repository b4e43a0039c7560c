-- ===== src/Tests/ServerExamples.antt =====
-- The handlers and the listener at concrete inputs: a client that is gone after its first message, and
-- a network with a connection of the host itself and one of another host.
use borg_collective.Base.{
  ℕ, ◌≡◌, refl, Option, none, some, arith, List, [], ◌∷◌, ◌++◌, ◌+◌, Bytes, codes, eqb, map,
}
use borg_collective.Base.Exec.{ok}
use borg_collective.Vault.Env.{Item}
use borg_collective.Service.Requests.{ItemSearch, ItemDeletion, ItemMessage}
use borg_collective.Service.Methods.{
  list_vault_items, delete_vault_items, delete_each, verify_admin,
}
use borg_collective.Server.Grpc.{Stream, list_vault_items_rpc, delete_vault_items_rpc}
use borg_collective.Server.Replies.{IsStream, Arrive, streams-Arrive, described, deleted}
use borg_collective.Server.Listener.{Network, has_addr, is_local_host, accept_remote}
use borg_collective.Server.Listening.{IsRemote, accept_remote-IsRemote}
use borg_collective.Vault.Memory.{in_memory}
use borg_collective.Tests.Toy.{toy}
use borg_collective.Tests.Worlds.{passphrase, with_item, item_id}

instance abbrev short : Stream
short = record { State = List ItemMessage; send = send_one }
  where
    send_one : ItemMessage → List ItemMessage → Option Bytes × List ItemMessage
    send_one message [] = (none, message ∷ [])
    send_one message (first ∷ rest) = (some (codes "transport is closing"), first ∷ rest)

abbrev received : List ItemMessage → List ItemMessage
received s = s

short-IsStream : IsStream ⦃S = short⦄ received
short-IsStream = record { sends = sends_one; fails = fails_one }
  where
    sends_one :
        (message : ItemMessage) (s : List ItemMessage)
        → (short.send message s).0 ≡ none
        → (short.send message s).1 ≡ s ++ message ∷ []
    sends_one message [] h = refl
    sends_one message (first ∷ rest) h = absurd (ground (arith, h))

    fails_one :
        (message : ItemMessage) (s : List ItemMessage) (e : Bytes)
        → (short.send message s).0 ≡ some e
        → (short.send message s).1 ≡ s
    fails_one message [] e h = absurd (ground (arith, h))
    fails_one message (first ∷ rest) e h = refl

abbrev search : ItemSearch
search = record { credentials = some passphrase; query = [] }

abbrev deletion : ItemDeletion
deletion = record { credentials = some passphrase; ids = toy.uuid_string item_id ∷ [] }

abbrev found : List Item
found = elim (list_vault_items search with_item).0 [ ok items ↦ items | _ ↦ [] ]

streams-Arrive_example :
    ((list_vault_items_rpc search (with_item, [])).1.0 ≡ (list_vault_items search with_item).1)
    × Arrive []
        (map described found)
        (list_vault_items_rpc search (with_item, [])).0
        (list_vault_items_rpc search (with_item, [])).1.1
    × ((delete_vault_items_rpc deletion (with_item, [])).1.0
        ≡ (delete_vault_items deletion with_item).1)
    × Arrive []
        (map deleted (item_id ∷ []))
        (delete_vault_items_rpc deletion (with_item, [])).0
        (delete_vault_items_rpc deletion (with_item, [])).1.1
unfolding with_item list_vault_items delete_vault_items delete_each verify_admin
streams-Arrive_example =
    streams-Arrive received short-IsStream search deletion with_item [] found (item_id ∷ []) refl
      refl

-- An address is a number: 127 is a loopback address, and 10 that of the one interface.
instance abbrev lan : Network
lan = record {
  State = ℕ;
  Conn = ℕ;
  Ip = ℕ;
  accept = λ s. (ok (s + 10), s + 1);
  close = λ c s. s;
  remote_ip = λ c. c;
  local_ip = λ c. 10;
  is_loopback = λ ip. eqb ip 127;
  is_equal = λ ip other. eqb ip other;
  interface_addrs = λ s. ok (none ∷ some 10 ∷ []);
}

accept_remote-IsRemote_example :
    (before : ℕ) × (lan.accept before ≡ (ok 11, (accept_remote 2 0).1))
    × IsRemote 11 (accept_remote 2 0).1
unfolding accept_remote is_local_host has_addr
accept_remote-IsRemote_example = accept_remote-IsRemote 2 0 11 refl
