-- ===== src/Server/Replies.antt =====
-- The streams of server/grpc.go.
use borg_collective.Base.{
  ◌/◌, none, some, List, [], ◌∷◌, ◌++◌, Bytes, map, ◌≡◌, refl, arith, ◌⊎◌, inl, inr, sym,
  Option-cases,
}
use mathlib.Core.List.{append_assoc, append-nil}
use borg_collective.Base.Exec.{Outcome, ok, err}
use borg_collective.Vault.Env.{Env, Backend, Error, Item, Uuid, external}
use borg_collective.Vault.State.{World}
use borg_collective.Service.Requests.{ItemSearch, ItemDeletion, ItemMessage}
use borg_collective.Service.Methods.{list_vault_items, delete_vault_items}
use borg_collective.Server.Grpc.{
  Status, internal, Stream, item_message, id_message, send_all, list_vault_items_rpc,
  delete_vault_items_rpc,
}

-- A stream whose client can tell what it has received: a message that is sent without an error, and
-- no other.
pub record IsStream ⦃S : Stream⦄ (received : S.State → List ItemMessage) : Type 0 where
  pub sends :
      (message : ItemMessage) (s : S.State)
      → (S.send message s).0 ≡ none
      → received (S.send message s).1 ≡ received s ++ message ∷ []
  pub fails :
      (message : ItemMessage) (s : S.State) (e : Bytes)
      → (S.send message s).0 ≡ some e
      → received (S.send message s).1 ≡ received s

-- The messages arrive in their order, up to an error.
abbrev pub Arrive :
    List ItemMessage → List ItemMessage → Outcome Status Unit → List ItemMessage → Type 0
Arrive before messages r after =
    ((r ≡ ok tt) × (after ≡ before ++ messages))
    ⊎ ((e : Error) × (first : List ItemMessage) × (rest : List ItemMessage) × (r ≡ err (internal e))
        × (messages ≡ first ++ rest)
        × (after ≡ before ++ first))

-- What a client is to learn of an item, and of an id that was deleted.
abbrev pub described : ⦃E : Env⦄ → Item → ItemMessage
described ⦃E⦄ item = record {
  id = E.uuid_string item.id;
  description = item.description;
  checksum = item.checksum;
  created_at = item.modified_at / 1_000_000;
}

abbrev pub deleted : ⦃E : Env⦄ → Uuid → ItemMessage
deleted ⦃E⦄ id = record { id = E.uuid_string id; description = []; checksum = []; created_at = 0 }

module _ ⦃E : Env⦄ ⦃B : Backend⦄ ⦃S : Stream⦄ (received : S.State → List ItemMessage)
    (is_stream : IsStream received) where
  send_all-Arrive :
      (messages : List ItemMessage) (s : S.State)
      → Arrive (received s) messages (send_all messages s).0 (received (send_all messages s).1)
  unfolding send_all
  send_all-Arrive [] s = inl (refl, sym (append-nil (received s)))
  send_all-Arrive (message ∷ messages) s =
      let after = (S.send message s).1 in
      elim (Option-cases (S.send message s).0) [
        | inl e ↦
            let grown = is_stream.sends message s e in
            elim (send_all-Arrive messages after) [
              | inl (done, all) ↦ inl (
                ground (arith, e, done),
                ground (arith, e, all, grown, append_assoc (received s) (message ∷ []) messages),
              )
              | inr (x, first, rest, failed, split, some_arrive) ↦ inr (
                x,
                message ∷ first,
                rest,
                ground (arith, e, failed),
                ground (arith, split),
                ground
                    (arith, e, some_arrive, grown, append_assoc (received s) (message ∷ []) first),
              )
            ]
        | inr (problem, e) ↦ inr (
          external problem,
          [],
          message ∷ messages,
          ground (arith, e),
          refl,
          ground (arith, e, is_stream.fails message s problem e, append-nil (received s)),
        )
      ]

  -- Let a stream have received what was sent without an error and nothing else. Where listing answers
  -- with items, and deleting with ids, their handlers leave the vault as the methods of the service
  -- do, and send, in their order, the items with their ids, descriptions, checksums and times in
  -- milliseconds, or the ids that were deleted with nothing else: all of them if they succeed,
  -- and else, with the error `Internal`, a first part of them.
  pub streams-Arrive :
      (search : ItemSearch) (deletion : ItemDeletion) (w : World) (s : S.State) (items : List Item)
      (ids : List Uuid)
      → (list_vault_items search w).0 ≡ ok items
      → (delete_vault_items deletion w).0 ≡ ok ids
      → ((list_vault_items_rpc search (w, s)).1.0 ≡ (list_vault_items search w).1)
        × Arrive
            (received s)
            (map described items)
            (list_vault_items_rpc search (w, s)).0
            (received (list_vault_items_rpc search (w, s)).1.1)
        × ((delete_vault_items_rpc deletion (w, s)).1.0 ≡ (delete_vault_items deletion w).1)
        × Arrive
            (received s)
            (map deleted ids)
            (delete_vault_items_rpc deletion (w, s)).0
            (received (delete_vault_items_rpc deletion (w, s)).1.1)
  unfolding list_vault_items_rpc delete_vault_items_rpc item_message id_message
  streams-Arrive search deletion w s items ids h h' =
      let listed = send_all (map described items) s in
      let gone = send_all (map deleted ids) s in
      let same : list_vault_items_rpc search (w, s)
          ≡ (listed.0, ((list_vault_items search w).1, listed.1)) =
        ground (arith, h) in
      let same' : delete_vault_items_rpc deletion (w, s)
          ≡ (gone.0, ((delete_vault_items deletion w).1, gone.1)) =
        ground (arith, h') in
      rw (same, same')
        (refl, send_all-Arrive (map described items) s, refl, send_all-Arrive (map deleted ids) s)
