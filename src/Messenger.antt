-- ===== src/Messenger.antt =====
-- `ZincMessengerBridge` of inc/loader/ZincMessengerBridge.h and src/loader/ZincMessengerBridge.cpp: for
-- each registered target a mailbox for each sender, in which messages wait until they are read. Ids and
-- messages are texts of bytes.
pub mod Spec
pub mod Delivery
use zinc.Common.{
  ℕ, zero, suc, Bool, true, false, not, Option, none, some, List, [], ◌∷◌, ◌++◌, if◌then◌else◌,
  ◌==◌, length,
}
use zinc.Common.Maps.{Key, text_key, find, contains, put, erase, keys}

abbrev pub Bytes : Type 0
Bytes = List ℕ

-- The messages that wait for one target, by sender.
abbrev pub Mailboxes : Type 0
Mailboxes = List (Bytes × List Bytes)

pub record ZincMessengerBridge : Type 0 where
  pub targets : List (Bytes × Mailboxes)
  pub server_messenger_id : Bytes

-- `randomBytes(32)` is the argument; the id that is passed on to the server messenger is returned.
unfoldable pub init : Bytes → ZincMessengerBridge → ZincMessengerBridge × Bytes
init random b =
    let id = (if length b.server_messenger_id == 0 then random else b.server_messenger_id) in
    (record b { server_messenger_id = id }, id)

unfoldable pub is_registered : Bytes → ZincMessengerBridge → Bool
is_registered id b = contains id b.targets

-- `m_targets[recvId]`, where the target is there.
abbrev pub mailboxes : Bytes → ZincMessengerBridge → Mailboxes
mailboxes recv_id b = elim (find recv_id b.targets) [ none ↦ [] | some boxes ↦ boxes ]

-- `push_back` to the sender's mailbox, or a new mailbox.
unfoldable pub add_message : Bytes → Bytes → Mailboxes → Mailboxes
add_message sender_id message boxes = elim (find sender_id boxes) [
  | none ↦ put sender_id (message ∷ []) boxes
  | some messages ↦ put sender_id (messages ++ (message ∷ [])) boxes
]

unfoldable pub send : Bytes → Bytes → Bytes → ZincMessengerBridge → ZincMessengerBridge
send recv_id sender_id message b =
    if is_registered recv_id b
    then record b {
      targets = put recv_id (add_message sender_id message (mailboxes recv_id b)) b.targets;
    }
    else b

unfoldable pub sender_amount : Bytes → ZincMessengerBridge → ℕ
sender_amount recv_id b = if is_registered recv_id b then length (mailboxes recv_id b) else 0

unfoldable pub can_read : Bytes → Bytes → ZincMessengerBridge → Bool
can_read recv_id sender_id b =
    if not (sender_amount recv_id b == 0) then contains sender_id (mailboxes recv_id b) else false

unfoldable pub get_senders : Bytes → ZincMessengerBridge → List Bytes
get_senders recv_id b =
    if not (sender_amount recv_id b == 0) then keys (mailboxes recv_id b) else []

-- The messages of a mailbox, which stays behind empty.
unfoldable pub read : Bytes → Bytes → ZincMessengerBridge → List Bytes × ZincMessengerBridge
read recv_id sender_id b =
    if can_read recv_id sender_id b
    then (
      elim (find sender_id (mailboxes recv_id b)) [ none ↦ [] | some messages ↦ messages ],
      record b { targets = put recv_id (put sender_id [] (mailboxes recv_id b)) b.targets },
    )
    else ([], b)

unfoldable pub register_target : Bytes → ZincMessengerBridge → ZincMessengerBridge
register_target id b =
    if not (is_registered id b) then record b { targets = put id [] b.targets } else b

unfoldable pub unregister_target : Bytes → ZincMessengerBridge → ZincMessengerBridge
unregister_target id b = if is_registered id b then record b { targets = erase id b.targets } else b

unfoldable pub send_to_server_target : Bytes → Bytes → ZincMessengerBridge → ZincMessengerBridge
send_to_server_target sender_id message b = send b.server_messenger_id sender_id message b

unfoldable pub can_read_from_server_target : Bytes → ZincMessengerBridge → Bool
can_read_from_server_target recv_id b = can_read recv_id b.server_messenger_id b

unfoldable pub read_from_server_target :
    Bytes → ZincMessengerBridge → List Bytes × ZincMessengerBridge
read_from_server_target recv_id b = read recv_id b.server_messenger_id b
