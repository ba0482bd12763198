-- ===== src/Tests/Services.antt =====
-- The bridge, the server's answers and the control server at concrete inputs.
use zinc.Common.{
  ◌+◌, ◌-◌, ◌^◌, ◌<◌, ◌≡◌, refl, arith, inr, true, false, some, List, [], ◌∷◌, ◌++◌, length,
}
use zinc.Common.Texts.{codes}
use zinc.Messenger.{ZincMessengerBridge, is_registered, read}
use zinc.Common.Maps.{find}
use zinc.Numeric.{to_memory}
use zinc.VarNumeric.Groups.{seven_bits}
use zinc.Messenger.Spec.{
  Command, sends, reads, registers, unregisters, replies, spec_replies, view, after,
  replies-spec_replies,
}
use zinc.Messenger.Delivery.{sent, read-after}
use zinc.ServerMessenger.{parse_message}
use zinc.ServerMessenger.Answers.{message_head, answer_head, answer_body, parse_message_lem}
use zinc.Text.Strings.{prefixed}
use zinc.VarNumeric.Groups.{var_bytes}
use zinc.Numeric.{int}
use zinc.SrvCtl.{handshake, login, on_input, SrvCtlServer, start, on_accept}
use zinc.SrvCtl.Frames.{
  frame, next, sent_of, status_of, length_field, rejected, on_input-frame, on_input_cut_off,
  on_input_wrapped,
}
use zinc.SrvCtl.States.{Reach, here, starts, accepts, events, IsValid, Reach-IsValid}
use zinc.SrvCtl.States

-- The target `r` is registered, and one message of `s` waits.
abbrev bridge : ZincMessengerBridge
bridge = record {
  targets = (codes "r", (codes "s", codes "first" ∷ []) ∷ []) ∷ [];
  server_messenger_id = codes "server";
}

abbrev commands : List Command
commands =
    sends (codes "r") (codes "s") (codes "second")
    ∷ registers (codes "q")
    ∷ sends (codes "r") (codes "t") (codes "other")
    ∷ unregisters (codes "q")
    ∷ []

replies-spec_replies_example :
    replies (reads (codes "r") (codes "s") ∷ commands) bridge
    ≡ spec_replies (reads (codes "r") (codes "s") ∷ commands) (view bridge)
replies-spec_replies_example =
    replies-spec_replies (reads (codes "r") (codes "s") ∷ commands) bridge

r_registered : is_registered (codes "r") bridge ≡ true
unfolding is_registered find
r_registered = refl

read-after_example :
    (read (codes "r") (codes "s") (after commands bridge)).0
    ≡ (read (codes "r") (codes "s") bridge).0 ++ sent (codes "r") (codes "s") commands
read-after_example =
    read-after (codes "r") (codes "s") commands bridge r_registered (tt, (tt, (tt, (refl, tt))))

parse_message_lem_example :
    parse_message
      (message_head (7 ∷ []) ++ (prefixed (codes "call") ++ prefixed (codes "base.test")))
    ≡ some (answer_head (7 ∷ []) ++ answer_body (codes "call") (codes "base.test"))
parse_message_lem_example =
    parse_message_lem (7 ∷ []) (codes "call") (codes "base.test") (omega arith) (omega arith)
      (omega arith)

on_input-frame_example :
    on_input login (frame 0 (5 ∷ []) ++ (1 ∷ []))
    ≡ some (record {
      state = next login;
      drained = length (frame 0 (5 ∷ []));
      sent = sent_of (status_of login 0);
    })
unfolding to_memory seven_bits
on_input-frame_example = on_input-frame login 0 (5 ∷ []) (1 ∷ []) (omega arith) (omega arith)

on_input_cut_off_example :
    on_input handshake (length_field 5 ++ (0 ∷ 1 ∷ []))
    ≡ some (rejected handshake (length (length_field 5 ++ (0 ∷ 1 ∷ []))))
on_input_cut_off_example =
    on_input_cut_off handshake (length_field 5 ++ (0 ∷ 1 ∷ []))
      (inr (5, 0 ∷ 1 ∷ [], refl, omega arith, omega arith))

on_input_wrapped_example :
    (on_input handshake (length_field (2 ^ 64 - 1) ++ (var_bytes int 3 ++ []))
      ≡ some (record {
        state = next handshake;
        drained = 2 ^ 64 - 1 + 8 - 2 ^ 64;
        sent = sent_of (status_of handshake 3);
      }))
    × (2 ^ 64 - 1 + 8 - 2 ^ 64 < 8)
on_input_wrapped_example =
    on_input_wrapped handshake (2 ^ 64 - 1) 3 [] (omega arith) (omega arith) (omega arith)

abbrev control : SrvCtlServer
control = record { started = false; port = 25599; clients = [] }

Reach-IsValid_example : IsValid (on_accept true 5 (start control))
Reach-IsValid_example =
    Reach-IsValid {s = control} refl
      (States.next (States.next here (starts refl)) (accepts true 5 refl))
