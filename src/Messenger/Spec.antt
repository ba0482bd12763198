-- ===== src/Messenger/Spec.antt =====
-- What the bridge promises: queues, one for each pair of a registered target and a sender. How the
-- mailboxes are kept, and in which order, is forgotten.
use zinc.Common.{
  ◌≡◌, refl, ap, ap₂, ◌∙◌, Bool, true, false, ◌&&◌, none, some, List, [], ◌∷◌, ◌++◌, if◌then◌else◌,
  arith, ◌==◌, length,
}
use zinc.Common.Maps.{same_text, same_text_iff, text_key, find, put, find-put, find-erase}
use zinc.Messenger.{
  Bytes, Mailboxes, ZincMessengerBridge, is_registered, mailboxes, add_message, send, can_read,
  sender_amount, read, register_target, unregister_target,
}
use mathlib.Core.Path.{fun_ext}

pub record Mail : Type 0 where
  pub registered : Bytes → Bool
  pub queue : Bytes → Bytes → List Bytes

abbrev pub spec_send : Bytes → Bytes → Bytes → Mail → Mail
spec_send recv_id sender_id message m = record m {
  queue = λ r s.
      if m.registered r && same_text recv_id r && same_text sender_id s
      then m.queue r s ++ (message ∷ [])
      else m.queue r s;
}

abbrev pub spec_read : Bytes → Bytes → Mail → List Bytes × Mail
spec_read recv_id sender_id m = (
  m.queue recv_id sender_id,
  record m {
    queue = λ r s. if same_text recv_id r && same_text sender_id s then [] else m.queue r s;
  },
)

abbrev pub spec_register : Bytes → Mail → Mail
spec_register id m = record m { registered = λ r. if same_text id r then true else m.registered r }

abbrev pub spec_unregister : Bytes → Mail → Mail
spec_unregister id m = record {
  registered = λ r. if same_text id r then false else m.registered r;
  queue = λ r s. if same_text id r then [] else m.queue r s;
}

pub data Command : Type 0 where
  sends : Bytes → Bytes → Bytes → Command
  reads : Bytes → Bytes → Command
  registers : Bytes → Command
  unregisters : Bytes → Command

-- What a command returns, and the state after it.
abbrev pub step : Command → ZincMessengerBridge → List Bytes × ZincMessengerBridge
step (sends r s message) b = ([], send r s message b)
step (reads r s) b = read r s b
step (registers id) b = ([], register_target id b)
step (unregisters id) b = ([], unregister_target id b)

abbrev pub spec_step : Command → Mail → List Bytes × Mail
spec_step (sends r s message) m = ([], spec_send r s message m)
spec_step (reads r s) m = spec_read r s m
spec_step (registers id) m = ([], spec_register id m)
spec_step (unregisters id) m = ([], spec_unregister id m)

-- What each command of a sequence returns.
abbrev pub replies : List Command → ZincMessengerBridge → List (List Bytes)
replies [] b = []
replies (c ∷ cs) b = (step c b).0 ∷ replies cs (step c b).1

abbrev pub spec_replies : List Command → Mail → List (List Bytes)
spec_replies [] m = []
spec_replies (c ∷ cs) m = (spec_step c m).0 ∷ spec_replies cs (spec_step c m).1

abbrev pub messages_of : Bytes → Mailboxes → List Bytes
messages_of sender_id boxes = elim (find sender_id boxes) [ none ↦ [] | some messages ↦ messages ]

abbrev pub view : ZincMessengerBridge → Mail
view b = record {
  registered = λ r. is_registered r b;
  queue = λ r s. messages_of s (mailboxes r b);
}

messages_of-add_message :
    (x s message : Bytes) (boxes : Mailboxes)
    → messages_of x (add_message s message boxes)
      ≡ (if same_text s x then messages_of x boxes ++ (message ∷ []) else messages_of x boxes)
unfolding add_message
messages_of-add_message x s message boxes = ground (
  arith,
  same_text_iff s x,
  find-put x s (message ∷ []) boxes,
  find-put x s (messages_of s boxes ++ (message ∷ [])) boxes,
)

send-view :
    (r s message : Bytes) (b : ZincMessengerBridge)
    → view (send r s message b) ≡ spec_send r s message (view b)
unfolding send is_registered
send-view r s message b =
    ap₂ (λ g q. record { registered = g; queue = q })
      (fun_ext λ x.
        ground (
          arith,
          same_text_iff r x,
          find-put x r (add_message s message (mailboxes r b)) b.targets,
        ))
      (fun_ext λ x. fun_ext λ y. ground (
        arith,
        same_text_iff r x,
        find-put x r (add_message s message (mailboxes r b)) b.targets,
        messages_of-add_message y s message (mailboxes r b),
      ))

register-view :
    (id : Bytes) (b : ZincMessengerBridge) → view (register_target id b) ≡ spec_register id (view b)
unfolding register_target is_registered find
register-view id b =
    ap₂ (λ g q. record { registered = g; queue = q })
      (fun_ext λ x. ground (arith, same_text_iff id x, find-put x id [] b.targets))
      (fun_ext λ x. fun_ext λ y. ground (arith, same_text_iff id x, find-put x id [] b.targets))

unregister-view :
    (id : Bytes) (b : ZincMessengerBridge)
    → view (unregister_target id b) ≡ spec_unregister id (view b)
unfolding unregister_target is_registered find
unregister-view id b =
    ap₂ (λ g q. record { registered = g; queue = q })
      (fun_ext λ x. ground (arith, same_text_iff id x, find-erase x id b.targets))
      (fun_ext λ x. fun_ext λ y. ground (arith, same_text_iff id x, find-erase x id b.targets))

-- Where nothing can be read nothing waits.
no_mail : (s : Bytes) (boxes : Mailboxes) → (length boxes == 0) ≡ true → messages_of s boxes ≡ []
unfolding find
no_mail s [] h = refl
no_mail s (x ∷ boxes) h = absurd (ground arith)

pub read-result :
    (r s : Bytes) (b : ZincMessengerBridge) → (read r s b).0 ≡ messages_of s (mailboxes r b)
unfolding read can_read sender_amount is_registered find
read-result r s b = ground (arith, no_mail s (mailboxes r b))

read-view :
    (r s : Bytes) (b : ZincMessengerBridge) → view (read r s b).1 ≡ (spec_read r s (view b)).1
unfolding read can_read sender_amount is_registered find
read-view r s b =
    ap₂ (λ g q. record { registered = g; queue = q })
      (fun_ext
        λ x. ground (arith, same_text_iff r x, find-put x r (put s [] (mailboxes r b)) b.targets))
      (fun_ext λ x. fun_ext λ y. ground (
        arith,
        same_text_iff r x,
        same_text_iff s y,
        find-put x r (put s [] (mailboxes r b)) b.targets,
        find-put y s [] (mailboxes r b),
        no_mail y (mailboxes r b),
      ))

step-view : (c : Command) (b : ZincMessengerBridge) → view (step c b).1 ≡ (spec_step c (view b)).1
step-view (sends r s message) b = send-view r s message b
step-view (reads r s) b = read-view r s b
step-view (registers id) b = register-view id b
step-view (unregisters id) b = unregister-view id b

step-reply : (c : Command) (b : ZincMessengerBridge) → (step c b).0 ≡ (spec_step c (view b)).0
step-reply (sends r s message) b = refl
step-reply (reads r s) b = read-result r s b
step-reply (registers id) b = refl
step-reply (unregisters id) b = refl

-- On every sequence of sends, reads, registrations and their ends, from any state of the bridge, each
-- command returns what it returns for the queues that the bridge shows.
pub replies-spec_replies :
    (cs : List Command) (b : ZincMessengerBridge) → replies cs b ≡ spec_replies cs (view b)
replies-spec_replies [] b = refl
replies-spec_replies (c ∷ cs) b =
    ap₂ ◌∷◌ (step-reply c b)
      (replies-spec_replies cs (step c b).1 ∙ ap (spec_replies cs) (step-view c b))

-- The state after a sequence.
abbrev pub after : List Command → ZincMessengerBridge → ZincMessengerBridge
after [] b = b
after (c ∷ cs) b = after cs (step c b).1

abbrev pub spec_after : List Command → Mail → Mail
spec_after [] m = m
spec_after (c ∷ cs) m = spec_after cs (spec_step c m).1

pub after-view :
    (cs : List Command) (b : ZincMessengerBridge) → view (after cs b) ≡ spec_after cs (view b)
after-view [] b = refl
after-view (c ∷ cs) b = after-view cs (step c b).1 ∙ ap (spec_after cs) (step-view c b)
