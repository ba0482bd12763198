-- ===== src/Messenger/Delivery.antt =====
-- A message to a registered target waits until the target reads it: none is lost, doubled or overtaken.
use zinc.Common.{
  ◌≡◌, ap, sym, ◌∙◌, true, false, ◌&&◌, List, [], ◌∷◌, ◌++◌, append-nil, append_assoc,
  if◌then◌else◌, arith,
}
use zinc.Common.Maps.{same_text}
use zinc.Messenger.{Bytes, ZincMessengerBridge, is_registered, read}
use zinc.Messenger.Spec.{
  Mail, Command, sends, reads, registers, unregisters, spec_step, view, read-result, after,
  after-view, spec_after,
}

-- The command neither reads the mailbox of `s` at `r` nor ends the registration of `r`.
abbrev pub KeepsMail : Bytes → Bytes → Command → Type 0
KeepsMail r s (sends r' s' message) = Unit
KeepsMail r s (reads r' s') = (same_text r' r && same_text s' s) ≡ false
KeepsMail r s (registers id) = Unit
KeepsMail r s (unregisters id) = same_text id r ≡ false

abbrev pub AllKeepMail : Bytes → Bytes → List Command → Type 0
AllKeepMail r s [] = Unit
AllKeepMail r s (c ∷ cs) = KeepsMail r s c × AllKeepMail r s cs

-- The message of a command for one mailbox.
abbrev pub sent_by : Bytes → Bytes → Command → List Bytes
sent_by r s (sends r' s' message) = if same_text r' r && same_text s' s then message ∷ [] else []
sent_by r s _ = []

abbrev pub sent : Bytes → Bytes → List Command → List Bytes
sent r s [] = []
sent r s (c ∷ cs) = sent_by r s c ++ sent r s cs

step_queue :
    (r s : Bytes) (c : Command) (m : Mail)
    → m.registered r ≡ true
    → KeepsMail r s c
    → ((spec_step c m).1.registered r ≡ true)
      × ((spec_step c m).1.queue r s ≡ m.queue r s ++ sent_by r s c)
step_queue r s (sends r' s' message) m h k = ground (arith, append-nil (m.queue r s))
step_queue r s (reads r' s') m h k = ground (arith, append-nil (m.queue r s))
step_queue r s (registers id) m h k = ground (arith, append-nil (m.queue r s))
step_queue r s (unregisters id) m h k = ground (arith, append-nil (m.queue r s))

after_queue :
    (r s : Bytes) (cs : List Command) (m : Mail)
    → m.registered r ≡ true
    → AllKeepMail r s cs
    → (spec_after cs m).queue r s ≡ m.queue r s ++ sent r s cs
after_queue r s [] m h k = sym (append-nil (m.queue r s))
after_queue r s (c ∷ cs) m h (keeps, others) =
    let (still, joined) = step_queue r s c m h keeps in
    after_queue r s cs (spec_step c m).1 still others
    ∙ (ap (λ t. t ++ sent r s cs) joined ∙ append_assoc (m.queue r s) (sent_by r s c) (sent r s cs))

-- From any state in which the target `r` is registered, and after any sequence of commands that does not
-- read the mailbox of `s` at `r` or end the registration of `r`, a read of that mailbox returns what
-- waited in it before, followed by all messages that the sequence sent from `s` to `r`, in order.
pub read-after :
    (r s : Bytes) (cs : List Command) (b : ZincMessengerBridge)
    → is_registered r b ≡ true
    → AllKeepMail r s cs
    → (read r s (after cs b)).0 ≡ (read r s b).0 ++ sent r s cs
read-after r s cs b h k =
    read-result r s (after cs b)
    ∙ (ap (λ m. m.queue r s) (after-view cs b)
        ∙ (after_queue r s cs (view b) h k ∙ ap (λ t. t ++ sent r s cs) (sym (read-result r s b))))
