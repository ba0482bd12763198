-- ===== src/SrvCtl/States.antt =====
-- Which states the control server's connections reach.
use zinc.Common.{
  ℕ, ◌+◌, ◌%◌, ◌^◌, ◌≡◌, refl, ap, sym, subst, ◌∙◌, arith, Bool, true, false, not, ◌⊎◌, inl, inr,
  Option, none, some, Option-cases, if-split, if-both, List, [], ltb, ==_iff,
}
use zinc.Common.Maps.{number_key, find, put, find-put, find-erase}
use zinc.ByteBuffer.{ByteBuffer, empty, size, write_bytes}
use zinc.Numeric.{ulong, int, read_numeric}
use zinc.VarNumeric.{read_var_numeric}
use zinc.SrvCtl.{
  State, handshake, login, config, execution, Outcome, SrvCtlConnection, SrvCtlServer, Flags, reply,
  dispatch, read_packet, on_buffer, on_input, start, set_port, is_connected, add_client,
  remove_client, get_client, set_state, on_accept, on_read, on_event, invalid_packet,
}

abbrev pub IsEarly : State → Type 0
IsEarly s = (s ≡ handshake) ⊎ (s ≡ login)

none-ne-some {ℓ} : {A : Type ℓ} {a : A} → ◌≡◌ {A = Option A} none (some a) → ⊥
none-ne-some e = cc

state_of :
    {a b : ℕ} {x y : Option (List ℕ)} {s t : SrvCtlServer}
    → ◌≡◌ {A = Option (ℕ × Option (List ℕ) × SrvCtlServer)} (some (a, x, s)) (some (b, y, t))
    → s ≡ t
state_of e = cc

reply-state : (s : State) (n status : ℕ) (o : Outcome) → reply s n status ≡ some o → o.state ≡ s
unfolding reply
reply-state s n status o e = ground arith

dispatch-IsEarly :
    (s : State) (id n : ℕ) (o : Outcome) → IsEarly s → dispatch s id n ≡ some o → IsEarly o.state
unfolding dispatch
dispatch-IsEarly handshake id n o h e = inr (reply-state login n 1 o e)
dispatch-IsEarly login id n o h e = inr (ground (arith, reply-state login n invalid_packet o))
dispatch-IsEarly config id n o h e = ground arith
dispatch-IsEarly execution id n o h e = ground arith

-- A status that is sent without looking at the packet leaves the state.
reply-IsEarly :
    (s : State) (n status : ℕ) (o : Outcome)
    → IsEarly s
    → reply s n status ≡ some o
    → IsEarly o.state
reply-IsEarly s n status o h e = subst IsEarly (sym (reply-state s n status o e)) h

read_packet-IsEarly :
    (s : State) (n : ℕ) (b : ByteBuffer) (o : Outcome)
    → IsEarly s
    → read_packet s n b ≡ some o
    → IsEarly o.state
read_packet-IsEarly s n b o h e = elim (Option-cases (read_var_numeric int b)) [
  | inl fails ↦ absurd (none-ne-some (sym (rw (fails, read_packet) refl) ∙ e))
  | inr ((id, _), p) ↦
      dispatch-IsEarly s id ((8 + n) % 2 ^ 64) o h (sym (rw (p, read_packet) refl) ∙ e)
]

on_buffer-IsEarly :
    (s : State) (b : ByteBuffer) (o : Outcome)
    → IsEarly s
    → on_buffer s b ≡ some o
    → IsEarly o.state
unfolding on_buffer
on_buffer-IsEarly s b o h =
    if-split (λ t. t ≡ some o → IsEarly o.state) (ltb (size b) 9)
      (λ _. reply-IsEarly s (size b) invalid_packet o h)
      (λ _ e. elim (Option-cases (read_numeric ulong b)) [
        | inl fails ↦ absurd (none-ne-some (sym (rw (fails) refl) ∙ e))
        | inr ((n, c), p) ↦
            if-split (λ t. t ≡ some o → IsEarly o.state) (ltb (size c) ((n + 8) % 2 ^ 64))
              (λ _. reply-IsEarly s (size c) invalid_packet o h)
              (λ _. read_packet-IsEarly s n c o h) (rw (p) at e)
      ])

on_input-IsEarly :
    (s : State) (input : List ℕ) (o : Outcome)
    → IsEarly s
    → on_input s input ≡ some o
    → IsEarly o.state
unfolding on_input
on_input-IsEarly s input o h e = elim (Option-cases (write_bytes input (empty true))) [
  | inl fails ↦ absurd (none-ne-some (sym (rw (fails, on_input) refl) ∙ e))
  | inr ((_, b), p) ↦ on_buffer-IsEarly s b o h (sym (rw (p, on_input) refl) ∙ e)
]

-- What libevent may call, one handler after the other, and what the program does itself.
pub data Step (s : SrvCtlServer) (t : SrvCtlServer) : Type 0 where
  starts : t ≡ start s → Step s t
  sets_port : (port : ℕ) → t ≡ (set_port port s).0 → Step s t
  accepts : (is_buffered : Bool) (fd : ℕ) → t ≡ on_accept is_buffered fd s → Step s t
  reads :
      (fd drained : ℕ) (input : List ℕ) (sent : Option (List ℕ))
      → on_read fd input s ≡ some (drained, sent, t)
      → Step s t
  events : (fd : ℕ) (flags : Flags) → t ≡ on_event fd flags s → Step s t

pub data Reach (s : SrvCtlServer) : SrvCtlServer → Type 0 where
  here : Reach s s
  next : {t u : SrvCtlServer} → Reach s t → Step t u → Reach s u

-- Every client stands under its own socket, and has not left the first two states.
abbrev pub IsValid : SrvCtlServer → Type 0
IsValid s =
    (fd : ℕ) (c : SrvCtlConnection) → find fd s.clients ≡ some c → (c.fd ≡ fd) × IsEarly c.state

remove_client-IsValid : (fd : ℕ) (s : SrvCtlServer) → IsValid s → IsValid (remove_client fd s)
unfolding remove_client is_connected
remove_client-IsValid fd s v k c e = ground (arith, find-erase k fd s.clients, ==_iff fd k, v k c)

on_event-IsValid :
    (fd : ℕ) (flags : Flags) (s : SrvCtlServer) → IsValid s → IsValid (on_event fd flags s)
unfolding on_event
on_event-IsValid fd flags s v = if-both IsValid (not (is_connected fd s)) v (
    if-both IsValid flags.is_eof gone
      (if-both IsValid flags.is_error gone (if-both IsValid flags.is_timeout gone v)))
  where
    gone : IsValid (remove_client fd s)
    gone = remove_client-IsValid fd s v

on_accept-IsValid :
    (is_buffered : Bool) (fd : ℕ) (s : SrvCtlServer)
    → IsValid s
    → IsValid (on_accept is_buffered fd s)
unfolding on_accept add_client is_connected
on_accept-IsValid is_buffered fd s v k c e =
    ground
      (arith, find-put k fd (record { fd = fd; state = handshake }) s.clients, ==_iff fd k, v k c)

abbrev with_state : ℕ → State → SrvCtlConnection → SrvCtlServer → SrvCtlServer
with_state fd state c s = record s { clients = put fd (record c { state = state }) s.clients }

with_state-IsValid :
    (fd : ℕ) (state : State) (c : SrvCtlConnection) (s : SrvCtlServer)
    → IsValid s
    → c.fd ≡ fd
    → IsEarly state
    → IsValid (with_state fd state c s)
with_state-IsValid fd state c s v own early k d e =
    ground (arith, find-put k fd (record c { state = state }) s.clients, ==_iff fd k, v k d)

connected_none : (fd : ℕ) (s : SrvCtlServer) → find fd s.clients ≡ none → is_connected fd s ≡ false
unfolding is_connected
connected_none fd s unknown = ground arith

connected_some :
    (fd : ℕ) (s : SrvCtlServer) (c : SrvCtlConnection)
    → find fd s.clients ≡ some c
    → is_connected fd s ≡ true
unfolding is_connected
connected_some fd s c known = ground arith

on_read-IsValid :
    (fd drained : ℕ) (input : List ℕ) (sent : Option (List ℕ)) (s t : SrvCtlServer)
    → IsValid s
    → on_read fd input s ≡ some (drained, sent, t)
    → IsValid t
unfolding on_read get_client set_state
on_read-IsValid fd drained input sent s t v e = elim (Option-cases (find fd s.clients)) [
  | inl unknown ↦
      let left : on_read fd input s ≡ some (0, none, s) =
        rw (connected_none fd s unknown, on_read) refl in
      subst IsValid (state_of (sym left ∙ e)) v
  | inr (c, known) ↦
      let (own, early) = v fd c known in
      elim (Option-cases (on_input c.state input)) [
        | inl fails ↦
            absurd (
              none-ne-some (sym (rw (connected_some fd s c known, known, fails, on_read) refl) ∙ e))
        | inr (o, p) ↦
            let answered : on_read fd input s
                ≡ some (o.drained, o.sent, with_state fd o.state c s) =
              rw (connected_some fd s c known, known, p, on_read) refl in
            subst IsValid (state_of (sym answered ∙ e))
              (with_state-IsValid fd o.state c s v own (on_input-IsEarly c.state input o early p))
      ]
]

Step-IsValid : {s t : SrvCtlServer} → Step s t → IsValid s → IsValid t
unfolding start set_port
Step-IsValid (starts e) v = subst IsValid (sym e) v
Step-IsValid (sets_port port e) v = subst IsValid (sym e) v
Step-IsValid {s} (accepts is_buffered fd e) v =
    subst IsValid (sym e) (on_accept-IsValid is_buffered fd s v)
Step-IsValid {s} {t} (reads fd drained input sent e) v =
    on_read-IsValid fd drained input sent s t v e
Step-IsValid {s} (events fd flags e) v = subst IsValid (sym e) (on_event-IsValid fd flags s v)

-- However connections are accepted, read and closed, from a server without clients: every client of the
-- server stands under its own socket and is in the handshake or the login state. The states of
-- configuration and execution are never entered.
pub Reach-IsValid : {s t : SrvCtlServer} → s.clients ≡ [] → Reach s t → IsValid t
unfolding find
Reach-IsValid {s} none_yet here = λ k c e. absurd (none-ne-some (sym (ap (find k) none_yet) ∙ e))
Reach-IsValid none_yet (next r step) = Step-IsValid step (Reach-IsValid none_yet r)
