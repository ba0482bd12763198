-- ===== src/Server/Kept.antt =====
-- Each operation of the server keeps the counters in agreement with the clients.
use zinc.Common.{
  ℕ, ◌+◌, ◌-◌, ◌%◌, ◌^◌, ◌<◌, ◌≡◌, refl, ap, sym, ◌∙◌, arith, Bool, true, false, not, inl, inr,
  none, some, Option-cases, if-both, if-split, List, length,
}
use zinc.Common.Maps.{number_key, text_key, same_text, find, put, find-put, find-erase}
use zinc.Common.Ordered.{IsOrdered-put, IsOrdered-erase, bit, counted, tally-put, tally-erase}
use zinc.Packets.{ZincPacket}
use zinc.Connection.{login, config, play, new_connection, set_state}
use zinc.SrvCtl.{Flags}
use zinc.Server.{
  Client, Security, ZincServer, is_connected, add_client, admitted, admit, forget, remove_client,
  new_client, on_accept, on_event, asked_state, on_handshake, on_login_ack, on_config_ack,
}
use zinc.Server.Counts.{
  is_entered, has_ip, finished, entry, IsConsistent, length-tally, tally-same, add-accounts,
  leave-accounts, length-put, length-put_known, length-erase,
}

-- A client in the place of one with the same address; the players are counted anew.
pub replace-IsConsistent :
    (fd players : ℕ) (c d : Client) (s : ZincServer)
    → IsConsistent s
    → find fd s.clients ≡ some c
    → d.ip ≡ c.ip
    → d.connection.login_finished ≡ is_entered d.connection.state
    → players + bit (finished c) ≡ s.online_players + bit (finished d)
    → IsConsistent (record s { clients = put fd d s.clients; online_players = players })
replace-IsConsistent fd players c d s v known same enters counts = record {
  ordered = IsOrdered-put fd d s.clients v.ordered;
  accounts = λ ip.
      v.accounts ip
      ∙ ap entry (
          sym (
            tally-same (has_ip ip) fd d c s.clients v.ordered known
              (ap (λ t. same_text t ip) same)));
  players = omega (
    arith,
    v.players,
    counts,
    tally-put finished fd d s.clients v.ordered,
    ap (counted finished) known,
  );
  small = omega (arith, v.small, length-put_known fd d c s.clients v.ordered known);
  entered = λ k e found. ground (arith, find-put k fd d s.clients, v.entered k e, enters);
}

admit-IsConsistent :
    (g : Security) (now fd : ℕ) (client : Client) (s : ZincServer)
    → IsConsistent s
    → find fd s.clients ≡ none
    → length s.clients < 2 ^ 31 - 1
    → client.connection.login_finished ≡ is_entered client.connection.state
    → client.connection.login_finished ≡ false
    → IsConsistent (admit g now fd client s)
unfolding admit
admit-IsConsistent g now fd client s v unknown room enters fresh =
    let kept = admitted g now client s in
    record {
      ordered = IsOrdered-put fd kept s.clients v.ordered;
      accounts = λ ip. add-accounts ip fd kept s v unknown room;
      players = omega (
        arith,
        v.players,
        tally-put finished fd kept s.clients v.ordered,
        ap (counted finished) unknown,
        ap bit fresh,
      );
      small = omega (arith, length-put fd kept s.clients v.ordered);
      entered = λ k e found. ground (arith, find-put k fd kept s.clients, v.entered k e, enters);
    }

forget-IsConsistent :
    (fd : ℕ) (client : Client) (s : ZincServer)
    → IsConsistent s
    → find fd s.clients ≡ some client
    → IsConsistent (forget fd client s)
unfolding forget
forget-IsConsistent fd client s v known = record {
  ordered = IsOrdered-erase fd s.clients v.ordered;
  accounts = λ ip. leave-accounts ip fd client s v known;
  players = ground (
    arith,
    v.players,
    v.small,
    length-tally finished s.clients,
    tally-erase finished fd s.clients v.ordered,
    ap (counted finished) known,
  );
  small = omega (arith, v.small, length-erase fd s.clients v.ordered);
  entered = λ k e found. ground (arith, find-erase k fd s.clients, v.entered k e);
}

remove_client-IsConsistent :
    (fd : ℕ) (s : ZincServer) → IsConsistent s → IsConsistent (remove_client fd s)
unfolding remove_client
remove_client-IsConsistent fd s v = elim (Option-cases (find fd s.clients)) [
  | inl unknown ↦ rw (unknown, remove_client) v
  | inr (client, known) ↦ rw (known, remove_client) (forget-IsConsistent fd client s v known)
]

pub on_event-IsConsistent :
    (fd : ℕ) (flags : Flags) (s : ZincServer) → IsConsistent s → IsConsistent (on_event fd flags s)
unfolding on_event
on_event-IsConsistent fd flags s v = if-both IsConsistent (not (is_connected fd s)) v (
    if-both IsConsistent flags.is_eof gone
      (if-both IsConsistent flags.is_error gone (if-both IsConsistent flags.is_timeout gone v)))
  where
    gone : IsConsistent (remove_client fd s)
    gone = remove_client-IsConsistent fd s v

unknown_socket :
    (fd : ℕ) (s : ZincServer) → not (is_connected fd s) ≡ true → find fd s.clients ≡ none
unfolding is_connected
unknown_socket fd s h = ground arith

pub on_accept-IsConsistent :
    (is_buffered : Bool) (g : Security) (now fd : ℕ) (ip : List ℕ) (s : ZincServer)
    → IsConsistent s
    → length s.clients < 2 ^ 31 - 1
    → IsConsistent (on_accept is_buffered g now fd ip s)
unfolding on_accept add_client new_client new_connection
on_accept-IsConsistent false g now fd ip s v room = v
on_accept-IsConsistent true g now fd ip s v room =
    if-split IsConsistent (not (is_connected fd s))
      (λ h. admit-IsConsistent g now fd (new_client ip) s v (unknown_socket fd s h) room refl refl)
      (λ _. v)

-- A client that an acknowledged login makes a player.
pub login_ack-IsConsistent :
    (fd : ℕ) (c : Client) (s : ZincServer)
    → IsConsistent s
    → find fd s.clients ≡ some c
    → c.connection.state ≡ login
    → IsConsistent (on_login_ack fd c s)
unfolding on_login_ack set_state
login_ack-IsConsistent fd c s v known at_login =
    let outside : c.connection.login_finished ≡ false =
      v.entered fd c known ∙ ap is_entered at_login in
    replace-IsConsistent fd ((s.online_players + 1) % 2 ^ 32) c
      (record c { connection = record c.connection { state = config; login_finished = true } }) s v
      known refl refl
      (omega (arith, v.players, v.small, length-tally finished s.clients, ap bit outside))

pub config_ack-IsConsistent :
    (fd : ℕ) (c : Client) (s : ZincServer)
    → IsConsistent s
    → find fd s.clients ≡ some c
    → c.connection.state ≡ config
    → IsConsistent (on_config_ack fd c s)
unfolding on_config_ack set_state
config_ack-IsConsistent fd c s v known at_config =
    replace-IsConsistent fd s.online_players c
      (record c { connection = record c.connection { state = play } }) s v known refl
      (v.entered fd c known ∙ ap is_entered at_config) refl

asked_state_lem : (n : ℕ) → is_entered (asked_state n) ≡ false
unfolding asked_state
asked_state_lem n = ground arith

-- A handshake leaves the address, and leads to none of the states after the login.
pub handshake_lem :
    (packet : ZincPacket) (c d : Client)
    → is_entered c.connection.state ≡ false
    → on_handshake packet c ≡ some d
    → (d.ip ≡ c.ip)
      × (d.connection.login_finished ≡ c.connection.login_finished)
      × (is_entered d.connection.state ≡ false)
unfolding on_handshake set_state
handshake_lem packet c d outside e = grind (arith, asked_state_lem)
