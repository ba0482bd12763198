-- ===== src/Server/Reached.antt =====
-- The counters of the server agree with its clients, in every state that it reaches.
use zinc.Common.{
  ℕ, ◌+◌, ◌-◌, ◌^◌, ◌<◌, ◌≡◌, ap, sym, subst, ◌∙◌, arith, Bool, Option, none, some, List, [],
  length,
}
use zinc.Common.Maps.{number_key, text_key, find}
use zinc.Common.Ordered.{IsOrdered, bit, tally}
use zinc.Packets.{ZincPacket}
use zinc.Connection.{handshake, login, config}
use zinc.SrvCtl.{Flags}
use zinc.Server.{
  Client, Security, ZincServer, start, set_port, on_accept, on_event, on_handshake, with_client,
  on_login_ack, on_config_ack,
}
use zinc.Server.Counts.{is_entered, has_ip, finished, entry, IsConsistent}
use zinc.Wrappers.{Cipher, Zlib}
use zinc.Server.Logins.{LoginConfig, LoginAnswer, on_login_start}
use zinc.Server.Logins.Steps.{IsSameStage, on_login_start-IsSameStage}
use zinc.Server.Configured.{on_settings, on_keep_alive, on_ping}
use zinc.Server.Kept.{
  replace-IsConsistent, on_event-IsConsistent, on_accept-IsConsistent, login_ack-IsConsistent,
  config_ack-IsConsistent, handshake_lem,
}

-- What libevent may call, and the packets that a client may send. A packet that is none of those named
-- leaves the state of its connection, and whether the login is finished.
pub data Step (s : ZincServer) (t : ZincServer) : Type 0 where
  starts : t ≡ start s → Step s t
  sets_port : (port : ℕ) → t ≡ (set_port port s).0 → Step s t
  accepts :
      (is_buffered : Bool) (g : Security) (now fd : ℕ) (ip : List ℕ)
      → length s.clients < 2 ^ 31 - 1
      → t ≡ on_accept is_buffered g now fd ip s
      → Step s t
  events : (fd : ℕ) (flags : Flags) → t ≡ on_event fd flags s → Step s t
  handshakes :
      (fd : ℕ) (packet : ZincPacket) (c d : Client)
      → find fd s.clients ≡ some c
      → c.connection.state ≡ handshake
      → on_handshake packet c ≡ some d
      → t ≡ with_client fd d s
      → Step s t
  acknowledges_login :
      (fd : ℕ) (c : Client)
      → find fd s.clients ≡ some c
      → c.connection.state ≡ login
      → t ≡ on_login_ack fd c s
      → Step s t
  acknowledges_config :
      (fd : ℕ) (c : Client)
      → find fd s.clients ≡ some c
      → c.connection.state ≡ config
      → t ≡ on_config_ack fd c s
      → Step s t
  starts_login :
      (k : Cipher) (z : Zlib) (g : LoginConfig) (public_key token : List ℕ) (fd : ℕ)
      (packet : ZincPacket) (c : Client) (r : LoginAnswer × Client)
      → find fd s.clients ≡ some c
      → on_login_start k z g public_key token s.online_players packet c ≡ some r
      → t ≡ with_client fd r.1 s
      → Step s t
  sends_settings :
      (view_distance now : ℕ) (token : List ℕ) (fd : ℕ) (packet : ZincPacket) (c d : Client)
      → find fd s.clients ≡ some c
      → on_settings view_distance now token packet c ≡ some d
      → t ≡ with_client fd d s
      → Step s t
  keeps_alive :
      (fd : ℕ) (packet : ZincPacket) (c : Client) (r : Option (List ℕ) × Client)
      → find fd s.clients ≡ some c
      → on_keep_alive packet c ≡ some r
      → t ≡ with_client fd r.1 s
      → Step s t
  pings :
      (fd : ℕ) (packet : ZincPacket) (c : Client) (r : Option (List ℕ) × Client)
      → find fd s.clients ≡ some c
      → on_ping packet c ≡ some r
      → t ≡ with_client fd r.1 s
      → Step s t
  others :
      (fd : ℕ) (c d : Client)
      → find fd s.clients ≡ some c
      → d.ip ≡ c.ip
      → d.connection.state ≡ c.connection.state
      → d.connection.login_finished ≡ c.connection.login_finished
      → t ≡ with_client fd d s
      → Step s t

settings-IsSameStage :
    (view_distance now : ℕ) (token : List ℕ) (packet : ZincPacket) (c d : Client)
    → on_settings view_distance now token packet c ≡ some d
    → IsSameStage c d
unfolding on_settings
settings-IsSameStage view_distance now token packet c d e = ground arith

keep_alive-IsSameStage :
    (packet : ZincPacket) (c : Client) (r : Option (List ℕ) × Client)
    → on_keep_alive packet c ≡ some r
    → IsSameStage c r.1
unfolding on_keep_alive
keep_alive-IsSameStage packet c r e = ground arith

ping-IsSameStage :
    (packet : ZincPacket) (c : Client) (r : Option (List ℕ) × Client)
    → on_ping packet c ≡ some r
    → IsSameStage c r.1
unfolding on_ping
ping-IsSameStage packet c r e = ground arith

-- A client in the place of one at the same stage.
same_stage-IsConsistent :
    (fd : ℕ) (c d : Client) (s : ZincServer)
    → IsConsistent s
    → find fd s.clients ≡ some c
    → IsSameStage c d
    → IsConsistent (with_client fd d s)
same_stage-IsConsistent fd c d s v known (same_ip, (same_state, same_login)) =
    replace-IsConsistent fd s.online_players c d s v known same_ip
      (same_login ∙ (v.entered fd c known ∙ ap is_entered (sym same_state)))
      (ap (λ f. s.online_players + bit f) (sym same_login))

pub data Reach (s : ZincServer) : ZincServer → Type 0 where
  here : Reach s s
  next : {t u : ZincServer} → Reach s t → Step t u → Reach s u

relabel :
    {started : Bool} {port : ℕ} {s : ZincServer}
    → IsConsistent s
    → IsConsistent (record s { started = started; port = port })
relabel v = record {
  ordered = v.ordered;
  accounts = v.accounts;
  players = v.players;
  small = v.small;
  entered = v.entered;
}

Step-IsConsistent : {s t : ZincServer} → Step s t → IsConsistent s → IsConsistent t
unfolding start set_port
Step-IsConsistent (starts e) v = subst IsConsistent (sym e) (relabel v)
Step-IsConsistent (sets_port port e) v = subst IsConsistent (sym e) (relabel v)
Step-IsConsistent {s} (accepts is_buffered g now fd ip room e) v =
    subst IsConsistent (sym e) (on_accept-IsConsistent is_buffered g now fd ip s v room)
Step-IsConsistent {s} (events fd flags e) v =
    subst IsConsistent (sym e) (on_event-IsConsistent fd flags s v)
Step-IsConsistent {s} (handshakes fd packet c d known at_start returns e) v =
    let (same, kept, outside) = handshake_lem packet c d (ap is_entered at_start) returns in
    let before = v.entered fd c known ∙ ap is_entered at_start in
    subst IsConsistent (sym e) (
      replace-IsConsistent fd s.online_players c d s v known same (kept ∙ (before ∙ sym outside))
        (ap (λ f. s.online_players + bit f) (sym kept)))
Step-IsConsistent {s} (acknowledges_login fd c known at_login e) v =
    subst IsConsistent (sym e) (login_ack-IsConsistent fd c s v known at_login)
Step-IsConsistent {s} (acknowledges_config fd c known at_config e) v =
    subst IsConsistent (sym e) (config_ack-IsConsistent fd c s v known at_config)
Step-IsConsistent {s} (starts_login k z g public_key token fd packet c r known answers e) v =
    subst IsConsistent (sym e) (
      same_stage-IsConsistent fd c r.1 s v known
        (on_login_start-IsSameStage k z g public_key token s.online_players packet c r answers))
Step-IsConsistent {s} (sends_settings view_distance now token fd packet c d known answers e) v =
    subst IsConsistent (sym e) (
      same_stage-IsConsistent fd c d s v known
        (settings-IsSameStage view_distance now token packet c d answers))
Step-IsConsistent {s} (keeps_alive fd packet c r known answers e) v =
    subst IsConsistent (sym e)
      (same_stage-IsConsistent fd c r.1 s v known (keep_alive-IsSameStage packet c r answers))
Step-IsConsistent {s} (pings fd packet c r known answers e) v =
    subst IsConsistent (sym e)
      (same_stage-IsConsistent fd c r.1 s v known (ping-IsSameStage packet c r answers))
Step-IsConsistent {s} (others fd c d known same_ip same_state same_login e) v =
    subst IsConsistent (sym e)
      (same_stage-IsConsistent fd c d s v known (same_ip, (same_state, same_login)))

none-ne-some : {a : Client} → ◌≡◌ {A = Option Client} none (some a) → ⊥
none-ne-some e = cc

-- However clients come, go through the states of the protocol and leave, from a server without clients,
-- while it has fewer than 2 ^ 31 of them, and where the packets that are not modelled leave the state of
-- their connection: the counter of every address is the number of its clients, there is none for an
-- address without clients, and the number of players is the number of the clients that are past the login.
pub Reach-IsConsistent :
    {s t : ZincServer}
    → s.clients ≡ []
    → s.concurrent_accounts ≡ []
    → s.online_players ≡ 0
    → Reach s t
    → IsConsistent t
unfolding find
Reach-IsConsistent none_yet no_accounts no_players here = record {
  ordered = subst IsOrdered (sym none_yet) tt;
  accounts = λ ip. ap (find ip) no_accounts ∙ ap (λ m. entry (tally (has_ip ip) m)) (sym none_yet);
  players = no_players ∙ ap (tally finished) (sym none_yet);
  small = omega (arith, ap length none_yet);
  entered = λ fd c e. absurd (none-ne-some (sym (ap (find fd) none_yet) ∙ e));
}
Reach-IsConsistent none_yet no_accounts no_players (next r step) =
    Step-IsConsistent step (Reach-IsConsistent none_yet no_accounts no_players r)
