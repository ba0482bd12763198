-- ===== src/Connection/Channels/Opened.antt =====
-- Which login plugin channels are open, and what a response to one of them finds.
use zinc.Common.{
  ℕ, ◌≡◌, ◌≢◌, refl, ap, sym, subst, ◌∙◌, arith, Bool, true, false, ◌⊎◌, inl, inr, Bool-cases, some,
  List, [], ◌∷◌, take, length,
}
use zinc.Common.Maps.{text_key, same_text_iff, find, contains, put, find-put, find-erase}
use zinc.Numeric.{from_memory}
use zinc.Numeric.Sizes.{state_eq}
use zinc.Connection.{ZincConnection}
use zinc.Connection.Channels.{
  is_login_plugin_channel_opened, get_login_plugin_channel, open_login_plugin_channel,
  close_login_plugin_channel,
}

-- One of the ids is not in use.
abbrev pub HasFresh : List (List ℕ) → ZincConnection → Type 0
HasFresh [] c = ⊥
HasFresh (id ∷ ids) c = (is_login_plugin_channel_opened id c ≡ false) ⊎ HasFresh ids c

-- What opening a channel leaves.
abbrev pub IsOpening : List ℕ → List ℕ → ZincConnection → ZincConnection → Type 0
IsOpening id channel c d =
    (is_login_plugin_channel_opened id c ≡ false)
    × (is_login_plugin_channel_opened id d ≡ true)
    × (get_login_plugin_channel id d ≡ channel)
    × ((other : List ℕ)
        → other ≢ id
        → get_login_plugin_channel other d ≡ get_login_plugin_channel other c)

opened-IsOpening :
    (id channel : List ℕ) (c : ZincConnection)
    → is_login_plugin_channel_opened id c ≡ false
    → IsOpening id channel c
        (record c { opened_login_plugin_channels = put id channel c.opened_login_plugin_channels })
unfolding is_login_plugin_channel_opened get_login_plugin_channel
opened-IsOpening id channel c fresh = (
  fresh,
  ground (arith, same_text_iff id id, find-put id id channel c.opened_login_plugin_channels),
  ground (arith, same_text_iff id id, find-put id id channel c.opened_login_plugin_channels),
  λ other differs.
      ground
        (arith, same_text_iff id other, find-put other id channel c.opened_login_plugin_channels),
)

-- Where the random ids reach one that is not in use a channel is opened: the number that is returned is
-- made of the bytes of an id that was not open; afterwards the id is open and has the given channel, and
-- every other id has the channel that it had.
pub open_login_plugin_channel-IsOpening :
    (ids : List (List ℕ)) (channel : List ℕ) (c : ZincConnection)
    → HasFresh ids c
    → (id : List ℕ) × (d : ZincConnection) × (open_login_plugin_channel ids channel c
        ≡ some (from_memory (take 3 id), d))
      × IsOpening id channel c d
unfolding open_login_plugin_channel
open_login_plugin_channel-IsOpening [] channel c h = absurd h
open_login_plugin_channel-IsOpening (id ∷ ids) channel c h =
    elim (Bool-cases (is_login_plugin_channel_opened id c)) [
      | inl used ↦
          let (found, d, returns, opening) =
            open_login_plugin_channel-IsOpening ids channel c (later used h) in
          (found, d, rw (used, open_login_plugin_channel) returns, opening)
      | inr fresh ↦
          (id, _, rw (fresh, open_login_plugin_channel) refl, opened-IsOpening id channel c fresh)
    ]
  where
    later : is_login_plugin_channel_opened id c ≡ true → HasFresh (id ∷ ids) c → HasFresh ids c
    later used (inl fresh) = absurd cc
    later used (inr others) = others

abbrev AreThreeLong : List (List ℕ) → Type 0
AreThreeLong [] = Unit
AreThreeLong (id ∷ ids) = (length id ≡ 3) × AreThreeLong ids

-- What happens to the channels of a connection.
pub data ChannelStep (c : ZincConnection) (d : ZincConnection) : Type 0 where
  opens :
      (ids : List (List ℕ)) (channel : List ℕ) (n : ℕ)
      → AreThreeLong ids
      → open_login_plugin_channel ids channel c ≡ some (n, d)
      → ChannelStep c d
  closes : (id : List ℕ) → d ≡ close_login_plugin_channel id c → ChannelStep c d

pub data ChannelReach (c : ZincConnection) : ZincConnection → Type 0 where
  here : ChannelReach c c
  next : {d e : ZincConnection} → ChannelReach c d → ChannelStep d e → ChannelReach c e

abbrev HasThreeLong : ZincConnection → Type 0
HasThreeLong c = (id : List ℕ) → is_login_plugin_channel_opened id c ≡ true → length id ≡ 3

put-HasThreeLong :
    (id channel : List ℕ) (c : ZincConnection)
    → length id ≡ 3
    → HasThreeLong c
    → HasThreeLong
        (record c { opened_login_plugin_channels = put id channel c.opened_login_plugin_channels })
unfolding is_login_plugin_channel_opened
put-HasThreeLong id channel c is_three v k e =
    ground (arith, same_text_iff id k, find-put k id channel c.opened_login_plugin_channels, v k)

open-HasThreeLong :
    (ids : List (List ℕ)) (channel : List ℕ) (n : ℕ) (c d : ZincConnection)
    → AreThreeLong ids
    → HasThreeLong c
    → open_login_plugin_channel ids channel c ≡ some (n, d)
    → HasThreeLong d
unfolding open_login_plugin_channel is_login_plugin_channel_opened
open-HasThreeLong [] channel n c d three v e = absurd cc
open-HasThreeLong (id ∷ ids) channel n c d (is_three, three) v e =
    elim (Bool-cases (is_login_plugin_channel_opened id c)) [
      | inl used ↦
          open-HasThreeLong ids channel n c d three v
            (sym (rw (used, open_login_plugin_channel) refl) ∙ e)
      | inr fresh ↦
          let opened : open_login_plugin_channel (id ∷ ids) channel c
              ≡ some (
                from_memory (take 3 id),
                record c {
                  opened_login_plugin_channels = put id channel c.opened_login_plugin_channels;
                },
              ) =
            rw (fresh, open_login_plugin_channel) refl in
          subst HasThreeLong (state_eq {v = n} (sym opened ∙ e))
            (put-HasThreeLong id channel c is_three v)
    ]

close-HasThreeLong :
    (id : List ℕ) (c : ZincConnection)
    → HasThreeLong c
    → HasThreeLong (close_login_plugin_channel id c)
unfolding close_login_plugin_channel is_login_plugin_channel_opened
close-HasThreeLong id c v k e =
    ground (arith, same_text_iff id k, find-erase k id c.opened_login_plugin_channels, v k)

Reach-HasThreeLong : {c d : ZincConnection} → HasThreeLong c → ChannelReach c d → HasThreeLong d
Reach-HasThreeLong v here = v
Reach-HasThreeLong v (next r (opens ids channel n three e)) =
    open-HasThreeLong ids channel n _ _ three (Reach-HasThreeLong v r) e
Reach-HasThreeLong v (next r (closes id e)) =
    subst HasThreeLong (sym e) (close-HasThreeLong id _ (Reach-HasThreeLong v r))

true-ne-false : ◌≡◌ {A = Bool} true false → ⊥
true-ne-false e = cc

-- However channels are opened, with ids of three bytes, and closed on a new connection, no id of four
-- bytes is ever open: the four bytes that the handler reads of a response name no channel.
pub response_unknown :
    {c d : ZincConnection} (id : List ℕ)
    → c.opened_login_plugin_channels ≡ []
    → ChannelReach c d
    → length id ≡ 4
    → is_login_plugin_channel_opened id d ≡ false
unfolding is_login_plugin_channel_opened find
response_unknown {c} {d} id none_yet r long =
    elim (Bool-cases (is_login_plugin_channel_opened id d)) [
      | inl opened ↦ absurd (omega (arith, long, Reach-HasThreeLong nothing_open r id opened))
      | inr closed ↦ closed
    ]
  where
    nothing_open : HasThreeLong c
    nothing_open k e = absurd (true-ne-false (sym e ∙ ap (contains k) none_yet))
