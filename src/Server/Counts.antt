-- ===== src/Server/Counts.antt =====
-- What it means that the counters of the server agree with its clients, and how each map counts.
use zinc.Common.{
  ℕ, ◌+◌, ◌-◌, ◌^◌, ◌<◌, ◌≤◌, ◌≡◌, refl, ap, arith, Bool, true, false, Option, none, some, List, [],
  ◌∷◌, length, if◌then◌else◌, ◌==◌,
}
use zinc.Common.Maps.{
  number_key, text_key, same_text, same_text_iff, find, put, erase, find-put, find-erase,
}
use zinc.Common.Ordered.{IsOrdered, bit, tally, counted, tally-put, tally-erase}
use zinc.Connection.{State, config, play}
use zinc.Server.{Client, ZincServer, one_more, one_less, leave}

-- The states after the login.
abbrev pub is_entered : State → Bool
is_entered config = true
is_entered play = true
is_entered _ = false

abbrev pub has_ip : List ℕ → Client → Bool
has_ip ip c = same_text c.ip ip

abbrev pub finished : Client → Bool
finished c = c.connection.login_finished

-- An address without clients has no entry.
abbrev pub entry : ℕ → Option ℕ
entry n = if n == 0 then none else some n

-- The clients of an address and the players are counted, and the players are the clients that have left
-- the login behind.
pub record IsConsistent (s : ZincServer) : Type 0 where
  pub ordered : IsOrdered s.clients
  pub accounts : (ip : List ℕ) → find ip s.concurrent_accounts ≡ entry (tally (has_ip ip) s.clients)
  pub players : s.online_players ≡ tally finished s.clients
  pub small : length s.clients < 2 ^ 31
  pub entered :
      (fd : ℕ) (c : Client)
      → find fd s.clients ≡ some c
      → c.connection.login_finished ≡ is_entered c.connection.state

pub length-tally : {V : Type 0} (p : V → Bool) (m : List (ℕ × V)) → tally p m ≤ length m
length-tally p [] = omega arith
length-tally p ((j, w) ∷ m) = ground (arith, length-tally p m)

-- A value is put in the place of one that counts the same.
pub tally-same :
    {V : Type 0} (p : V → Bool) (k : ℕ) (v w : V) (m : List (ℕ × V))
    → IsOrdered m
    → find k m ≡ some w
    → p v ≡ p w
    → tally p (put k v m) ≡ tally p m
tally-same p k v w m o known same =
    omega (arith, tally-put p k v m o, ap (counted p) known, ap bit same)

-- A new client is one more of its address, and of no other.
pub add-accounts :
    (ip : List ℕ) (fd : ℕ) (client : Client) (s : ZincServer)
    → IsConsistent s
    → find fd s.clients ≡ none
    → length s.clients < 2 ^ 31 - 1
    → find ip
        (put client.ip (one_more (find client.ip s.concurrent_accounts)) s.concurrent_accounts)
      ≡ entry (tally (has_ip ip) (put fd client s.clients))
add-accounts ip fd client s v unknown room = ground (
  arith,
  same_text_iff client.ip ip,
  find-put ip client.ip (one_more (find client.ip s.concurrent_accounts)) s.concurrent_accounts,
  v.accounts ip,
  v.accounts client.ip,
  length-tally (has_ip ip) s.clients,
  tally-put (has_ip ip) fd client s.clients v.ordered,
  ap (counted (has_ip ip)) unknown,
)

-- A client that leaves is one less.
pub leave-accounts :
    (ip : List ℕ) (fd : ℕ) (client : Client) (s : ZincServer)
    → IsConsistent s
    → find fd s.clients ≡ some client
    → find ip (leave client.ip s.concurrent_accounts)
      ≡ entry (tally (has_ip ip) (erase fd s.clients))
leave-accounts ip fd client s v known =
    let n = tally (has_ip client.ip) s.clients in
    let self = same_text_iff client.ip client.ip in
    let found = v.accounts client.ip in
    let one = tally-erase (has_ip client.ip) fd s.clients v.ordered in
    let there = ap (counted (has_ip client.ip)) known in
    let value : one_less (elim (find client.ip s.concurrent_accounts) [ none ↦ 0 | some n ↦ n ])
        ≡ n - 1 =
      ground (arith, self, found, one, there, v.small, length-tally (has_ip client.ip) s.clients) in
    ground (
      arith,
      same_text_iff client.ip ip,
      self,
      found,
      one,
      there,
      value,
      find-put ip client.ip (n - 1) s.concurrent_accounts,
      find-erase ip client.ip s.concurrent_accounts,
      v.accounts ip,
      tally-erase (has_ip ip) fd s.clients v.ordered,
      ap (counted (has_ip ip)) known,
    )

tally_all : {V : Type 0} (m : List (ℕ × V)) → tally (λ _. true) m ≡ length m
tally_all [] = refl
tally_all ((j, w) ∷ m) = omega (arith, tally_all m)

pub length-put :
    {V : Type 0} (k : ℕ) (v : V) (m : List (ℕ × V))
    → IsOrdered m
    → length (put k v m) ≤ length m + 1
length-put k v m o =
    omega (arith, tally_all m, tally_all (put k v m), tally-put (λ _. true) k v m o)

pub length-put_known :
    {V : Type 0} (k : ℕ) (v w : V) (m : List (ℕ × V))
    → IsOrdered m
    → find k m ≡ some w
    → length (put k v m) ≡ length m
length-put_known k v w m o known =
    omega (arith, tally_all m, tally_all (put k v m), tally-same (λ _. true) k v w m o known refl)

pub length-erase :
    {V : Type 0} (k : ℕ) (m : List (ℕ × V)) → IsOrdered m → length (erase k m) ≤ length m
length-erase k m o =
    omega (arith, tally_all m, tally_all (erase k m), tally-erase (λ _. true) k m o)
