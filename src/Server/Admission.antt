-- ===== src/Server/Admission.antt =====
-- Whom the server will refuse at the login.
use zinc.Common.{
  ℕ, ◌-◌, ◌^◌, ◌<◌, ◌≡◌, refl, ap, ◌∙◌, arith, Bool, true, false, not, Option, none, some, List,
  length, if◌then◌else◌, leb, ltb, subst, ◌+◌,
}
use zinc.Common.Maps.{Key, number_key, text_key, find, put, find-put, same_self}
use zinc.Common.Ordered.{tally}
use zinc.Connection.{int_ltb}
use zinc.Server.{
  Client, Security, ZincServer, is_connected, is_limited, is_too_early, one_more, kick_at_login,
  admitted, admit, add_client,
}
use zinc.Server.Counts.{has_ip, entry, IsConsistent, length-tally}

-- Signed comparison with the new count is comparison with the count before.
crowded_lem :
    (limit n : ℕ)
    → limit < 2 ^ 31
    → n < 2 ^ 31 - 1
    → int_ltb limit (one_more (entry n)) ≡ leb limit n
crowded_lem limit n small room = ground arith

unconnected : (fd : ℕ) (s : ZincServer) → find fd s.clients ≡ none → is_connected fd s ≡ false
unfolding is_connected
unconnected fd s unknown = ground arith

added :
    (g : Security) (now fd : ℕ) (client : Client) (s : ZincServer)
    → find fd s.clients ≡ none
    → add_client g now fd client s ≡ admit g now fd client s
unfolding add_client
added g now fd client s unknown =
    ap (λ q. if not q then admit g now fd client s else s) (unconnected fd s unknown)

find-put_same {ℓ κ} :
    {K : Type ℓ} {V : Type κ} ⦃e : Key K⦄ (k : K) (v : V) (m : List (K × V))
    → find k (put k v m) ≡ some v
find-put_same k v m = find-put k k v m ∙ ap (λ q. if q then some v else find k m) (same_self k)

seen_at :
    (limited : Bool) (now : ℕ) (ip : List ℕ) (seen : List (List ℕ × ℕ))
    → find ip (if limited then seen else put ip now seen)
      ≡ (if limited then find ip seen else some now)
seen_at true now ip seen = refl
seen_at false now ip seen = find-put_same ip now seen

-- With a limit that is negative as an `int` the address must have been let in that long after the present.
abbrev pub came_soon : ℕ → ℕ → Option ℕ → Bool
came_soon limit now none = false
came_soon limit now (some since) =
    if ltb limit (2 ^ 31) then leb now (since + limit) else leb (now + (2 ^ 32 - limit)) since

too_early_lem :
    (limit now : ℕ) (seen : Option ℕ)
    → limit < 2 ^ 32
    → now < 2 ^ 62
    → ((since : ℕ) → seen ≡ some since → since < 2 ^ 62)
    → is_too_early limit now seen ≡ came_soon limit now seen
too_early_lem limit now none small early bounded = refl
too_early_lem limit now (some since) small early bounded =
    let since_early = bounded since refl in ground arith

abbrev IsMarked : Security → ℕ → ℕ → Client → ZincServer → Bool → Type 0
IsMarked g now fd client s limited =
    let t : ZincServer = add_client g now fd client s in
    (find fd t.clients
      ≡ some (record client {
        connection = record client.connection {
          kick_at_login =
              if leb g.max_concurrent_account (tally (has_ip client.ip) s.clients)
              then 2
              else (if limited then 1 else client.connection.kick_at_login);
        };
      }))
    × (find client.ip t.rate_limiter_data
        ≡ (if limited then find client.ip s.rate_limiter_data else some now))

-- What `add_client` leaves, by the test of the code.
marked_lem :
    (g : Security) (now fd : ℕ) (client : Client) (s : ZincServer)
    → IsConsistent s
    → find fd s.clients ≡ none
    → length s.clients < 2 ^ 31 - 1
    → g.max_concurrent_account < 2 ^ 31
    → IsMarked g now fd client s (is_limited g now client.ip s)
unfolding admit
marked_lem g now fd client s v unknown room small =
    let limited = is_limited g now client.ip s in
    let n = tally (has_ip client.ip) s.clients in
    let crowded =
      ap (λ o. int_ltb g.max_concurrent_account (one_more o)) (v.accounts client.ip)
      ∙ crowded_lem g.max_concurrent_account n small
          (omega (arith, length-tally (has_ip client.ip) s.clients)) in
    let enters = added g now fd client s unknown in
    (
      ap (λ t. find fd t.clients) enters
          ∙ (find-put_same fd (admitted g now client s) s.clients
              ∙ ap
                  (λ q. some (record client {
                    connection = record client.connection {
                      kick_at_login = kick_at_login limited q client.connection.kick_at_login;
                    };
                  }))
                  crowded),
      ap (λ t. find client.ip t.rate_limiter_data) enters
          ∙ seen_at limited now client.ip s.rate_limiter_data,
    )

-- On a server whose counters are right a client with a new socket is kept under it, marked for refusal: with
-- 2 where its address has as many clients as the limit allows, and else with 1 where the address was let in
-- and no more seconds have gone since than the rate limit, an `int` that may be negative, or else as it
-- was; and the time at which the address was let in is the present, unless it was too early. Times are
-- below 2 ^ 62.
pub add_client_lem :
    (g : Security) (now fd : ℕ) (client : Client) (s : ZincServer)
    → IsConsistent s
    → find fd s.clients ≡ none
    → length s.clients < 2 ^ 31 - 1
    → g.max_concurrent_account < 2 ^ 31
    → g.rate_limit < 2 ^ 32
    → now < 2 ^ 62
    → ((since : ℕ) → find client.ip s.rate_limiter_data ≡ some since → since < 2 ^ 62)
    → (let t : ZincServer = add_client g now fd client s in
        let soon : Bool = came_soon g.rate_limit now (find client.ip s.rate_limiter_data) in
        (find fd t.clients
          ≡ some (record client {
            connection = record client.connection {
              kick_at_login =
                  if leb g.max_concurrent_account (tally (has_ip client.ip) s.clients)
                  then 2
                  else (if soon then 1 else client.connection.kick_at_login);
            };
          }))
        × (find client.ip t.rate_limiter_data
            ≡ (if soon then find client.ip s.rate_limiter_data else some now)))
add_client_lem g now fd client s v unknown room small limit_small early bounded =
    subst (IsMarked g now fd client s)
      (too_early_lem g.rate_limit now (find client.ip s.rate_limiter_data) limit_small early
        bounded)
      (marked_lem g now fd client s v unknown room small)
