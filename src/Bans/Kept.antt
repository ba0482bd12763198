-- ===== src/Bans/Kept.antt =====
-- What a ban does to the search, and what ending it does not.
use zinc.Common.{
  ℕ, suc, ◌+◌, ◌≤◌, ◌≡◌, refl, ap, sym, ◌∙◌, arith, Bool, true, false, ◌&&◌, Option, none, some,
  List, [], ◌∷◌, ◌++◌, map, length, length-append, length-drop, append_assoc, drop, if◌then◌else◌,
}
use zinc.Common.Slices.{drop-append_le}
use zinc.Common.Maps.{same_text}
use zinc.Bans.{
  BanData, others, remove_if, unban_name, unban_uuid, unban_ip, Player, is_banned_by, matched_ban,
}

abbrev pub is_found : Option BanData → Bool
is_found none = false
is_found (some _) = true

-- A ban anywhere in the list is enough.
found-append :
    (online_mode : Bool) (player : Player) (xs : List BanData) (x : BanData)
    → is_banned_by online_mode player x ≡ true
    → is_found (matched_ban online_mode player (xs ++ (x ∷ []))) ≡ true
unfolding matched_ban
found-append online_mode player [] x h = ground arith
found-append online_mode player (y ∷ xs) x h =
    ground (arith, found-append online_mode player xs x h)

length-others : (p : BanData → Bool) (xs : List BanData) → length (others p xs) ≤ length xs
length-others p [] = omega arith
length-others p (x ∷ xs) = ground (arith, length-others p xs)

length-map : (f : BanData → BanData) (xs : List BanData) → length (map f xs) ≡ length xs
length-map f [] = refl
length-map f (x ∷ xs) = ap suc (length-map f xs)

map-append :
    (f : BanData → BanData) (xs ys : List BanData) → map f (xs ++ ys) ≡ map f xs ++ map f ys
map-append f [] ys = refl
map-append f (x ∷ xs) ys = ap (λ t. f x ∷ t) (map-append f xs ys)

-- The last element passes the test, so it is not among the others.
others-append :
    (p : BanData → Bool) (xs : List BanData) (x : BanData)
    → p x ≡ true
    → others p (xs ++ (x ∷ [])) ≡ others p xs
others-append p [] x h = ground arith
others-append p (y ∷ xs) x h = ground (arith, others-append p xs x h)

length-drop_le : (n : ℕ) (xs : List BanData) → n ≤ length xs → n + length (drop n xs) ≡ length xs
length-drop_le n xs h = omega (arith, length-drop n xs)

length-remove_if :
    (moved_from : BanData → BanData) (p : BanData → Bool) (xs : List BanData)
    → length (remove_if moved_from p xs) ≡ length xs
unfolding remove_if
length-remove_if moved_from p xs =
    let marked = map (λ x. if p x then x else moved_from x) xs in
    let len = length-map (λ x. if p x then x else moved_from x) xs in
    omega (
      arith,
      len,
      length-append (others p xs) (drop (length (others p xs)) marked),
      length-drop_le (length (others p xs)) marked (omega (arith, len, length-others p xs)),
    )

-- A last element that passes the test stays the last.
remove_if-last :
    (moved_from : BanData → BanData) (p : BanData → Bool) (xs : List BanData) (x : BanData)
    → p x ≡ true
    → (ys : List BanData) × (remove_if moved_from p (xs ++ (x ∷ [])) ≡ ys ++ (x ∷ []))
unfolding remove_if
remove_if-last moved_from p xs x h =
    let f : BanData → BanData = λ x. if p x then x else moved_from x in
    let kept = others p xs in
    let room = length-others p xs in
    (
      kept ++ drop (length kept) (map f xs),
      ap (λ t. t ++ drop (length t) (map f (xs ++ (x ∷ [])))) (others-append p xs x h)
          ∙ (ap (λ t. kept ++ t)
                (ap (drop (length kept)) (map-append f xs (x ∷ []))
                  ∙ (drop-append_le (length kept) (map f xs) (f x ∷ [])
                        (omega (arith, room, length-map f xs))
                      ∙ ap (λ t. drop (length kept) (map f xs) ++ (t ∷ []))
                          (ap (λ q. if q then x else moved_from x) h)))
              ∙ sym (append_assoc kept (drop (length kept) (map f xs)) (x ∷ []))),
    )

pub data Unban : Type 0 where
  by_name by_uuid by_ip : List ℕ → Unban

-- The bans that an `unban` or `unbanIp` is to end.
abbrev pub ends : Unban → BanData → Bool
ends (by_name name) ban = same_text ban.player_name name
ends (by_uuid uuid) ban = same_text ban.player_uuid uuid
ends (by_ip ip) ban = same_text ban.player_ip ip && ban.is_ip_ban

abbrev pub unban : (BanData → BanData) → Unban → List BanData → List BanData
unban moved_from (by_name name) = unban_name moved_from name
unban moved_from (by_uuid uuid) = unban_uuid moved_from uuid
unban moved_from (by_ip ip) = unban_ip moved_from ip

unban_lem :
    (moved_from : BanData → BanData) (u : Unban) (bans : List BanData)
    → unban moved_from u bans ≡ remove_if moved_from (ends u) bans
unfolding unban_name unban_uuid unban_ip
unban_lem moved_from (by_name name) bans = refl
unban_lem moved_from (by_uuid uuid) bans = refl
unban_lem moved_from (by_ip ip) bans = refl

-- Whatever moving from a ban leaves of it: a ban that was added last is not lifted by any of the three ways
-- to end it. The player is still found among the bans, of which there are as many as before.
pub unban_still_banned :
    (moved_from : BanData → BanData) (online_mode : Bool) (player : Player) (u : Unban)
    (bans : List BanData) (x : BanData)
    → ends u x ≡ true
    → is_banned_by online_mode player x ≡ true
    → (is_found (matched_ban online_mode player (unban moved_from u (bans ++ (x ∷ [])))) ≡ true)
      × (length (unban moved_from u (bans ++ (x ∷ []))) ≡ length (bans ++ (x ∷ [])))
unban_still_banned moved_from online_mode player u bans x ended banned =
    let same = unban_lem moved_from u (bans ++ (x ∷ [])) in
    let (ys, left) = remove_if-last moved_from (ends u) bans x ended in
    (
      ap (λ t. is_found (matched_ban online_mode player t)) (same ∙ left)
          ∙ found-append online_mode player ys x banned,
      ap length same ∙ length-remove_if moved_from (ends u) (bans ++ (x ∷ [])),
    )
