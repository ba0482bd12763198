-- ===== src/Bans.antt =====
-- The bans of `ZincConfig` in inc/ZincConfig.h and src/ZincConfig.cpp, and how `ZincServer::onRead` of
-- src/network/minecraft/ZincServer.cpp looks for one. The time, the random id and the encoded ids and
-- reasons are arguments; the threads that `unban` starts run one at a time.
pub mod Kept
use zinc.Common.{
  ℕ, Bool, true, false, not, ◌&&◌, ◌||◌, Option, none, some, List, [], ◌∷◌, ◌++◌, map, length, drop,
  replicate, if◌then◌else◌,
}
use zinc.Common.Maps.{same_text}
use zinc.Nbt.{NbtElement}

pub record BanData : Type 0 where
  pub is_ip_ban : Bool
  pub player_ip : List ℕ
  pub player_name : List ℕ
  pub player_uuid : List ℕ
  pub ban_time : ℕ
  pub is_temporaryban : Bool
  pub time : ℕ
  pub reason : NbtElement
  pub ban_id : List ℕ
  pub banned_by : List ℕ

-- What every ban sets; the id of no player is 16 zeros, and the time of a ban for ever is not used.
abbrev pub new_ban : Bool → NbtElement → List ℕ → ℕ → List ℕ → BanData
new_ban is_ip_ban reason banned_by now ban_id = record {
  is_ip_ban = is_ip_ban;
  player_ip = [];
  player_name = [];
  player_uuid = replicate 16 0;
  ban_time = now;
  is_temporaryban = false;
  time = 0;
  reason = reason;
  ban_id = ban_id;
  banned_by = banned_by;
}

abbrev pub for_time : ℕ → BanData → BanData
for_time time data_ = record data_ { is_temporaryban = true; time = time }

module _ (reason : NbtElement) (banned_by : List ℕ) (now : ℕ) (ban_id : List ℕ)
    (bans : List BanData) where
  unfoldable pub ban_name : List ℕ → List BanData
  ban_name player_name =
      bans
      ++ (record (new_ban false reason banned_by now ban_id) { player_name = player_name } ∷ [])

  unfoldable pub ban_uuid : List ℕ → List BanData
  ban_uuid player_uuid =
      bans
      ++ (record (new_ban false reason banned_by now ban_id) { player_uuid = player_uuid } ∷ [])

  unfoldable pub temp_ban_name : List ℕ → ℕ → List BanData
  temp_ban_name player_name time =
      bans
      ++ (for_time time
            (record (new_ban false reason banned_by now ban_id) { player_name = player_name })
          ∷ [])

  unfoldable pub temp_ban_uuid : List ℕ → ℕ → List BanData
  temp_ban_uuid player_uuid time =
      bans
      ++ (for_time time
            (record (new_ban false reason banned_by now ban_id) { player_uuid = player_uuid })
          ∷ [])

  unfoldable pub ban_ip : List ℕ → List BanData
  ban_ip player_ip =
      bans ++ (record (new_ban true reason banned_by now ban_id) { player_ip = player_ip } ∷ [])

  unfoldable pub temp_ban_ip : List ℕ → ℕ → List BanData
  temp_ban_ip player_ip time =
      bans
      ++ (for_time time
            (record (new_ban true reason banned_by now ban_id) { player_ip = player_ip })
          ∷ [])

-- The elements that do not pass the test.
abbrev pub others : (BanData → Bool) → List BanData → List BanData
others p [] = []
others p (x ∷ xs) = let rest = others p xs in if p x then rest else x ∷ rest

-- `std::remove_if` without `erase`: those that do not pass the test are moved to the front, and behind
-- them stands what is left of the list: an element that passes as it was, and in the place of one that was
-- moved what `moved_from` says of it.
unfoldable pub remove_if : (BanData → BanData) → (BanData → Bool) → List BanData → List BanData
remove_if moved_from p xs =
    others p xs ++ drop (length (others p xs)) (map (λ x. if p x then x else moved_from x) xs)

module _ (moved_from : BanData → BanData) where
  unfoldable pub unban_name : List ℕ → List BanData → List BanData
  unban_name player_name bans =
      remove_if moved_from (λ ban. same_text ban.player_name player_name) bans

  unfoldable pub unban_uuid : List ℕ → List BanData → List BanData
  unban_uuid player_uuid bans =
      remove_if moved_from (λ ban. same_text ban.player_uuid player_uuid) bans

  unfoldable pub unban_ip : List ℕ → List BanData → List BanData
  unban_ip player_ip bans =
      remove_if moved_from (λ ban. same_text ban.player_ip player_ip && ban.is_ip_ban) bans

-- A player, as the search for a ban knows it.
pub record Player : Type 0 where
  pub name : List ℕ
  pub uuid : List ℕ
  pub ip : List ℕ

abbrev pub is_banned_by : Bool → Player → BanData → Bool
is_banned_by online_mode player ban_data =
    (same_text player.name ban_data.player_name && not online_mode)
    || ((same_text player.uuid ban_data.player_uuid && online_mode)
        || (same_text player.ip ban_data.player_ip && ban_data.is_ip_ban))

-- The first ban that matches.
unfoldable pub matched_ban : Bool → Player → List BanData → Option BanData
matched_ban online_mode player [] = none
matched_ban online_mode player (ban_data ∷ bans) =
    let rest = matched_ban online_mode player bans in
    if is_banned_by online_mode player ban_data then some ban_data else rest
