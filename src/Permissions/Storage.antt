-- ===== src/Permissions/Storage.antt =====
-- What the permission cache reads from the database (`services/pg`): queries, given as parameters.
-- Their rows carry the columns that the cache uses.
use verdant_backend.Prelude.{ℕ, Bool, List, Option}
use verdant_backend.AppError.{AppResult}

pub record ServerRow : Type 0 where
  pub id : ℕ
  pub owner_id : ℕ

pub record RoleRow : Type 0 where
  pub id : ℕ
  pub permissions : ℕ
  pub position : ℕ
  pub color_only : Bool

pub record ChannelRow : Type 0 where
  pub id : ℕ
  pub server_id : Option ℕ
  pub channel_type : ℕ

pub record OverrideRow : Type 0 where
  pub channel_id : ℕ
  pub role_id : ℕ
  pub allow_bits : ℕ
  pub deny_bits : ℕ

-- The answers of the database while one operation runs; an error is a failed read.
pub record Storage : Type 0 where
  pub server_by_id : ℕ → AppResult (Option ServerRow)
  pub roles_for_server : ℕ → AppResult (List RoleRow)
  pub channels_for_server : ℕ → AppResult (List ChannelRow)
  pub overrides_for_server : ℕ → AppResult (List OverrideRow)
  pub overrides_for_channel : ℕ → AppResult (List OverrideRow)
  pub channel_by_id : ℕ → AppResult (Option ChannelRow)
  pub role_ids_of : (user_id server_id : ℕ) → AppResult (List ℕ)
  pub is_member : (server_id user_id : ℕ) → AppResult Bool
