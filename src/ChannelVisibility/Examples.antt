-- ===== src/ChannelVisibility/Examples.antt =====
-- The theorems on visibility at one user that is in the server and does not see the channel.
use Prim.Native.String.{String}
use verdant_backend.Prelude.{nat_eq, string_eq, ◌≡◌, refl, true, false, List, [], ◌∷◌, none, some}
use verdant_backend.Prelude.Dict
use verdant_backend.Prelude.HashSet
use verdant_backend.Prelude.HashSet.{contains}
use verdant_backend.AppError.{ok}
use verdant_backend.Permissions.Types.{PermissionCache}
use verdant_backend.Permissions.Compute.{compute_permissions, has_channel_permission}
use verdant_backend.Permissions.Viewers.{collect_online_channel_viewers}
use verdant_backend.Websocket.Manager
use verdant_backend.Websocket.Manager.{add_connection}
use verdant_backend.Websocket.Sets.{IsOwned, IsOwned-add_connection}
use verdant_backend.Websocket.Delivery.{get_user_conn_ids}
use verdant_backend.Websocket.Topics.{Hub, all_channel_topics}
use verdant_backend.Websocket.Topics.Leaving.{subscribes}
use verdant_backend.ChannelVisibility.{
  ChannelRow, ChannelVisibilityDelta, Publication, reconcile_single_channel_visibility,
}
use verdant_backend.ChannelVisibility.Losing.{reconcile_single-lost}

abbrev hub : Hub
hub = record {
  ws = add_connection Manager.new 7 1 100;
  redis_topics = [];
  redis_answers = λ n topic. true;
  redis_calls = 0;
}

abbrev general : ChannelRow
general = record {
  id = 50;
  channel_type = 3;
  server_id = some 5;
  name = some "general";
  topic = none;
  position = 0;
  category_id = none;
  read_only = false;
  slowmode_seconds = 0;
  created_at = 0;
}

abbrev cache : PermissionCache
cache = record {
  channel_index = (50, 5) ∷ [];
  servers = [];
  cleanup_timers = [];
  users =
      (7, record { server_ids = 5 ∷ []; member_roles = []; dm_channel_ids = []; last_active = 0 })
      ∷ [];
}

hub-IsOwned : IsOwned hub.ws
hub-IsOwned = IsOwned-add_connection Manager.new 7 1 100 refl (λ c u. refl)

not_seen : contains 7 (collect_online_channel_viewers cache 5 50) ≡ false
unfolding collect_online_channel_viewers has_channel_permission compute_permissions
not_seen = refl

connected : contains 1 (get_user_conn_ids hub.ws 7) ≡ true
unfolding get_user_conn_ids add_connection Dict.modify Dict.or_insert HashSet.insert
connected = refl

reconcile_single-lost_example :
    (delta : ChannelVisibilityDelta) × (h' : Hub) × (sent : List Publication)
    × (reconcile_single_channel_visibility cache hub general (7 ∷ 8 ∷ []) ≡ ok (delta, (h', sent)))
    × ((t : String) → contains t (all_channel_topics 50) ≡ true → subscribes h'.ws 1 t ≡ false)
reconcile_single-lost_example =
    reconcile_single-lost cache hub general (7 ∷ 8 ∷ []) 5 7 1 hub-IsOwned refl refl not_seen
      connected
