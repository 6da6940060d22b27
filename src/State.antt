-- ===== src/State.antt =====
-- watch/src/state/watch_state.h and watch_state.c: the central state of the watch.
-- A `char` array is the text before its terminator, an array of structs a list of its slots.
pub mod Browse
mod Tests
use cmf_watch_pro_2_os.Base.{
  ℕ, ◌+◌, ◌-◌, ◌%◌, ◌≡◌, refl, Bool, true, false, List, [], ◌∷◌, arith, leb, ◌==◌, if◌then◌else◌,
  replicate, codes,
}
use cmf_watch_pro_2_os.Base.Int.{ℤ, pos}

-- `enum watch_screen`; `count` is WATCH_SCREEN_COUNT, which is no page.
pub data Screen : Type 0 where
  home notifications music assistant settings count : Screen

-- The value of an enumerator, and the conversion back.
abbrev pub to_nat : Screen → ℕ
to_nat Screen.home = 0
to_nat Screen.notifications = 1
to_nat Screen.music = 2
to_nat Screen.assistant = 3
to_nat Screen.settings = 4
to_nat Screen.count = 5

abbrev pub of_nat : ℕ → Screen
of_nat n =
    if n == 0
    then Screen.home
    else if n == 1
    then Screen.notifications
    else if n == 2
    then Screen.music
    else if n == 3
    then Screen.assistant
    else if n == 4
    then Screen.settings
    else Screen.count

-- `enum watch_connection_state`
pub data ConnectionState : Type 0 where
  offline connecting online : ConnectionState

abbrev pub notification_capacity : ℕ
notification_capacity = 4

pub record Notification : Type 0 where
  pub title : List ℕ
  pub body : List ℕ

pub record NotificationList : Type 0 where
  pub total_count : ℕ
  pub stored_count : ℕ
  pub active_index : ℕ
  pub entries : List Notification

pub record WatchState : Type 0 where
  pub active_screen : Screen
  pub connection : ConnectionState
  pub battery_percent : ℕ
  pub steps : ℕ
  pub temperature_c : ℤ
  pub time_text : List ℕ
  pub day_text : List ℕ
  pub date_text : List ℕ
  pub weather_condition : List ℕ
  pub music_title : List ℕ
  pub music_playing : Bool
  pub music_action_pending : Bool
  pub music_action_feedback : List ℕ
  pub notifications : NotificationList
  pub host_data_stale : Bool
  pub host_data_updated_at_ms : ℕ

abbrev pub blank_notification : Notification
blank_notification = record { title = []; body = [] }

-- The list after `memset(&state->notifications, 0, …)`.
abbrev pub no_notifications : NotificationList
no_notifications = record {
  total_count = 0;
  stored_count = 0;
  active_index = 0;
  entries = replicate notification_capacity blank_notification;
}

abbrev pub reset_host_owned : WatchState → WatchState
reset_host_owned s = record s {
  steps = 0;
  temperature_c = pos 0;
  weather_condition = codes "Unavailable";
  music_title = codes "Nothing playing";
  music_playing = false;
  music_action_pending = false;
  music_action_feedback = [];
  notifications = no_notifications;
  host_data_stale = false;
  host_data_updated_at_ms = 0;
}

-- The members that the initialiser leaves out are zero; `reset_host_owned` then sets them.
abbrev initial : WatchState
initial = record {
  active_screen = Screen.home;
  connection = ConnectionState.offline;
  battery_percent = 72;
  steps = 7421;
  temperature_c = pos 28;
  time_text = codes "21:45";
  day_text = codes "THU";
  date_text = codes "SEP 24";
  weather_condition = [];
  music_title = [];
  music_playing = false;
  music_action_pending = false;
  music_action_feedback = [];
  notifications = no_notifications;
  host_data_stale = false;
  host_data_updated_at_ms = 0;
}

abbrev pub init : WatchState
init = record (reset_host_owned initial) {
  steps = 7421;
  temperature_c = pos 28;
  weather_condition = codes "Clear";
}

-- `active_index` is a uint8_t; the sum in the test is an `unsigned int`.
unfoldable pub notification_next : WatchState → WatchState × Bool
notification_next s =
    if leb s.notifications.stored_count (s.notifications.active_index + 1) then (s, false) else (
      record s {
        notifications = record (s.notifications) {
          active_index = (s.notifications.active_index + 1) % 256;
        };
      },
      true,
    )

unfoldable pub notification_previous : WatchState → WatchState × Bool
notification_previous s = if s.notifications.active_index == 0 then (s, false) else (
  record s {
    notifications = record (s.notifications) { active_index = s.notifications.active_index - 1 };
  },
  true,
)

unfoldable pub set_screen : WatchState → Screen → WatchState
set_screen s screen = record s { active_screen = screen }

unfoldable pub screen_name : Screen → List ℕ
screen_name Screen.home = codes "home"
screen_name Screen.notifications = codes "notifications"
screen_name Screen.music = codes "music"
screen_name Screen.assistant = codes "assistant"
screen_name Screen.settings = codes "settings"
screen_name _ = codes "unknown"
