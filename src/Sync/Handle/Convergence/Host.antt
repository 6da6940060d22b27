-- ===== src/Sync/Handle/Convergence/Host.antt =====
-- The data of a host, and what it means that the watch has them.
use cmf_watch_pro_2_os.Base.{ℕ, ◌≡◌, refl, Bool, take, List}
use cmf_watch_pro_2_os.Base.Int.{ℤ}
use cmf_watch_pro_2_os.State.{WatchState, Notification}
use cmf_watch_pro_2_os.Sync.Mutations.{Change, apply_change}

-- What a host knows of the data that it owns, with its whole texts: what the watch has room for is
-- said by `Shown`.
pub record HostData : Type 0 where
  pub temperature : ℤ
  pub condition : List ℕ
  pub title : List ℕ
  pub playing : Bool
  pub steps : ℕ
  pub total : ℕ
  pub cards : List Notification

-- A change of the host's data.
unfoldable pub host_change : HostData → Change → HostData
host_change d (Change.temperature t) = record d { temperature = t }
host_change d (Change.weather_condition text) = record d { condition = text }
host_change d (Change.music_title text) = record d { title = text }
host_change d (Change.music_playing flag) = record d { playing = flag }
host_change d (Change.steps n) = record d { steps = n }
host_change d (Change.notifications l) = record d {
  total = l.total_count;
  cards = take l.stored_count l.entries;
}

-- The watch's state has the host's data: its texts as far as the arrays of 32 and 64 bytes hold them,
-- and its stored notifications, whichever of them is active.
pub record Shown (d : HostData) (s : WatchState) : Type 0 where
  pub temperature : s.temperature_c ≡ d.temperature
  pub condition : s.weather_condition ≡ take 31 d.condition
  pub title : s.music_title ≡ take 63 d.title
  pub playing : s.music_playing ≡ d.playing
  pub steps : s.steps ≡ d.steps
  pub total : s.notifications.total_count ≡ d.total
  pub cards : take s.notifications.stored_count s.notifications.entries ≡ d.cards

pub apply_change-Shown :
    (d : HostData) (s : WatchState) (c : Change)
    → Shown d s
    → Shown (host_change d c) (apply_change s c)
unfolding apply_change host_change
apply_change-Shown d s (Change.temperature t) h = record {
  temperature = refl;
  condition = h.condition;
  title = h.title;
  playing = h.playing;
  steps = h.steps;
  total = h.total;
  cards = h.cards;
}
apply_change-Shown d s (Change.weather_condition t) h = record {
  temperature = h.temperature;
  condition = refl;
  title = h.title;
  playing = h.playing;
  steps = h.steps;
  total = h.total;
  cards = h.cards;
}
apply_change-Shown d s (Change.music_title t) h = record {
  temperature = h.temperature;
  condition = h.condition;
  title = refl;
  playing = h.playing;
  steps = h.steps;
  total = h.total;
  cards = h.cards;
}
apply_change-Shown d s (Change.music_playing b) h = record {
  temperature = h.temperature;
  condition = h.condition;
  title = h.title;
  playing = refl;
  steps = h.steps;
  total = h.total;
  cards = h.cards;
}
apply_change-Shown d s (Change.steps n) h = record {
  temperature = h.temperature;
  condition = h.condition;
  title = h.title;
  playing = h.playing;
  steps = refl;
  total = h.total;
  cards = h.cards;
}
apply_change-Shown d s (Change.notifications l) h = record {
  temperature = h.temperature;
  condition = h.condition;
  title = h.title;
  playing = h.playing;
  steps = h.steps;
  total = refl;
  cards = refl;
}
