-- ===== src/Apps.antt =====
-- watch/src/apps/app_registry.h, app_registry.c and the table in app_registry.generated.inc.
use cmf_watch_pro_2_os.Base.{
  ℕ, ◌≡◌, refl, ◌≢◌, Bool, true, List, [], ◌∷◌, Option, none, some, ltb, ◌==◌, if◌then◌else◌,
  length, get_elem?, codes,
}
use cmf_watch_pro_2_os.State.{Screen, to_nat}

-- `struct watch_app_descriptor`
pub record AppDescriptor : Type 0 where
  pub id : List ℕ
  pub name : List ℕ
  pub version : ℕ
  pub entry : List ℕ
  pub screen : Screen
  pub headline : List ℕ
  pub offline_message : List ℕ
  pub offline_available : Bool

abbrev pub apps : List AppDescriptor
apps =
    record {
      id = codes "home";
      name = codes "Home";
      version = 1;
      entry = codes "overview";
      screen = Screen.home;
      headline = codes "Your day at a glance";
      offline_message = codes "Clock and cached cards remain local.";
      offline_available = true;
    }
    ∷ record {
      id = codes "notifications";
      name = codes "Notifications";
      version = 1;
      entry = codes "inbox";
      screen = Screen.notifications;
      headline = codes "You're all caught up";
      offline_message = codes "Cached notifications remain available.";
      offline_available = true;
    }
    ∷ record {
      id = codes "music";
      name = codes "Music";
      version = 1;
      entry = codes "now_playing";
      screen = Screen.music;
      headline = codes "Nothing playing";
      offline_message = codes "Cached metadata remains available offline.";
      offline_available = true;
    }
    ∷ record {
      id = codes "assistant";
      name = codes "Assistant";
      version = 1;
      entry = codes "prompt";
      screen = Screen.assistant;
      headline = codes "Assistant ready";
      offline_message = codes "Connect the host for AI requests.";
      offline_available = true;
    }
    ∷ record {
      id = codes "settings";
      name = codes "Settings";
      version = 1;
      entry = codes "device";
      screen = Screen.settings;
      headline = codes "Local settings";
      offline_message = codes "Display and device controls stay local.";
      offline_available = true;
    }
    ∷ []

abbrev pub app_count : ℕ
app_count = length apps

unfoldable pub app_at : ℕ → Option AppDescriptor
app_at index = if ltb index app_count then get_elem? apps index else none

-- The loop over `index`: the list is the table from there on.
unfoldable pub find_from : Screen → List AppDescriptor → Option AppDescriptor
find_from screen [] = none
find_from screen (app ∷ rest) =
    if to_nat app.screen == to_nat screen then some app else find_from screen rest

unfoldable pub app_find : Screen → Option AppDescriptor
unfolding find_from
app_find screen = find_from screen apps

-- Every page has its own entry in the table, at the position of its enumerator, and the search for the
-- page finds that entry.
pub app_find-app_at :
    (screen : Screen)
    → screen ≢ Screen.count
    → (app : AppDescriptor) × (app_find screen ≡ some app)
      × (app_at (to_nat screen) ≡ some app)
      × (app.screen ≡ screen)
unfolding app_find app_at
app_find-app_at Screen.home h = (_, refl, refl, refl)
app_find-app_at Screen.notifications h = (_, refl, refl, refl)
app_find-app_at Screen.music h = (_, refl, refl, refl)
app_find-app_at Screen.assistant h = (_, refl, refl, refl)
app_find-app_at Screen.settings h = (_, refl, refl, refl)
app_find-app_at Screen.count h = absurd (h refl)
