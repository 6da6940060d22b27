-- ===== src/State/Browse.antt =====
-- Browsing the stored notifications.
use cmf_watch_pro_2_os.Base.{
  ℕ, zero, suc, ◌+◌, ◌≤◌, ◌<◌, ◌≡◌, ◌⊎◌, ◌↔◌, true, false, List, [], ◌∷◌, arith, length, set,
}
use cmf_watch_pro_2_os.State.{
  Notification, NotificationList, WatchState, notification_capacity, init, notification_next,
  notification_previous,
}

-- The counts fit the array, and the active entry is stored, unless none is.
pub record IsBrowsable (l : NotificationList) : Type 0 where
  pub slots : length l.entries ≡ notification_capacity
  pub stored : l.stored_count ≤ notification_capacity
  pub counted : l.stored_count ≤ l.total_count
  pub active : ((l.stored_count ≡ 0) × (l.active_index ≡ 0)) ⊎ (l.active_index < l.stored_count)

pub init-IsBrowsable : IsBrowsable (init.notifications)
init-IsBrowsable = ground arith

-- The two texts of each entry leave room for their terminators in `title` and `body`.
unfoldable pub EntriesFit : List Notification → Type 0
EntriesFit [] = Unit
EntriesFit (n ∷ ns) = ((length n.title < 48) × (length n.body < 96)) × EntriesFit ns

pub EntriesFit-set :
    (ns : List Notification) (i : ℕ) (n : Notification)
    → (length n.title < 48) × (length n.body < 96)
    → EntriesFit ns
    → EntriesFit (set ns i n)
unfolding EntriesFit
EntriesFit-set [] i n h v = tt
EntriesFit-set (m ∷ ns) zero n h v = (h, v.1)
EntriesFit-set (m ∷ ns) (suc i) n h v = (v.0, EntriesFit-set ns i n h v.1)

pub init-EntriesFit : EntriesFit (init.notifications.entries)
unfolding EntriesFit
init-EntriesFit = (
  (omega arith, omega arith),
  ((omega arith, omega arith), ((omega arith, omega arith), ((omega arith, omega arith), tt))),
)

-- Both ways of browsing keep the list well formed.
pub browse-IsBrowsable :
    (s : WatchState)
    → IsBrowsable s.notifications
    → IsBrowsable (notification_next s).0.notifications
      × IsBrowsable (notification_previous s).0.notifications
unfolding notification_next notification_previous
browse-IsBrowsable s v = ground arith

-- On a well-formed list `notification_next` reports true exactly when another stored entry follows,
-- it then moves to that entry, and `notification_previous` brings back the whole state; where it
-- reports false the state is unchanged.
pub previous-next :
    (s : WatchState)
    → IsBrowsable s.notifications
    → (((notification_next s).1 ≡ true)
        ↔ (s.notifications.active_index + 1 < s.notifications.stored_count))
      × ((notification_next s).1 ≡ true
          → ((notification_next s).0.notifications.active_index ≡ s.notifications.active_index + 1)
            × (notification_previous (notification_next s).0 ≡ (s, true)))
      × ((notification_next s).1 ≡ false → (notification_next s).0 ≡ s)
unfolding notification_next notification_previous
previous-next s v = ground arith
