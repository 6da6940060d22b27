-- ===== src/Runtime/Health/Actions.antt =====
-- The optimistic action changes only what the host owns.
use cmf_watch_pro_2_os.Base.{
  ℕ, ◌≡◌, refl, false, List, arith, ltb, not, ◌||◌, codes, inl, inr, Bool-cases,
}
use cmf_watch_pro_2_os.State.{WatchState, notification_next, notification_previous}
use cmf_watch_pro_2_os.State.Browse.{browse-IsBrowsable}
use cmf_watch_pro_2_os.Actions.{
  Actions, begin_music, fail, handle_result, poll_timeout, set_feedback, answers,
  payload_contains_status, elapsed, action_timeout_ms,
}
use cmf_watch_pro_2_os.Protocol.Messages.{Message}
use cmf_watch_pro_2_os.Runtime.Messages.{abandon}
use cmf_watch_pro_2_os.Sync.Mutations.Sound.{kept}
use cmf_watch_pro_2_os.Sync.Snapshots.Candidate.{Fills}

pub fail-Fills : (a : Actions) (s : WatchState) (text : List ℕ) → Fills s (fail a s text).1
unfolding fail set_feedback
fail-Fills a s text = record { owned = ground arith; safe = λ h. ground arith }

pub pending-fail :
    (a : Actions) (s : WatchState) (text : List ℕ) → (fail a s text).0.pending ≡ false
unfolding fail
pending-fail a s text = ground arith

pub begin_music-Fills : (a : Actions) (s : WatchState) (now : ℕ) → Fills s (begin_music a s now).1
unfolding begin_music set_feedback
begin_music-Fills a s now = record { owned = ground arith; safe = λ h. ground arith }

pub handle_result-Fills :
    (a : Actions) (s : WatchState) (m : Message) → Fills s (handle_result a s m).1
unfolding handle_result set_feedback
handle_result-Fills a s m = elim (Bool-cases (answers a m)) [
  | inr b ↦ rw (b) (kept s)
  | inl b ↦ elim (Bool-cases (payload_contains_status m (codes "ok"))) [
    | inl ok ↦ rw (b, ok) (record { owned = refl; safe = λ h. ground arith })
    | inr ko ↦ rw (b, ko) (fail-Fills a s (codes "ACTION REJECTED"))
  ]
]

pub poll_timeout-Fills : (a : Actions) (s : WatchState) (now : ℕ) → Fills s (poll_timeout a s now).1
unfolding poll_timeout
poll_timeout-Fills a s now =
    elim (Bool-cases (not a.pending || ltb (elapsed a now) action_timeout_ms)) [
      | inl b ↦ rw (b) (kept s)
      | inr b ↦ rw (b) (fail-Fills a s (codes "ACTION TIMEOUT"))
    ]

-- Without a pending action there is no timeout.
pub poll_timeout-idle :
    (a : Actions) (s : WatchState) (now : ℕ)
    → a.pending ≡ false
    → (poll_timeout a s now).0.pending ≡ false
unfolding poll_timeout
poll_timeout-idle a s now h = ground arith

pub next-Fills : (s : WatchState) → Fills s (notification_next s).0
unfolding notification_next
next-Fills s = record {
  owned = ground arith;
  safe = λ h. ground (arith, (browse-IsBrowsable s h.browsable).0);
}

pub previous-Fills : (s : WatchState) → Fills s (notification_previous s).0
unfolding notification_previous
previous-Fills s = record {
  owned = ground arith;
  safe = λ h. ground (arith, (browse-IsBrowsable s h.browsable).1);
}

-- What becomes of an action when the connection is lost.
pub abandoned :
    (a : Actions) (s : WatchState) → Fills s (abandon a s).1 × ((abandon a s).0.pending ≡ false)
abandoned a s = elim (Bool-cases a.pending) [
  | inl b ↦
      simp (b) (fail-Fills a s (codes "HOST OFFLINE"), pending-fail a s (codes "HOST OFFLINE"))
  | inr b ↦ simp (b) (kept s, refl)
]
