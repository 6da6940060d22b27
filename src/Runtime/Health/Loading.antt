-- ===== src/Runtime/Health/Loading.antt =====
-- What the cache gives at the start.
use cmf_watch_pro_2_os.Base.{
  ℕ, ◌≤◌, ◌<◌, ◌≡◌, ◌≢◌, refl, sym, subst, ◌∙◌, inl, inr, Bool, true, false, List, Option, none,
  some, arith, length, Result, ok, err, Errno, length-set, get_elem?-set_self, Option-cases, set,
}
use cmf_watch_pro_2_os.State.{WatchState, Screen, ConnectionState, notification_capacity}
use cmf_watch_pro_2_os.State.Browse.{EntriesFit}
use cmf_watch_pro_2_os.Navigation.{Navigation, current, replace, top_index}
use cmf_watch_pro_2_os.Navigation.Bounds.{IsBounded, top_index-eq, store-some}
use cmf_watch_pro_2_os.Sync.Snapshots.Candidate.{IsSafe}
use cmf_watch_pro_2_os.Cache.Record.{CacheRecord, Layout}
use cmf_watch_pro_2_os.Cache.Operations.{restore}
use cmf_watch_pro_2_os.Cache.Restore.{restore-safe}
use cmf_watch_pro_2_os.Cache.Restore.Texts.{restore-Kept}
use cmf_watch_pro_2_os.Cache.Storage.{load, accept, cache_path, Reading, Files}
use cmf_watch_pro_2_os.Transport.Link.{System}
use cmf_watch_pro_2_os.Runtime.{Device, Board}
use cmf_watch_pro_2_os.Runtime.Loop.{replaced, restored, loaded}
use cmf_watch_pro_2_os.Runtime.Health.{Placed, At}

-- A record has its 4 notification slots, stores no more notifications than it counts, and has a
-- terminator in the title and the body of each slot.
abbrev pub Slotted : CacheRecord → Type 0
Slotted c =
    (length c.notifications.entries ≡ notification_capacity)
    × (c.notifications.stored_count ≤ c.notifications.total_count)
    × EntriesFit c.notifications.entries

pub load-read :
    {F : Type 0} (layout : Layout) (files : Files F) (variable : Option (List ℕ)) (fs : F)
    (c : CacheRecord)
    → load layout files variable fs ≡ ok c
    → (path : List ℕ) × (r : Reading) × (files.read path fs ≡ some r) × (r.candidate ≡ c)
unfolding load accept
load-read layout files variable fs c e = elim (Option-cases (cache_path variable)) [
  | inl n ↦ absurd (ground arith)
  | inr (path, p) ↦ elim (Option-cases (files.read path fs)) [
    | inl n ↦ absurd (ground arith)
    | inr (r, q) ↦ (path, r, q, ground arith)
  ]
]

replace-current :
    (nav : Navigation) (screen : Screen)
    → IsBounded nav
    → (nav' : Navigation) × (replace nav screen ≡ some nav')
      × (current nav' ≡ some screen)
      × IsBounded nav'
unfolding replace current
replace-current nav screen v =
    let inside : top_index nav < length nav.stack = omega (arith, v, top_index-eq v) in
    (
      record nav { stack = set nav.stack (top_index nav) screen },
      store-some nav (top_index nav) screen inside,
      get_elem?-set_self nav.stack (top_index nav) screen inside,
      record {
        slots = length-set nav.stack (top_index nav) screen ∙ v.slots;
        used = v.used;
        fits = v.fits;
      },
    )

module _ {W : Type 0} (board : Board W) (layout : Layout) where
  restored_with :
      (out : WatchState × Bool) (sys : System Device W)
      → At none sys
      → IsSafe out.0
      → out.0.active_screen ≢ Screen.count
      → (out.1 ≡ false → out.0.active_screen ≡ sys.app.state.active_screen)
      → out.0.connection ≡ ConnectionState.offline
      → At none (restored board layout out sys)
  unfolding restored
  restored_with (s, false) sys (at, ((h, p, (c, y)), i)) safe page same offline = (
    at,
    (
      (
        record {
          safe = safe;
          bounded = h.bounded;
          serving = h.serving;
          near = h.near;
          sound = h.sound;
        },
        subst (λ x. Placed sys.app.navigation x) (sym (same refl)) p,
        (offline, y),
      ),
      i,
    ),
  )
  restored_with (s, true) sys (at, ((h, p, (c, y)), i)) safe page same offline =
      let (nav, e, top, bounded) = replace-current sys.app.navigation s.active_screen h.bounded in
      subst
        (λ x.
          At none (replaced board layout x (record sys { app = record (sys.app) { state = s } })))
        (sym e)
        (
          at,
          (
            (
              record {
                safe = safe;
                bounded = bounded;
                serving = h.serving;
                near = h.near;
                sound = h.sound;
              },
              (top, page),
              (offline, y),
            ),
            i,
          ),
        )

  -- A state that the cache gives.
  restored-At :
      (cache : CacheRecord) (sys : System Device W)
      → Slotted cache
      → At none sys
      → At none (
          restored board layout
            (restore layout cache sys.app.state)
            (record sys { app = record (sys.app) { cache = cache } }))
  restored-At cache sys (slots, counted, fit) (at, ((h, p, (c, y)), i)) =
      let (browsable, page, _) =
        restore-safe layout cache sys.app.state slots counted h.safe.browsable p.1 in
      let (condition, title, same, offline, texts) =
        restore-Kept layout cache sys.app.state h.safe.condition h.safe.title h.safe.texts fit in
      restored_with (restore layout cache sys.app.state)
        (record sys { app = record (sys.app) { cache = cache } }) (at, ((h, p, (c, y)), i))
        (record { condition = condition; title = title; browsable = browsable; texts = texts }) page
        same (offline c)

  pub loaded-At :
      (result : Result Errno CacheRecord) (sys : System Device W)
      → ((c : CacheRecord) → result ≡ ok c → Slotted c)
      → At none sys
      → At none (loaded board layout result sys)
  unfolding loaded
  loaded-At (ok cache) sys slotted h = restored-At cache sys (slotted cache refl) h
  loaded-At (err Errno.ebadmsg) sys slotted h = h
  loaded-At (err _) sys slotted h = h
