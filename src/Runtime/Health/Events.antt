-- ===== src/Runtime/Health/Events.antt =====
-- The transport's events, and with them both its callbacks, keep the watch running.
use cmf_watch_pro_2_os.Base.{
  ℕ, ◌≡◌, refl, sym, subst, inl, inr, true, false, none, some, ltb, Bool-cases,
}
use cmf_watch_pro_2_os.Json.{Json}
use cmf_watch_pro_2_os.State.{WatchState, ConnectionState}
use cmf_watch_pro_2_os.Actions.{Actions}
use cmf_watch_pro_2_os.Sync.Handle.{connected, disconnected}
use cmf_watch_pro_2_os.Sync.Handle.Service.{waiting}
use cmf_watch_pro_2_os.Sync.Handle.Sessions.{disconnected-IsServing}
use cmf_watch_pro_2_os.Sync.Snapshots.Candidate.{Fills}
use cmf_watch_pro_2_os.Cache.Record.{Layout}
use cmf_watch_pro_2_os.Transport.Link.{System, TransportEvent}
use cmf_watch_pro_2_os.Transport.Kept.{Keeps}
use cmf_watch_pro_2_os.Runtime.{Device, Board}
use cmf_watch_pro_2_os.Runtime.Messages.{
  abandon, go_offline, mark_cached, handle_transport_event, callbacks,
}
use cmf_watch_pro_2_os.Runtime.Health.{
  Placed, Running, At, refresh_if_ready-At, store_stale-At, screen-Fills,
}
use cmf_watch_pro_2_os.Runtime.Health.Actions.{abandoned}
use cmf_watch_pro_2_os.Runtime.Health.Messages.{noted, handle_protocol_message-At}

module _ {W : Type 0} (board : Board W) (layout : Layout) where
  -- The socket has been closed.
  hung_up-At :
      (fd : ℕ) (sys : System Device W) (actions : Actions) (state : WatchState)
      → sys.link.socket_fd ≡ none
      → Running (some fd) sys.app
      → Fills sys.app.state state × (actions.pending ≡ false)
      → At none (record sys {
        app = record (sys.app) {
          actions = actions;
          state = record state { connection = ConnectionState.offline };
          sync = disconnected sys.app.sync;
        };
      })
  unfolding disconnected
  hung_up-At fd sys actions state at ((h, p, c), i) (f, idle) = (
    at,
    (
      (
        record {
          safe = noted state (f.safe h.safe);
          bounded = h.bounded;
          serving = disconnected-IsServing sys.app.sync;
          near = h.near;
          sound = h.sound;
        },
        subst (λ x. Placed sys.app.navigation x) (sym (screen-Fills f)) p,
        (refl, refl),
      ),
      idle,
    ),
  )

  mark_cached-At : (sys : System Device W) → At none sys → At none (mark_cached board layout sys)
  unfolding mark_cached
  mark_cached-At sys (at, ((h, p, c), i)) =
      elim (Bool-cases (ltb 0 sys.app.cache.weather_meta.version)) [
        | inl b ↦ rw (b) (
            store_stale-At board layout none
              (record sys {
                app = record (sys.app) {
                  state = record (sys.app.state) { host_data_stale = true };
                };
              })
              (
                at,
                (
                  (
                    record {
                      safe = noted sys.app.state h.safe;
                      bounded = h.bounded;
                      serving = h.serving;
                      near = h.near;
                      sound = h.sound;
                    },
                    p,
                    c,
                  ),
                  i,
                ),
              ))
        | inr b ↦ rw (b) (at, ((h, p, c), i))
      ]

  connected-At :
      (fd : ℕ) (sys : System Device W)
      → sys.link.socket_fd ≡ some fd
      → Running none sys.app
      → At (some fd) (handle_transport_event board layout TransportEvent.connected sys)
  unfolding handle_transport_event connected
  connected-At fd sys at ((h, p, c), i) =
      refresh_if_ready-At board (some fd)
        (record sys {
          app = record (sys.app) {
            state = record (sys.app.state) { connection = ConnectionState.connecting };
            sync = connected sys.app.sync;
          };
        })
        (
          at,
          (
            (
              record {
                safe = noted sys.app.state h.safe;
                bounded = h.bounded;
                serving = waiting sys.app.sync h.serving;
                near = h.near;
                sound = h.sound;
              },
              p,
              λ e. cc,
            ),
            tt,
          ),
        )

  disconnected-At :
      (fd : ℕ) (sys : System Device W)
      → sys.link.socket_fd ≡ none
      → Running (some fd) sys.app
      → At none (handle_transport_event board layout TransportEvent.disconnected sys)
  unfolding handle_transport_event
  disconnected-At fd sys at r =
      refresh_if_ready-At board none (mark_cached board layout (go_offline board layout sys)) (
        mark_cached-At (go_offline board layout sys) (
          hung_up-At fd sys (abandon sys.app.actions sys.app.state).0
            (abandon sys.app.actions sys.app.state).1 at r
            (abandoned sys.app.actions sys.app.state)))

  pub callbacks-Keeps : (json : Json) → Keeps board.net (callbacks board layout json) Running
  callbacks-Keeps json = record {
    message = λ m sys fd e r. handle_protocol_message-At board layout json fd m sys (e, r);
    connected = λ sys fd e r. connected-At fd sys e r;
    disconnected = λ sys fd e r. disconnected-At fd sys e r;
  }
