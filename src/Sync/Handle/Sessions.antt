-- ===== src/Sync/Handle/Sessions.antt =====
-- Whole sessions: connections, messages and losses of the connection in any order.
use cmf_watch_pro_2_os.Base.{◌≡◌, refl, List, [], ◌∷◌, Option, some, ◌>>=◌}
use cmf_watch_pro_2_os.Json.{Json}
use cmf_watch_pro_2_os.State.{WatchState}
use cmf_watch_pro_2_os.Protocol.Messages.{Message}
use cmf_watch_pro_2_os.Sync.Snapshots.Candidate.{Fills, Fills-trans}
use cmf_watch_pro_2_os.Sync.Mutations.Sound.{kept}
use cmf_watch_pro_2_os.Sync.Buffer.{Sync}
use cmf_watch_pro_2_os.Sync.Handle.{connected, disconnected, handle}
use cmf_watch_pro_2_os.Sync.Handle.Service.{IsServing, init-IsServing, waiting, handle-Served}

-- The calls that the runtime makes of the service.
pub data Event : Type 0 where
  connects disconnects : Event
  arrives : Message → Event

pub disconnected-IsServing : (sync : Sync) → IsServing (disconnected sync)
unfolding disconnected
disconnected-IsServing sync = record {
  words = init-IsServing.words;
  sound = init-IsServing.sound;
  slots = init-IsServing.slots;
  idle = λ x. refl;
}

module _ (json : Json) where
  unfoldable pub step : Event → Sync × WatchState → Option (Sync × WatchState)
  step connects (sync, s) = some (connected sync, s)
  step disconnects (sync, s) = some (disconnected sync, s)
  step (arrives message) (sync, s) = do
    (result, sync', s') ← handle json sync s message
    some (sync', s')

  unfoldable pub run : List Event → Sync × WatchState → Option (Sync × WatchState)
  unfolding step
  run [] c = some c
  run (e ∷ es) c = step e c >>= run es

  -- What a part of a session comes to.
  abbrev pub Kept : WatchState → Option (Sync × WatchState) → Type 0
  Kept s o = (out : Sync × WatchState) × (o ≡ some out) × IsServing out.0 × Fills s out.1

  step-Kept :
      (e : Event) (sync : Sync) (s : WatchState) → IsServing sync → Kept s (step e (sync, s))
  unfolding step connected
  step-Kept connects sync s h = ((connected sync, s), refl, waiting sync h, kept s)
  step-Kept disconnects sync s h =
      ((disconnected sync, s), refl, disconnected-IsServing sync, kept s)
  step-Kept (arrives message) sync s h =
      let (out, e, p) = handle-Served json sync s message h in
      ((out.1, out.2), rw (e, step) refl, p.serving, p.fills)

  -- A session from a service in order, with any connections, losses of the connection and messages in
  -- any order, never gets stuck: it comes to a service in order again, and to a state in which what the
  -- watch owns is unchanged and which is safe to show if the first one was.
  pub run-IsServing :
      (es : List Event) (sync : Sync) (s : WatchState)
      → IsServing sync
      → (out : Sync × WatchState) × (run es (sync, s) ≡ some out) × IsServing out.0 × Fills s out.1
  unfolding run
  run-IsServing [] sync s h = ((sync, s), refl, h, kept s)
  run-IsServing (e ∷ es) sync s h =
      let (mid, first, serving, fills) = step-Kept e sync s h in
      let (out, rest, serving', fills') = run-IsServing es mid.0 mid.1 serving in
      (out, rw (first, run) rest, serving', Fills-trans fills fills')
