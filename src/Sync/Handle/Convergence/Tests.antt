-- ===== src/Sync/Handle/Convergence/Tests.antt =====
-- A run of the service against a host.
use cmf_watch_pro_2_os.Base.{ℕ, ◌*◌, ◌≡◌, refl, true, false, codes, List, [], ◌∷◌, some, arith}
use cmf_watch_pro_2_os.Base.Int.{pos}
use cmf_watch_pro_2_os.State
use cmf_watch_pro_2_os.State.{WatchState, Screen, ConnectionState}
use cmf_watch_pro_2_os.Sync.Mutations.{Mutation, Change}
use cmf_watch_pro_2_os.Sync.Buffer.{Sync}
use cmf_watch_pro_2_os.Sync.Handle
use cmf_watch_pro_2_os.Sync.Handle.Service.{init-IsServing}
use cmf_watch_pro_2_os.Sync.Handle.Convergence.{at}
use cmf_watch_pro_2_os.Sync.Handle.Convergence.Host.{HostData, Shown, host_change}
use cmf_watch_pro_2_os.Sync.Handle.Convergence.Deliveries.{
  Delivery, mutation, snapshot, connects, disconnects, browses_on, turns_to, notes, take_all,
  take_all-current,
}

abbrev waits : ℕ → ℕ → Mutation
waits revision n = record { occupied = true; revision = revision; change = Change.steps n }

-- A host whose steps are ten times its revision.
abbrev steps_log : ℕ → Change
steps_log r = Change.steps (r * 10)

-- The host's data at its start: the watch has the same.
abbrev origin : HostData
origin = record {
  temperature = pos 28;
  condition = codes "Clear";
  title = codes "Nothing playing";
  playing = false;
  steps = 7421;
  total = 0;
  cards = [];
}

-- What is parsed of a snapshot.
abbrev walked : ℕ → WatchState
walked n = record (State.init) { steps = n }

init-Shown : Shown origin (State.init)
init-Shown = record {
  temperature = refl;
  condition = refl;
  title = refl;
  playing = refl;
  steps = refl;
  total = refl;
  cards = refl;
}

first-Shown : Shown (at origin steps_log 1) (walked 10)
unfolding host_change
first-Shown = record {
  temperature = refl;
  condition = refl;
  title = refl;
  playing = refl;
  steps = refl;
  total = refl;
  cards = refl;
}

third-Shown : Shown (at origin steps_log 3) (walked 30)
unfolding host_change
third-Shown = record {
  temperature = refl;
  condition = refl;
  title = refl;
  playing = refl;
  steps = refl;
  total = refl;
  cards = refl;
}

-- A mutation is early and another comes twice; one is lost, and a snapshot makes up for it.
abbrev deliveries : List Delivery
deliveries =
    connects
    ∷ mutation (waits 2 20)
    ∷ snapshot 1 (walked 10)
    ∷ browses_on
    ∷ turns_to Screen.music
    ∷ mutation (waits 2 20)
    ∷ mutation (waits 4 40)
    ∷ disconnects
    ∷ connects
    ∷ snapshot 3 (walked 30)
    ∷ notes ConnectionState.online false 5000
    ∷ mutation (waits 4 40)
    ∷ []

take_all-current_example :
    (out : Sync × WatchState) × (take_all origin steps_log deliveries (Handle.init, State.init)
      ≡ some out)
    × Shown (at origin steps_log out.0.revision) out.1
take_all-current_example =
    take_all-current origin steps_log deliveries Handle.init (State.init)
      (
        (omega arith, refl),
        (
          first-Shown,
          ((omega arith, refl), ((omega arith, refl), (third-Shown, ((omega arith, refl), tt)))),
        ),
      )
      (record {
        words = init-IsServing.words;
        agrees = λ q c g. absurd (ground arith);
        current = init-Shown;
      })
