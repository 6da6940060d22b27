-- ===== src/Sync/Handle/Convergence/Deliveries.antt =====
-- Everything that can reach the watch of such a host, in any order, and what the user and the runtime
-- do in between.
use cmf_watch_pro_2_os.Base.{ℕ, ◌≡◌, refl, Bool, List, [], ◌∷◌, Option, some, arith, ◌>>=◌}
use cmf_watch_pro_2_os.State.{
  WatchState, Screen, ConnectionState, notification_next, notification_previous, set_screen,
}
use cmf_watch_pro_2_os.Sync.Mutations.{Mutation, Change}
use cmf_watch_pro_2_os.Sync.Buffer.{Sync}
use cmf_watch_pro_2_os.Sync.Handle.{handle_mutation, handle_snapshot, connected, disconnected}
use cmf_watch_pro_2_os.Sync.Handle.Service.{init-IsServing}
use cmf_watch_pro_2_os.Sync.Handle.Convergence.{
  at, Follows, IsTrue, handle_mutation-Follows, handle_snapshot-Follows,
}
use cmf_watch_pro_2_os.Sync.Handle.Convergence.Host.{HostData, Shown}

-- What can reach the watch of a host: a mutation, a snapshot of a revision with what is parsed of it,
-- the start and the loss of a connection. What the watch does itself: the user browses the
-- notifications, a page is turned, and the runtime notes the connection and the age of the data.
pub data Delivery : Type 0 where
  mutation : Mutation → Delivery
  snapshot : ℕ → WatchState → Delivery
  connects disconnects browses_on browses_back : Delivery
  turns_to : Screen → Delivery
  notes : ConnectionState → Bool → ℕ → Delivery

abbrev noted : ConnectionState → Bool → ℕ → WatchState → WatchState
noted c stale t s = record s {
  connection = c;
  host_data_stale = stale;
  host_data_updated_at_ms = t;
}

next-Shown : {d : HostData} {s : WatchState} → Shown d s → Shown d (notification_next s).0
unfolding notification_next
next-Shown h = record {
  temperature = ground (arith, h.temperature);
  condition = ground (arith, h.condition);
  title = ground (arith, h.title);
  playing = ground (arith, h.playing);
  steps = ground (arith, h.steps);
  total = ground (arith, h.total);
  cards = ground (arith, h.cards);
}

previous-Shown : {d : HostData} {s : WatchState} → Shown d s → Shown d (notification_previous s).0
unfolding notification_previous
previous-Shown h = record {
  temperature = ground (arith, h.temperature);
  condition = ground (arith, h.condition);
  title = ground (arith, h.title);
  playing = ground (arith, h.playing);
  steps = ground (arith, h.steps);
  total = ground (arith, h.total);
  cards = ground (arith, h.cards);
}

paged-Shown :
    {d : HostData} {s : WatchState} (screen : Screen) → Shown d s → Shown d (set_screen s screen)
unfolding set_screen
paged-Shown screen h = record {
  temperature = h.temperature;
  condition = h.condition;
  title = h.title;
  playing = h.playing;
  steps = h.steps;
  total = h.total;
  cards = h.cards;
}

noted-Shown :
    {d : HostData} {s : WatchState} {c : ConnectionState} {stale : Bool} {t : ℕ}
    → Shown d s
    → Shown d (noted c stale t s)
noted-Shown h = record {
  temperature = h.temperature;
  condition = h.condition;
  title = h.title;
  playing = h.playing;
  steps = h.steps;
  total = h.total;
  cards = h.cards;
}

module _ (origin : HostData) (log : ℕ → Change) where
  abbrev pub AllTrue : List Delivery → Type 0
  AllTrue [] = Unit
  AllTrue (mutation m ∷ ds) = IsTrue origin log m × AllTrue ds
  AllTrue (snapshot r candidate ∷ ds) = Shown (at origin log r) candidate × AllTrue ds
  AllTrue (d ∷ ds) = AllTrue ds

  -- The service and the state after a delivery.
  unfoldable pub take_in : Delivery → Sync × WatchState → Option (Sync × WatchState)
  unfolding handle_mutation handle_snapshot connected disconnected notification_next
      notification_previous set_screen
  take_in (mutation m) (sync, s) =
      let (result, sync', s') = handle_mutation sync s m in some (sync', s')
  take_in (snapshot r candidate) (sync, s) = do
    (result, sync', s') ← handle_snapshot sync candidate r
    some (sync', s')
  take_in connects (sync, s) = some (connected sync, s)
  take_in disconnects (sync, s) = some (disconnected sync, s)
  take_in browses_on (sync, s) = some (sync, (notification_next s).0)
  take_in browses_back (sync, s) = some (sync, (notification_previous s).0)
  take_in (turns_to screen) (sync, s) = some (sync, set_screen s screen)
  take_in (notes c stale t) (sync, s) = some (sync, noted c stale t s)

  unfoldable pub take_all : List Delivery → Sync × WatchState → Option (Sync × WatchState)
  unfolding take_in
  take_all [] c = some c
  take_all (d ∷ ds) c = take_in d c >>= take_all ds

  local :
      {sync : Sync} {s s' : WatchState}
      → Follows origin log sync s
      → Shown (at origin log sync.revision) s'
      → Follows origin log sync s'
  local h e = record { words = h.words; agrees = h.agrees; current = e }

  abbrev pub Followed : Option (Sync × WatchState) → Type 0
  Followed o = (out : Sync × WatchState) × (o ≡ some out) × Follows origin log out.0 out.1

  take_in-Followed :
      (d : Delivery) (ds : List Delivery) (sync : Sync) (s : WatchState)
      → AllTrue (d ∷ ds)
      → Follows origin log sync s
      → Followed (take_in d (sync, s))
  unfolding take_in connected disconnected set_screen
  take_in-Followed (mutation m) ds sync s t h =
      (_, refl, handle_mutation-Follows origin log sync s m t.0 h)
  take_in-Followed (snapshot r candidate) ds sync s t h =
      let (out, e, p) = handle_snapshot-Follows origin log sync s candidate r t.0 h in
      ((out.1, out.2), rw (e, take_in) refl, p)
  take_in-Followed connects ds sync s t h =
      (_, refl, record { words = h.words; agrees = h.agrees; current = h.current })
  take_in-Followed disconnects ds sync s t h = (
    _,
    refl,
    record {
      words = init-IsServing.words;
      agrees = λ q c g. absurd (ground arith);
      current = h.current;
    },
  )
  take_in-Followed browses_on ds sync s t h = (_, refl, local h (next-Shown h.current))
  take_in-Followed browses_back ds sync s t h = (_, refl, local h (previous-Shown h.current))
  take_in-Followed (turns_to screen) ds sync s t h =
      (_, refl, local h (paged-Shown screen h.current))
  take_in-Followed (notes c stale now) ds sync s t h = (_, refl, local h (noted-Shown h.current))

  AllTrue-rest : (d : Delivery) (ds : List Delivery) → AllTrue (d ∷ ds) → AllTrue ds
  AllTrue-rest (mutation m) ds t = t.1
  AllTrue-rest (snapshot r candidate) ds t = t.1
  AllTrue-rest connects ds t = t
  AllTrue-rest disconnects ds t = t
  AllTrue-rest browses_on ds t = t
  AllTrue-rest browses_back ds t = t
  AllTrue-rest (turns_to screen) ds t = t
  AllTrue-rest (notes c stale now) ds t = t

  take_all-Followed :
      (ds : List Delivery) (sync : Sync) (s : WatchState)
      → AllTrue ds
      → Follows origin log sync s
      → Followed (take_all ds (sync, s))
  unfolding take_all
  take_all-Followed [] sync s t h = ((sync, s), refl, h)
  take_all-Followed (d ∷ ds) sync s t h =
      let (out, e, p) = take_in-Followed d ds sync s t h in
      let (out', e', p') = take_all-Followed ds out.0 out.1 (AllTrue-rest d ds t) p in
      (out', rw (e, take_all) e', p')

  -- The watch follows its host. The host counts the changes of its data by revisions, and each mutation
  -- that reaches the watch is the host's change of its revision, each snapshot the host's data of its
  -- revision. Then whatever of them reaches the watch, in whatever order, however often and with whatever
  -- losses, however the connection comes and goes, and however the user browses and turns the pages in
  -- between, the service does not get stuck, and the watch has the data that the host had at the
  -- service's revision, with the condition and the title cut to 31 and 63 bytes; if this was so at the
  -- start and what waited were the host's changes. The music action of the user, which is shown before
  -- the host has it, is not among these steps.
  pub take_all-current :
      (ds : List Delivery) (sync : Sync) (s : WatchState)
      → AllTrue ds
      → Follows origin log sync s
      → (out : Sync × WatchState) × (take_all ds (sync, s) ≡ some out)
        × Shown (at origin log out.0.revision) out.1
  take_all-current ds sync s t h =
      let (out, e, p) = take_all-Followed ds sync s t h in (out, e, p.current)
