-- ===== src/Navigation/Tests.antt =====
-- Witnesses and runs of the navigation's operations.
use cmf_watch_pro_2_os.Base.{
  ℕ, ◌≤◌, ◌<◌, ◌≡◌, refl, ◌≢◌, true, List, [], ◌∷◌, ◌++◌, some, arith, replicate, ◌>>=◌,
}
use cmf_watch_pro_2_os.State.{Screen}
use cmf_watch_pro_2_os.Navigation.{Navigation, init, current, push, pop, replace, next, previous}
use cmf_watch_pro_2_os.Navigation.Bounds.{
  IsBounded, Op, pushes, replaces, pops, nexts, previouses, apply, run, run-init-IsBounded,
}
use cmf_watch_pro_2_os.Navigation.Stack.{contents, pop-push}
use cmf_watch_pro_2_os.Navigation.Carousel.{swipes, swipe_cycle}

abbrev blank : Navigation
blank = record { stack = replicate 8 Screen.home; depth = 0 }

abbrev at_music : Navigation
at_music = record { stack = Screen.music ∷ replicate 7 Screen.home; depth = 1 }

abbrev script : List Op
script = pushes Screen.music ∷ nexts ∷ pops ∷ previouses ∷ replaces Screen.settings ∷ []

script_runs : (init blank >>= run script >>= current) ≡ some Screen.settings
unfolding init run apply push pop next previous replace current
script_runs = refl

run-init-IsBounded_example :
    (out : Navigation) × ((init blank >>= run script) ≡ some out) × IsBounded out
run-init-IsBounded_example = run-init-IsBounded blank script refl

pop-push_example :
    (out : Navigation) × (push at_music Screen.settings ≡ some (out, true))
    × (contents out ≡ contents at_music ++ Screen.settings ∷ [])
    × (current out ≡ some Screen.settings)
    × ((pop out).1 ≡ true)
    × (contents (pop out).0 ≡ contents at_music)
pop-push_example = pop-push Screen.settings (omega arith) (omega arith)

at_music_shown : current at_music ≡ some Screen.music
unfolding current
at_music_shown = refl

at_music-IsBounded : IsBounded at_music
at_music-IsBounded = omega arith

music_is_a_page : Screen.music ≢ Screen.count
music_is_a_page e = cc

swipe_cycle_example :
    ((out : Navigation) × (run (swipes 5) at_music ≡ some out) × (current out ≡ some Screen.music))
    × ((n : ℕ) (out : Navigation)
        → 1 ≤ n
        → n < 5
        → run (swipes n) at_music ≡ some out
        → current out ≢ some Screen.music)
swipe_cycle_example = swipe_cycle at_music-IsBounded at_music_shown music_is_a_page
