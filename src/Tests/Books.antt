-- ===== src/Tests/Books.antt =====
-- Views of the books and texts that are read back, at concrete data.
use pullpilot.Prelude.{◌≡◌, refl, true, false, All, some, List, [], ◌∷◌, ◌*◌, arith}
use pullpilot.Std.Str.{bytes}
use pullpilot.Std.Num.{hour}
use pullpilot.State.Book.{
  Op, see, tell, reject, settle, peek, ask_bad, empty_book, book_run, state_run,
}
use pullpilot.State.Book.Refines.{IsNamed, fresh, state_run_refines}
use pullpilot.State.Soak.{IsName}
use pullpilot.Registry.Header.{Challenge, parse_challenge}
use pullpilot.Registry.Header.Print.{print_challenge, parse_challenge-print}
use pullpilot.Config.Mount.{data_dir_persistent}
use pullpilot.Config.Mount.Fields.{data_dir_persistent_space}
use pullpilot.Engine.Plan.{build_plan}
use pullpilot.Engine.Plan.Preview.{IsSteady, build_plan_preview}
use pullpilot.Engine.Host.{Host}
use pullpilot.Engine.Daemon.Toy.{ToyWorld, toy_host}
use pullpilot.Tests.Data.{engine, host, seen_since, world}

abbrev operations : List Op
operations =
    see (bytes "web") (bytes "a") (1 * hour)
    ∷ see (bytes "web") (bytes "b") (2 * hour)
    ∷ tell (bytes "web") (bytes "a")
    ∷ tell (bytes "web") (bytes "a")
    ∷ reject (bytes "b")
    ∷ settle (bytes "web") (bytes "a")
    ∷ see (bytes "web") (bytes "b") (3 * hour)
    ∷ peek (bytes "web") (bytes "a")
    ∷ ask_bad (bytes "b")
    ∷ []

web-IsName : IsName (bytes "web")
web-IsName = ground arith

operations-IsNamed : All IsNamed operations
operations-IsNamed = (
  web-IsName,
  (
    web-IsName,
    (web-IsName, (web-IsName, (tt, (web-IsName, (web-IsName, (web-IsName, (tt, tt))))))),
  ),
)

state_run_refines_example :
    (state_run (host []).disk operations (fresh (host []).disk (bytes "/data/state.json")) world).0
    ≡ (book_run operations empty_book).0
state_run_refines_example =
    state_run_refines (host []).disk operations (bytes "/data/state.json") world operations-IsNamed

abbrev challenge : Challenge
challenge = record {
  realm = bytes "https://auth.example/token";
  service = bytes "registry.example";
  scope = bytes "repository:a/b:pull,push";
}

parse_challenge-print_example : parse_challenge (print_challenge challenge) ≡ some challenge
parse_challenge-print_example = parse_challenge-print challenge refl refl refl refl

data_dir_persistent_space_example :
    data_dir_persistent (some (bytes "22 1 8:1 / /my\\040data rw")) (bytes "/my data")
    ≡ (false, true)
data_dir_persistent_space_example =
    data_dir_persistent_space (bytes "22 1 8:1 / /my\\040data rw") (bytes "/my data") refl

-- The toy host with a clock that stands still.
abbrev still : Host ToyWorld
still = record (host (bytes "healthy")) { now = λ w. (100 * hour, w) }

still-IsSteady : IsSteady still
unfolding toy_host
still-IsSteady = record {
  repo_digests-Steady = λ image w w'. refl;
  head-Steady = λ url bearer w w'. refl;
  token-Steady = λ realm service scope basic w w'. refl;
  now-Steady = λ w w'. refl;
}

build_plan_preview_example :
    (build_plan still engine false (seen_since 1)).0
    ≡ (build_plan still engine true (seen_since 1)).0
build_plan_preview_example = build_plan_preview still-IsSteady engine (seen_since 1)
