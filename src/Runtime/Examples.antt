-- ===== src/Runtime/Examples.antt =====
-- The theorems about src/runtime.rs at clones that are dropped, at builders, and at settings that are
-- made twice.
use rs_run.Base.{
  ◌≡◌, refl, true, false, ok, err, ltb, decimal, digits, digit, [], ◌∷◌, if◌then◌else◌, ◌==◌,
  Returns, arith,
}
use Prim.Native.String.{String, ◌++◌}
use rs_run.Host.Samples.{crews, crews-IsTokio}
use rs_run.Host.Tokio.{Crew, Prometheus}
use rs_run.Runtime.{Builder, shared, is_up, builder, default, built, build}
use rs_run.Runtime.Launch.{underscored, register_collector, Launched, launched, launch}
use rs_run.Runtime.Names.{number_of, runtime_id, name_tells}
use rs_run.Runtime.Settings.{
  workers, blocking, keep_alive, named, threads_named, want_all, set_all, at_first, BuiltAs,
  settings_build, Setting,
}
use rs_run.Base.{List}
use rs_run.Runtime.Shutdown.{Use, cloned, dropped, uses, uses_shut_down}

abbrev history : List Use
history = cloned ∷ dropped ∷ cloned ∷ dropped ∷ dropped ∷ dropped ∷ []

uses_shut_down_example :
    let s = uses history (shared true) in
    (is_up s ≡ ltb 0 s.strong) × (s.signals ≡ (if s.strong == 0 then 1 else 0))
uses_shut_down_example = uses_shut_down true history

three_hundred : decimal 300 ≡ "300"
unfolding decimal digits digit
three_hundred = refl

-- A registry that lists the names of its collectors.
abbrev listing : Prometheus Crew
listing = record {
  Registry = List String;
  PromError = Unit {0};
  register = λ name handle registry. (ok tt, name ∷ registry);
}

-- The runtime of the builder that comes after 300 others.
abbrev numbered : Builder crews
numbered = (builder crews (runtime_id crews 300)).0

abbrev numbered_launched : Launched crews listing
numbered_launched = record {
  runtime = record {
    name = numbered.runtime_name;
    handle = record numbered.builder { threads = numbered.thread_name };
  };
  shared = shared true;
  keeper = numbered.thread_name ++ "-blocker";
}

launches :
    launch crews listing 0 true numbered []
    ≡ (ok numbered_launched, underscored numbered.runtime_name ∷ [])
unfolding launch launched build built register_collector
launches = refl

name_tells_example :
    (number_of numbered.runtime_name ≡ 300)
    × (number_of numbered_launched.runtime.name ≡ 300)
    × (collector : String) × (number_of collector ≡ 300)
    × (underscored numbered.runtime_name ∷ [] ≡ collector ∷ [])
name_tells_example =
    name_tells crews 300 listing 0 true [] (underscored numbered.runtime_name ∷ []) numbered
      numbered_launched (omega arith) refl launches

-- A registry that refuses everything.
abbrev full : Prometheus Crew
full = record {
  Registry = Unit {0};
  PromError = Unit {0};
  register = λ name handle registry. (err tt, registry);
}

abbrev twice : List Setting
twice =
    workers 4
    ∷ named "a"
    ∷ blocking 9
    ∷ keep_alive 5
    ∷ threads_named "t"
    ∷ workers 2
    ∷ named "b"
    ∷ []

settings_build_example : Returns (set_all crews twice (default crews 3)) (λ b.
    (b.thread_name ≡ (want_all twice (at_first crews 3)).threads)
    × BuiltAs crews full false tt
        (want_all twice (at_first crews 3))
        (launch crews full 0 false b tt))
settings_build_example = settings_build crews crews-IsTokio full twice 3 0 false tt (omega arith)
