-- ===== src/Runtime/Settings.antt =====
-- What the settings of a Builder of src/runtime.rs come to.
use Prim.Native.String.{String, ◌++◌}
use rs_run.Base.{
  ℕ, ◌<◌, ◌≡◌, refl, ap, ◌∙◌, Bool, arith, List, [], ◌∷◌, Result, ok, err, Outcome, done, ◌>>=◌,
  Returns, Returns-bind, Returns-map, decimal,
}
use rs_run.Host.Tokio.{Crew, Tokio, IsTokio, Prometheus}
use rs_run.Error.{Error, build_runtime}
use rs_run.Runtime.Launch.{Launched, launched, launch}
use rs_run.Runtime.{
  shared, is_up, hooks, Builder, default, worker_threads, max_blocking_threads, thread_keep_alive,
  runtime_name, thread_name, built, build,
}

-- A call of a setter.
pub data Setting : Type 0 where
  workers : ℕ → Setting
  blocking : ℕ → Setting
  keep_alive : ℕ → Setting
  named : String → Setting
  threads_named : String → Setting

-- What the settings ask for: the last call of each setter counts.
pub record Wanted : Type 0 where
  pub name : String
  pub threads : String
  pub workers : ℕ
  pub blocking : ℕ
  pub keep_alive : ℕ

-- The threads of the runtime that is wanted.
abbrev pub crew_of : Wanted → Crew
crew_of w = record {
  workers = w.workers;
  blocking = w.blocking;
  keep_alive = w.keep_alive;
  threads = w.threads;
}

abbrev pub want : Setting → Wanted → Wanted
want (workers n) w = record w { workers = n }
want (blocking n) w = record w { blocking = n }
want (keep_alive d) w = record w { keep_alive = d }
want (named s) w = record w { name = s }
want (threads_named s) w = record w { threads = s }

unfoldable pub want_all : List Setting → Wanted → Wanted
want_all [] w = w
want_all (s ∷ ss) w = want_all ss (want s w)

-- Zero is no number of threads.
abbrev pub AllPositive : List Setting → Type 0
AllPositive [] = Unit {0}
AllPositive (workers n ∷ ss) = (0 < n) × AllPositive ss
AllPositive (blocking n ∷ ss) = (0 < n) × AllPositive ss
AllPositive (keep_alive d ∷ ss) = AllPositive ss
AllPositive (named s ∷ ss) = AllPositive ss
AllPositive (threads_named s ∷ ss) = AllPositive ss

module _ (X : Tokio) where
  unfoldable pub set : Setting → Builder X → Outcome (Builder X)
  set (workers n) b = worker_threads X n b
  set (blocking n) b = max_blocking_threads X n b
  set (keep_alive d) b = done (thread_keep_alive X d b)
  set (named s) b = done (runtime_name X s b)
  set (threads_named s) b = done (thread_name X s b)

  unfoldable pub set_all : List Setting → Builder X → Outcome (Builder X)
  set_all [] b = done b
  set_all (s ∷ ss) b = do b' ← set s b; set_all ss b'

  -- As `Builder::default` starts.
  abbrev pub at_first : ℕ → Wanted
  at_first id = record {
    name = "runtime-" ++ decimal id;
    threads = "default-worker";
    workers = (X.asked X.new_multi_thread).workers;
    blocking = (X.asked X.new_multi_thread).blocking;
    keep_alive = (X.asked X.new_multi_thread).keep_alive;
  }

  -- A runtime as it is wanted, with its thread, or the error of tokio's `build`.
  abbrev pub BuiltAs :
      (P : Prometheus X.Handle)
      → Bool
      → P.Registry
      → Wanted
      → Result (Launched X P) (Error X.IoError) × P.Registry
      → Type 0
  BuiltAs P kept registry w (ok l, registry') =
      (l.runtime.name ≡ w.name)
      × (X.crew l.runtime.handle ≡ crew_of w)
      × (l.keeper ≡ w.threads ++ "-blocker")
      × (is_up l.shared ≡ kept)
  BuiltAs P kept registry w (err e, registry') =
      ((io : X.IoError) × (e ≡ build_runtime io)) × (registry' ≡ registry)

  abbrev Holds : Wanted → Builder X → Type 0
  Holds w b =
      (b.runtime_name ≡ w.name)
      × (b.thread_name ≡ w.threads)
      × (record (X.asked b.builder) { threads = w.threads } ≡ crew_of w)

  module _ (tokio : IsTokio X) where
    set-Holds :
        (s : Setting) (ss : List Setting) (w : Wanted) (b : Builder X)
        → AllPositive (s ∷ ss)
        → Holds w b
        → Returns (set s b) (Holds (want s w))
    unfolding set worker_threads max_blocking_threads thread_keep_alive runtime_name thread_name
    set-Holds (workers n) ss w b (p, _) (a, c, d) =
        let (b', e, size) = tokio.worker_threads_some n b.builder p in
        rw e (
          a,
          c,
          ap (λ (k : Crew). record k { threads = w.threads }) size
              ∙ ap (λ (k : Crew). record k { workers = n }) d,
        )
    set-Holds (blocking n) ss w b (p, _) (a, c, d) =
        let (b', e, size) = tokio.max_blocking_threads_some n b.builder p in
        rw e (
          a,
          c,
          ap (λ (k : Crew). record k { threads = w.threads }) size
              ∙ ap (λ (k : Crew). record k { blocking = n }) d,
        )
    set-Holds (keep_alive t) ss w b _ (a, c, d) = (
      a,
      c,
      ap (λ (k : Crew). record k { threads = w.threads })
            (tokio.asked-thread_keep_alive t b.builder)
          ∙ ap (λ (k : Crew). record k { keep_alive = t }) d,
    )
    set-Holds (named s) ss w b _ (a, c, d) = (refl, c, d)
    set-Holds (threads_named s) ss w b _ (a, c, d) =
        (a, refl, ap (λ (k : Crew). record k { threads = s }) d)

    rest_positive : (s : Setting) (ss : List Setting) → AllPositive (s ∷ ss) → AllPositive ss
    rest_positive (workers n) ss (_, p) = p
    rest_positive (blocking n) ss (_, p) = p
    rest_positive (keep_alive d) ss p = p
    rest_positive (named s) ss p = p
    rest_positive (threads_named s) ss p = p

    set_all-Holds :
        (ss : List Setting) (w : Wanted) (b : Builder X)
        → AllPositive ss
        → Holds w b
        → Returns (set_all ss b) (Holds (want_all ss w))
    unfolding set_all want_all
    set_all-Holds [] w b p h = h
    set_all-Holds (s ∷ ss) w b p h =
        Returns-bind (Holds (want_all (s ∷ ss) w)) (set s b) (set_all ss) (set-Holds s ss w b p h)
          (λ b' h'. set_all-Holds ss (want s w) b' (rest_positive s ss p) h')

    launch-BuiltAs :
        (P : Prometheus X.Handle) (now : ℕ) (kept : Bool) (registry : P.Registry) (w : Wanted)
        (b : Builder X)
        → Holds w b
        → BuiltAs P kept registry w (launch X P now kept b registry)
    unfolding launch launched build built shared is_up
    launch-BuiltAs P now kept registry w b (a, c, d) = go (X.build now prepared) refl
      where
        prepared : X.RuntimeBuilder
        prepared =
            X.on_threads (hooks b.thread_name)
              (X.thread_name b.thread_name (X.enable_all b.builder))

        size : X.asked prepared ≡ crew_of w
        size =
            tokio.asked-on_threads (hooks b.thread_name) _
            ∙ tokio.asked-thread_name b.thread_name _
            ∙ ap (λ (k : Crew). record k { threads = b.thread_name })
                (tokio.asked-enable_all b.builder)
            ∙ ap (λ (t : String). record (X.asked b.builder) { threads = t }) c
            ∙ d

        go :
            (res : Result X.Handle X.IoError)
            → X.build now prepared ≡ res
            → BuiltAs P kept registry w (launched X P kept b (built X b res) registry)
        go (ok h) e = (
          a,
          tokio.crew-build now prepared h e ∙ size,
          ap (λ threads. threads ++ "-blocker") c,
          ground arith,
        )
        go (err io) e = ((io, refl), refl)

    -- Whatever setters are called on a new builder, in any order and any number of times, none with a
    -- zero: none of them panics, the last call of each setter counts, and `build` returns a runtime
    -- with the name, the number of workers, the limit of the blocking threads, the time after which an
    -- idle one of these ends and the name of threads that are asked for then (where a setter was not
    -- called, with the names of `Builder::default` and the numbers that tokio starts with), whatever
    -- prometheus answers, or the error BuildRuntime and no collector. The thread that keeps the runtime
    -- is named after its threads; `build` returns the runtime without that thread as well, but then it is
    -- not up.
    pub settings_build :
        (P : Prometheus X.Handle) (ss : List Setting) (id now : ℕ) (kept : Bool)
        (registry : P.Registry)
        → AllPositive ss
        → Returns (set_all ss (default X id)) (λ b.
          (b.thread_name ≡ (want_all ss (at_first id)).threads)
          × BuiltAs P kept registry (want_all ss (at_first id)) (launch X P now kept b registry))
    unfolding default
    settings_build P ss id now kept registry p =
        Returns-map (set_all ss (default X id))
          (λ b h. (h.1, launch-BuiltAs P now kept registry (want_all ss (at_first id)) b h))
          (set_all-Holds ss (at_first id) (default X id) p (refl, refl, refl))
