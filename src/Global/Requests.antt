-- ===== src/Global/Requests.antt =====
-- What a process asks of src/global.rs, one after the other, and what shall come of it.
use Prim.Native.String.{String}
use rs_run.Base.{ℕ, List, [], ◌∷◌, ◌++◌, Outcome, done, panicked}
use rs_run.Host.Tokio.{Tokio}
use rs_run.Runtime.{
  Runtime, How, spawned, spawned_blocking, blocked_on, Handed, spawn, spawn_blocking, block_on,
}
use rs_run.Global.{
  RuntimeOptions, hb_workers, Makings, Pool, read_pool, write_pool, bg_pool, hb_pool, Globals,
  initial, init_global_runtimes, World, spawn_in, get_runtime,
}

pub data Request : Type 0 where
  init : Makings → RuntimeOptions → Request
  spawns : How → Pool → ℕ → Makings → Request
  gets : How → Pool → ℕ → Makings → Request

-- How many workers the options give to a pool, and the name of its runtime.
unfoldable pub size_of : RuntimeOptions → Pool → ℕ
size_of o read_pool = o.read_rt_size
size_of o write_pool = o.write_rt_size
size_of o bg_pool = o.bg_rt_size
size_of o hb_pool = hb_workers

unfoldable pub name_of : Pool → String
name_of read_pool = "global-read"
name_of write_pool = "global-write"
name_of bg_pool = "global-bg"
name_of hb_pool = "global-hb"

-- Work that arrived: the name of its runtime, the workers of that, the way and the work.
abbrev pub Arrival : Type 0
Arrival = String × ℕ × How × ℕ

-- What shall arrive, in order.
unfoldable pub arrivals : RuntimeOptions → List Request → List Arrival
arrivals o [] = []
arrivals o (init m o' ∷ qs) = arrivals o qs
arrivals o (spawns how pool work m ∷ qs) = (name_of pool, size_of o pool, how, work) ∷ arrivals o qs
arrivals o (gets how pool work m ∷ qs) = (name_of pool, size_of o pool, how, work) ∷ arrivals o qs

-- The work is given to the runtime itself: `Runtime::spawn` and its like.
unfoldable pub give : {X : Tokio} → How → ℕ → Runtime X → Handed X
give {X = X} spawned work r = spawn X r work
give {X = X} spawned_blocking work r = spawn_blocking X r work
give {X = X} blocked_on work r = block_on X r work

module _ (X : Tokio) where
  -- As `bg_runtime().spawn(work)` does.
  unfoldable pub given_to : How → ℕ → World X → Outcome (Runtime X) × Globals X → World X
  given_to how work w (done r, globals) = record {
    globals = globals;
    handed = w.handed ++ give how work r ∷ [];
  }
  given_to how work w (panicked, globals) = record w { globals = globals }

  unfoldable pub serve : Request → World X → World X
  serve (init m o) w = record w { globals = (init_global_runtimes X m o w.globals).1 }
  serve (spawns how pool work m) w = (spawn_in X how pool work m w).1
  serve (gets how pool work m) w = given_to how work w (get_runtime X pool m w.globals)

  unfoldable pub serve_all : List Request → World X → World X
  serve_all [] w = w
  serve_all (q ∷ qs) w = serve_all qs (serve q w)

  abbrev pub arrived : Handed X → Arrival
  arrived h = (h.runtime.name, (X.crew h.runtime.handle).workers, h.how, h.work)

  abbrev pub at_first : World X
  at_first = record { globals = initial X; handed = [] }
