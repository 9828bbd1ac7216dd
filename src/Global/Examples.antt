-- ===== src/Global/Examples.antt =====
-- The theorems about global.rs at runtimes that know their number of workers.
use rs_run.Base.{ℕ, ◌≡◌, refl, inr, done, panicked, List, [], ◌∷◌, map, Returns, arith}
use rs_run.Host.Samples.{crews, crews-IsTokio, crews_built}
use rs_run.Runtime.{spawned, spawned_blocking, blocked_on}
use rs_run.Global.{
  RuntimeOptions, default_options, Makings, read_pool, bg_pool, hb_pool, GlobalRuntimes, initial,
  init_global_runtimes, force, read_workers, write_workers, bg_workers,
}
use rs_run.Global.Histories.{init_call, use_call, after_all}
use rs_run.Global.Sizes.{Sized, first_init_sizes, init_after_use}
use rs_run.Global.Requests.{
  Request, init, spawns, gets, arrivals, serve_all, arrived, at_first, name_of, size_of,
}
use rs_run.Global.Spawns.{spawns_arrive}
use rs_run.Global.Zero.{zero_size_spoils}

abbrev at : ℕ → Makings
at t = record {
  read = record { id = t; now = t };
  write = record { id = t; now = t };
  bg = record { id = t; now = t };
  hb = record { id = t; now = t };
}

abbrev small : RuntimeOptions
small = record { read_rt_size = 3; write_rt_size = 2; bg_rt_size = 1 }

abbrev large : RuntimeOptions
large = record { read_rt_size = 30; write_rt_size = 20; bg_rt_size = 10 }

abbrev without_bg : RuntimeOptions
without_bg = record small { bg_rt_size = 0 }

first_init_sizes_example :
    ((init_global_runtimes crews (at 1) small (initial crews)).0 ≡ done tt)
    × Returns
        (force crews (at 3) (
          after_all crews (init_call (at 1) small ∷ init_call (at 2) large ∷ []) (initial crews))).0
        (Sized crews crews-IsTokio crews_built 3 2 1)
first_init_sizes_example =
    first_init_sizes crews crews-IsTokio crews_built (at 1) (at 3) small
      (init_call (at 2) large ∷ []) (omega arith) tt

init_after_use_example :
    let used = force crews (at 1) (initial crews) in
    let late = init_global_runtimes crews (at 2) small used.1 in
    (g : GlobalRuntimes crews) × (used.0 ≡ done g)
    × Sized crews crews-IsTokio crews_built read_workers write_workers bg_workers g
    × (late.0 ≡ panicked)
    × ((force crews (at 3) late.1).0 ≡ done g)
init_after_use_example = init_after_use crews crews-IsTokio crews_built (at 1) (at 2) (at 3) small

one_processor : (default_options 1).bg_rt_size ≡ 1
unfolding default_options
one_processor = refl

zero_size_spoils_example :
    let first = init_global_runtimes crews (at 1) without_bg (initial crews) in
    let s = after_all crews (use_call (at 2) ∷ init_call (at 3) small ∷ []) first.1 in
    (first.0 ≡ panicked)
    × ((force crews (at 4) s).0 ≡ panicked)
    × ((init_global_runtimes crews (at 5) large s).0 ≡ panicked)
zero_size_spoils_example =
    zero_size_spoils crews crews-IsTokio (at 1) (at 4) (at 5) without_bg large
      (use_call (at 2) ∷ init_call (at 3) small ∷ []) (inr (inr refl))

abbrev requests : List Request
requests =
    spawns spawned read_pool 7 (at 2)
    ∷ init (at 3) large
    ∷ gets blocked_on bg_pool 8 (at 4)
    ∷ spawns spawned_blocking hb_pool 9 (at 5)
    ∷ []

arrivals_as_asked :
    arrivals small requests
    ≡ ("global-read", 3, spawned, 7)
      ∷ ("global-bg", 1, blocked_on, 8)
      ∷ ("global-hb", 2, spawned_blocking, 9)
      ∷ []
unfolding arrivals name_of size_of
arrivals_as_asked = refl

spawns_arrive_example :
    map (arrived crews) (serve_all crews (init (at 1) small ∷ requests) (at_first crews)).handed
    ≡ arrivals small requests
spawns_arrive_example =
    spawns_arrive crews crews-IsTokio crews_built (at 1) small requests (omega arith)
