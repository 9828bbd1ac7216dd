-- ===== src/Metrics/Threads.antt =====
-- The gauges of src/metrics.rs over the lives of threads.
use Prim.Native.String.{String}
use text.Mathlib.Text.{◌==◌}
use rs_run.Base.{
  ℕ, ◌+◌, ◌≤◌, ◌<◌, ◌^◌, ◌≡◌, refl, Bool, true, false, ◌&&◌, List, [], ◌∷◌, ◌++◌, length,
  length-append, if◌then◌else◌, arith,
}
use rs_run.Host.Tokio.{
  threads_alive, threads_idle, thread_start, thread_stop, thread_park, thread_unpark,
}
use rs_run.Runtime.{hooks, on_thread_start, on_thread_stop, on_thread_park, on_thread_unpark}
use rs_run.Metrics.{Metrics, zeroes, apply}

-- A thread of a runtime: its name, and whether it is parked.
pub record Thread : Type 0 where
  pub name : String
  pub parked : Bool

-- Fewer threads than a gauge can count.
abbrev pub Few : List Thread → Type 0
Few threads = length threads < 2 ^ 63

-- The gauges and the threads that there can be, if tokio calls the hooks when a thread starts, parks,
-- unparks and stops, in the order that a thread can do so.
pub data Reached : Metrics → List Thread → Type 0 where
  at_first : Reached zeroes []
  starts :
      (m : Metrics) (threads : List Thread) (name : String)
      → Reached m threads
      → Few (record { name = name; parked = false } ∷ threads)
      → Reached
          (apply (hooks name thread_start) m)
          (record { name = name; parked = false } ∷ threads)
  stops :
      (m : Metrics) (before after : List Thread) (name : String)
      → Reached m (before ++ record { name = name; parked = false } ∷ after)
      → Reached (apply (hooks name thread_stop) m) (before ++ after)
  parks :
      (m : Metrics) (before after : List Thread) (name : String)
      → Reached m (before ++ record { name = name; parked = false } ∷ after)
      → Reached
          (apply (hooks name thread_park) m)
          (before ++ record { name = name; parked = true } ∷ after)
  unparks :
      (m : Metrics) (before after : List Thread) (name : String)
      → Reached m (before ++ record { name = name; parked = true } ∷ after)
      → Reached
          (apply (hooks name thread_unpark) m)
          (before ++ record { name = name; parked = false } ∷ after)

-- How many threads of a name there are, and how many of them are parked.
abbrev pub alive : String → List Thread → ℕ
alive label [] = 0
alive label (t ∷ ts) = (if t.name == label then 1 else 0) + alive label ts

abbrev pub idle : String → List Thread → ℕ
idle label [] = 0
idle label (t ∷ ts) = (if t.parked && t.name == label then 1 else 0) + idle label ts

alive-append :
    (label : String) (xs ys : List Thread)
    → alive label (xs ++ ys) ≡ alive label xs + alive label ys
alive-append label [] ys = omega arith
alive-append label (t ∷ xs) ys = omega (arith, alive-append label xs ys)

idle-append :
    (label : String) (xs ys : List Thread) → idle label (xs ++ ys) ≡ idle label xs + idle label ys
idle-append label [] ys = omega arith
idle-append label (t ∷ xs) ys = omega (arith, idle-append label xs ys)

alive_most : (label : String) (xs : List Thread) → alive label xs ≤ length xs
alive_most label [] = omega arith
alive_most label (t ∷ xs) = ground (arith, alive_most label xs)

idle_most : (label : String) (xs : List Thread) → idle label xs ≤ length xs
idle_most label [] = omega arith
idle_most label (t ∷ xs) = ground (arith, idle_most label xs)

abbrev pub Counts : Metrics → List Thread → String → Type 0
Counts m threads label =
    (m threads_alive label ≡ alive label threads) × (m threads_idle label ≡ idle label threads)

Few-Reached : (m : Metrics) (threads : List Thread) → Reached m threads → Few threads
Few-Reached m threads at_first = omega arith
Few-Reached m threads (starts m' ts n r few) = few
Few-Reached m threads (stops m' before after n r) = omega (
  arith,
  Few-Reached _ _ r,
  length-append before after,
  length-append before (record { name = n; parked = false } ∷ after),
)
Few-Reached m threads (parks m' before after n r) = omega (
  arith,
  Few-Reached _ _ r,
  length-append before (record { name = n; parked = true } ∷ after),
  length-append before (record { name = n; parked = false } ∷ after),
)
Few-Reached m threads (unparks m' before after n r) = omega (
  arith,
  Few-Reached _ _ r,
  length-append before (record { name = n; parked = true } ∷ after),
  length-append before (record { name = n; parked = false } ∷ after),
)

-- However threads start, park, unpark and stop, as long as there are fewer of them than a gauge can
-- count: for each name of threads, the one gauge is the number of threads of that name, in all
-- runtimes together, and the other the number of those that are parked.
pub Reached-Counts :
    (m : Metrics) (threads : List Thread) (label : String)
    → Reached m threads
    → Counts m threads label
unfolding apply hooks on_thread_start on_thread_stop on_thread_park on_thread_unpark
Reached-Counts m threads label at_first = (refl, refl)
Reached-Counts m threads label (starts m' ts n r few) =
    let (a, b) = Reached-Counts _ _ label r in (ground (arith, alive_most label ts), ground arith)
Reached-Counts m threads label (stops m' before after n r) =
    let (a, b) = Reached-Counts _ _ label r in
    let few = Few-Reached _ _ r in
    let t : Thread = record { name = n; parked = false } in
    (
      ground (
        arith,
        alive_most label (before ++ t ∷ after),
        alive-append label before after,
        alive-append label before (t ∷ after),
      ),
      ground (arith, idle-append label before after, idle-append label before (t ∷ after)),
    )
Reached-Counts m threads label (parks m' before after n r) =
    let (a, b) = Reached-Counts _ _ label r in
    let few = Few-Reached _ _ r in
    let t : Thread = record { name = n; parked = false } in
    let t' : Thread = record { name = n; parked = true } in
    (
      ground (arith, alive-append label before (t' ∷ after), alive-append label before (t ∷ after)),
      ground (
        arith,
        length-append before (t ∷ after),
        idle_most label before,
        idle_most label after,
        idle-append label before (t' ∷ after),
        idle-append label before (t ∷ after),
      ),
    )
Reached-Counts m threads label (unparks m' before after n r) =
    let (a, b) = Reached-Counts _ _ label r in
    let few = Few-Reached _ _ r in
    let t : Thread = record { name = n; parked = false } in
    let t' : Thread = record { name = n; parked = true } in
    (
      ground (arith, alive-append label before (t' ∷ after), alive-append label before (t ∷ after)),
      ground (
        arith,
        idle_most label (before ++ t' ∷ after),
        idle-append label before (t' ∷ after),
        idle-append label before (t ∷ after),
      ),
    )
