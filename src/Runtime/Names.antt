-- ===== src/Runtime/Names.antt =====
-- The names that src/runtime.rs gives to runtimes by RUNTIME_ID.
use Prim.Native.String.{String, ◌++◌, len, slice}
use text.Mathlib.TextLemmas.{nil-append, cons-append}
use text.Mathlib.TextPositions.{len-append, slice-append_right}
use rs_run.Base.{
  ℕ, zero, suc, ◌+◌, ◌%◌, digit, digits, code-digit, Result, ok, err, Bool, true, false, ◌==◌, ◌/◌,
  ◌^◌, ◌<◌, ◌≡◌, ◌≢◌, refl, sym, ap, ◌∙◌, u64, decimal, read_digits, read-decimal, arith,
}
use rs_run.Host.Tokio.{Tokio, Prometheus}
use rs_run.Runtime.{Builder, default, builder, built, build}
use rs_run.Runtime.Launch.{underscore, underscored, register_collector, Launched, launched, launch}

-- The number behind `runtime-`.
unfoldable pub number_of : String → ℕ
number_of name = read_digits (slice name 8 (len name)) 0

number_of-after :
    (start : String) → len start ≡ 8 → (id : ℕ) → id < 2 ^ 64 → number_of (start ++ decimal id) ≡ id
unfolding number_of
number_of-after start eight id few =
    let text = start ++ decimal id in
    let behind : slice text 8 (len text) ≡ decimal id =
      ap (slice text 8) (len-append start (decimal id))
      ∙ ap (λ n. slice text n (len start + len (decimal id))) (sym eight)
      ∙ slice-append_right start (decimal id) in
    ap (λ t. read_digits t 0) behind ∙ read-decimal id few

underscored-append : (s t : String) → underscored (s ++ t) ≡ underscored s ++ underscored t
unfolding underscored
underscored-append String.[] t = ap underscored (nil-append t) ∙ sym (nil-append (underscored t))
underscored-append (String.◌∷◌ c s) t =
    ap underscored (cons-append c s t)
    ∙ ap (String.◌∷◌ (underscore c)) (underscored-append s t)
    ∙ sym (cons-append (underscore c) (underscored s) (underscored t))

-- Digits are no dashes.
underscore-digit : (d : ℕ) → d < 10 → underscore (digit d) ≡ digit d
unfolding underscore
underscore-digit d h = let e = code-digit d h in ground (arith, e)

underscored-digits :
    (fuel n : ℕ) (text : String)
    → underscored (digits fuel n text) ≡ digits fuel n (underscored text)
unfolding digits underscored
underscored-digits zero n text = refl
underscored-digits (suc fuel) n text =
    go (ap (λ c. String.◌∷◌ c (underscored text)) (underscore-digit (n % 10) (omega arith)))
      (underscored-digits fuel (n / 10) (String.◌∷◌ (digit (n % 10)) text)) (n / 10 == 0) refl
  where
    go :
        underscored (String.◌∷◌ (digit (n % 10)) text)
          ≡ String.◌∷◌ (digit (n % 10)) (underscored text)
        → underscored (digits fuel (n / 10) (String.◌∷◌ (digit (n % 10)) text))
          ≡ digits fuel (n / 10) (underscored (String.◌∷◌ (digit (n % 10)) text))
        → (b : Bool) → (n / 10 == 0) ≡ b
        → underscored (digits (suc fuel) n text) ≡ digits (suc fuel) n (underscored text)
    go last rest true e = rw (e) last
    go last rest false e = rw (e) (rest ∙ ap (digits fuel (n / 10)) last)

module _ (X : Tokio) where
  -- RUNTIME_ID after a number of calls of `Builder::default`, by whichever threads: `Runtime::builder`
  -- and `create_runtime` of src/global.rs make one each, and others can as well.
  unfoldable pub runtime_id : ℕ → ℕ
  runtime_id zero = 0
  runtime_id (suc k) = (builder X (runtime_id k)).1

  pub runtime_id_lem : (k : ℕ) → runtime_id k ≡ u64 k
  unfolding runtime_id builder
  runtime_id_lem zero = refl
  runtime_id_lem (suc k) = omega (arith, runtime_id_lem k)

  number_of-name :
      (k : ℕ)
      → k < 2 ^ 64
      → let name = (builder X (runtime_id k)).0.runtime_name in
        (number_of name ≡ k) × (number_of (underscored name) ≡ k)
  unfolding builder default decimal underscored underscore
  number_of-name k few =
      let id = runtime_id k in
      let same : id ≡ k = omega (arith, runtime_id_lem k) in
      let replaced : underscored ("runtime-" ++ decimal id) ≡ "runtime_" ++ decimal id =
        underscored-append "runtime-" (decimal id)
        ∙ ap (λ text. "runtime_" ++ text) (underscored-digits 20 id "") in
      (
        number_of-after "runtime-" refl id (omega arith) ∙ same,
        ap number_of replaced ∙ number_of-after "runtime_" refl id (omega arith) ∙ same,
      )

  -- The runtime has the name of its builder, and under the same name with underscores its collector is
  -- registered.
  launch-registers :
      (P : Prometheus X.Handle) (now : ℕ) (kept : Bool) (registry registry' : P.Registry)
      (b : Builder X) (l : Launched X P)
      → launch X P now kept b registry ≡ (ok l, registry')
      → (l.runtime.name ≡ b.runtime_name)
        × (registry' ≡ (P.register (underscored b.runtime_name) l.runtime.handle registry).1)
  unfolding launch build launched built register_collector
  launch-registers P now kept registry registry' b l e = go _ e
    where
      go :
          (res : Result X.Handle X.IoError)
          → launched X P kept b (built X b res) registry ≡ (ok l, registry')
          → (l.runtime.name ≡ b.runtime_name)
            × (registry' ≡ (P.register (underscored b.runtime_name) l.runtime.handle registry).1)
      go (ok handle) e = ground arith
      go (err io) e = absurd (ground arith)

  -- The name that a call of `Builder::default` gives, as `Runtime::builder` and `create_runtime` make
  -- one, is read back as the number of such calls before it in the process, as long as there are no more
  -- than RUNTIME_ID can count. If a builder that has this name still builds a runtime, the number is read
  -- back from the name of the runtime too, and from the name under which the collector of the runtime is
  -- registered.
  pub name_tells :
      (k : ℕ) (P : Prometheus X.Handle) (now : ℕ) (kept : Bool) (registry registry' : P.Registry)
      (b : Builder X) (l : Launched X P)
      → k < 2 ^ 64
      → b.runtime_name ≡ (builder X (runtime_id k)).0.runtime_name
      → launch X P now kept b registry ≡ (ok l, registry')
      → (number_of (builder X (runtime_id k)).0.runtime_name ≡ k)
        × (number_of l.runtime.name ≡ k)
        × (collector : String) × (number_of collector ≡ k)
        × (registry' ≡ (P.register collector l.runtime.handle registry).1)
  name_tells k P now kept registry registry' b l few same e =
      let (n, n') = number_of-name k few in
      let (name, written) = launch-registers P now kept registry registry' b l e in
      (
        n,
        ap number_of (name ∙ same) ∙ n,
        underscored b.runtime_name,
        ap (λ s. number_of (underscored s)) same ∙ n',
        written,
      )

  -- So two of the calls give different names.
  pub builder_names :
      (i j : ℕ)
      → i < j
      → j < 2 ^ 64
      → (builder X (runtime_id i)).0.runtime_name ≢ (builder X (runtime_id j)).0.runtime_name
  builder_names i j less few same =
      omega (arith, ap number_of same, (number_of-name i (omega arith)).0, (number_of-name j few).0)
