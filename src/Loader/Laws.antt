-- ===== src/Loader/Laws.antt =====
-- What `Jbm::new` does and in which order.
use mathlib.Core.List.{append_assoc, append-nil}
use jbm.Prelude.{
  ℕ, ◌≡◌, refl, ap, sym, ◌∙◌, List, [], ◌∷◌, ◌++◌, map, Result, ok, err, Text, codes, arith, ◌⊎◌,
  inl, inr, Result-cases, subst,
}
use jbm.Common.{Config}
use jbm.Stream.{EventStream, new, new_with}
use jbm.Loader.{
  Aya, map_error, other_error, Step, done, fails, panics, Call, load, set_memlock, load_program,
  attach, take_map, open_buffer, M, continue, ◌>>=◌, ◌>>◌, pure, lift, expected, step_of, perform,
  Jbm, settings, load_bpf, load_with_retry, retry, open_all, attach_program, open_buffers, new_jbm,
}

-- A buffer for each CPU, in their order.
abbrev pub Opened : (aya : Aya) → List ℕ → List aya.Buffer → Type 0
Opened aya [] [] = Unit {0}
Opened aya [] (b ∷ bs) = ⊥
Opened aya (cpu ∷ cpus) [] = ⊥
Opened aya (cpu ∷ cpus) (b ∷ bs) = (aya.open_buffer cpu ≡ ok b) × Opened aya cpus bs

-- A call that is made is the last of the log so far.
perform-done :
    {A : Type 0} (call : Call) (r : Result A Text) (log log' : List Call) {a : A}
    → perform call r log ≡ (log', done a)
    → (r ≡ ok a) × (log' ≡ log ++ (call ∷ []))
perform-done call (ok b) log log' e = ground (arith, e)
perform-done call (err f) log log' e = ground (arith, e)

continue-done :
    {A B : Type 0} (r : List Call × Step A) (f : A → M B) (log' : List Call) {b : B}
    → continue f r ≡ (log', done b)
    → (a : A) × (mid : List Call) × (r ≡ (mid, done a)) × (f a mid ≡ (log', done b))
continue-done (log, done a) f log' e = (a, log, refl, e)
continue-done (log, fails t) f log' e = absurd (ground (arith, e))
continue-done (log, panics) f log' e = absurd (ground (arith, e))

module _ (aya : Aya) (config : Config) where
  open_all-done :
      (cpus : List ℕ) (log log' : List Call) (buffers : List aya.Buffer)
      → open_all aya config cpus log ≡ (log', done buffers)
      → Opened aya cpus buffers × (log' ≡ log ++ map open_buffer cpus)
  unfolding open_all
  open_all-done [] log log' buffers e =
      let empty : buffers ≡ [] = ground (arith, e) in
      rw empty (tt, ground (arith, e, append-nil log))
  open_all-done (cpu ∷ cpus) log log' buffers e =
      let (b, mid, opened, rest) =
        continue-done (perform (open_buffer cpu) (aya.open_buffer cpu) log)
          (λ b. open_all aya config cpus >>= λ bs. pure (b ∷ bs)) log' e in
      let (bs, mid', all, same) =
        continue-done (open_all aya config cpus mid) (λ bs. pure (b ∷ bs)) log' rest in
      let (one, at) = perform-done (open_buffer cpu) (aya.open_buffer cpu) log mid opened in
      let (others, to) = open_all-done cpus mid mid' bs all in
      let whole : buffers ≡ b ∷ bs = ground (arith, same) in
      rw whole (
        (one, others),
        ground
            (arith, same, to, at, append_assoc log (open_buffer cpu ∷ []) (map open_buffer cpus)),
      )

  -- One load, or a second after the first was refused by a map error and the limit was raised.
  abbrev pub Tries : List Call → Type 0
  Tries log =
      (log ≡ load (settings aya config) ∷ [])
      ⊎ ((log ≡ load (settings aya config) ∷ (set_memlock ∷ (load (settings aya config) ∷ [])))
          × ((e : Text) × (aya.load [] (settings aya config) ≡ err (map_error e))))

  load_with_retry-done :
      (log' : List Call) (bpf : aya.Bpf)
      → load_with_retry aya config [] ≡ (log', done bpf)
      → Tries log'
  unfolding load_with_retry load_bpf retry
  load_with_retry-done log' bpf e = elim (Result-cases (aya.load [] (settings aya config))) [
    | inl (b, f) ↦ inl (ground (arith, e, f))
    | inr (map_error t, f) ↦ inr (ground (arith, e, f), (t, f))
    | inr (other_error t, f) ↦ absurd (ground (arith, e, f))
  ]

  attach_program-done :
      (bpf : aya.Bpf) (log log' : List Call)
      → attach_program aya config bpf log ≡ (log', done tt)
      → log' ≡ log ++ (load_program ∷ (attach (codes "finish_task_switch") 0 ∷ []))
  unfolding attach_program
  attach_program-done bpf log log' e =
      let (u, one, found, rest) =
        continue-done (lift (aya.program bpf) log)
          (λ _.
            perform load_program (aya.load_program bpf)
            >> perform (attach (codes "finish_task_switch") 0) (aya.attach bpf))
          log' e in
      let (v, two, loaded, last) =
        continue-done (perform load_program (aya.load_program bpf) one)
          (λ _. perform (attach (codes "finish_task_switch") 0) (aya.attach bpf)) log' rest in
      let (a, at) = perform-done load_program (aya.load_program bpf) one two loaded in
      let (b, to) =
        perform-done (attach (codes "finish_task_switch") 0) (aya.attach bpf) two log' last in
      ground (
        arith,
        found,
        at,
        to,
        append_assoc log (load_program ∷ []) (attach (codes "finish_task_switch") 0 ∷ []),
      )

  open_buffers-done :
      (bpf : aya.Bpf) (log log' : List Call) (buffers : List aya.Buffer)
      → open_buffers aya config bpf log ≡ (log', done buffers)
      → (cpus : List ℕ) × (aya.online_cpus ≡ ok cpus)
        × Opened aya cpus buffers
        × (log' ≡ log ++ (take_map (codes "EVENTS") ∷ map open_buffer cpus))
  unfolding open_buffers
  open_buffers-done bpf log log' buffers e =
      let taken = log ++ (take_map (codes "EVENTS") ∷ []) in
      let (u, one, found, rest) =
        continue-done (lift (aya.events_map bpf) taken)
          (λ _. lift (step_of aya.online_cpus) >>= open_all aya config) log' e in
      let (cpus, two, online, last) =
        continue-done (lift (step_of aya.online_cpus) one) (open_all aya config) log' rest in
      let (all, to) = open_all-done cpus two log' buffers last in
      (
        cpus,
        ground (arith, online),
        all,
        ground (
          arith,
          found,
          online,
          to,
          append_assoc log (take_map (codes "EVENTS") ∷ []) (map open_buffer cpus),
        ),
      )

  abbrev mk : aya.Bpf → List aya.Buffer → EventStream → Jbm aya
  mk bpf bs stream = record { bpf = bpf; perf_buffers = bs; stream = stream }

  abbrev make : aya.Bpf → List aya.Buffer → M (Jbm aya)
  make bpf bs = lift (expected (new_with aya.kernel_symbols)) >>= λ stream. pure (mk bpf bs stream)

  new_with-done :
      (symbols : Result (Unit {0}) Text) (log log' : List Call) {stream : EventStream}
      → lift (expected (new_with symbols)) log ≡ (log', done stream)
      → (log' ≡ log) × (stream ≡ new) × (symbols ≡ ok tt)
  unfolding new_with
  new_with-done (ok _) log log' e = (ground (arith, e), ground (arith, e), refl)
  new_with-done (err t) log log' e = absurd (ground (arith, e))

  -- If `new` succeeds it has loaded the program once, or twice with a raised limit in between if the first
  -- load was refused by a map error; then it has loaded the kernel probe, attached it, taken the ring of
  -- events, and opened a buffer for each online CPU, in this order. It holds those buffers, in the order of
  -- the CPUs, and an empty stream, and the symbols of the kernel could be read.
  pub new_jbm-done :
      (log : List Call) (jbm : Jbm aya)
      → new_jbm aya config [] ≡ (log, done jbm)
      → (tries : List Call) × (cpus : List ℕ) × (log
          ≡ tries
            ++ (load_program
                ∷ (attach (codes "finish_task_switch") 0
                    ∷ (take_map (codes "EVENTS") ∷ map open_buffer cpus))))
        × Tries tries
        × (aya.online_cpus ≡ ok cpus)
        × Opened aya cpus jbm.perf_buffers
        × (jbm.stream ≡ new)
        × (aya.kernel_symbols ≡ ok tt)
  unfolding new_jbm
  new_jbm-done log jbm e =
      let (bpf, mid, loaded, rest) =
        continue-done (load_with_retry aya config [])
          (λ bpf.
            attach_program aya config bpf >> (open_buffers aya config bpf >>= λ bs. make bpf bs))
          log e in
      let (u, mid', attached, rest') =
        continue-done (attach_program aya config bpf mid)
          (λ _. open_buffers aya config bpf >>= λ bs. make bpf bs) log rest in
      let (bs, mid'', opened, last) =
        continue-done (open_buffers aya config bpf mid') (λ bs. make bpf bs) log rest' in
      let (stream, end, made, same) =
        continue-done (lift (expected (new_with aya.kernel_symbols)) mid'')
          (λ stream. pure (mk bpf bs stream)) log last in
      let (kept, fresh, symbols) = new_with-done aya.kernel_symbols mid'' end made in
      let (cpus, online, all, to) = open_buffers-done bpf mid' mid'' bs opened in
      let at = attach_program-done bpf mid mid' attached in
      let held : mk bpf bs stream ≡ jbm = ground (arith, same) in
      (
        mid,
        cpus,
        ground (
          arith,
          same,
          kept,
          at,
          to,
          append_assoc mid (load_program ∷ (attach (codes "finish_task_switch") 0 ∷ []))
              (take_map (codes "EVENTS") ∷ map open_buffer cpus),
        ),
        load_with_retry-done mid bpf loaded,
        online,
        subst (λ j. Opened aya cpus j.perf_buffers) held all,
        sym (ap (λ j. j.stream) held) ∙ fresh,
        symbols,
      )
