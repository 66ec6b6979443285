-- ===== src/Config/Transaction.antt =====
-- config_load and mono.bind (src/parser.c) when they fail.
use monowm.Base.{ℕ, ◌≡◌, refl, ap, Bool, true, false, Option, none, some, List, [], ◌∷◌, ◌++◌}
use monowm.Config.Lua.{Lua}
use monowm.Config.Bindings.{Keys, BindCall, CfgKeybind, l_mono_bind}
use monowm.Config.Load.{Config, Store, close_old, mono_bind, run_binds, read_config, config_load}

-- The specification: a load of a configuration is one step.
abbrev pub settled : {D F : Type 0} → Config D F → Option ℕ → List ℕ → Store D F
settled out current closed = record {
  out = out;
  current = current;
  loading = none;
  closed = closed;
}

abbrev pub atomic : {D F : Type 0} → Config D F → Option ℕ → Bool → Store D F → Bool × Store D F
atomic fresh none ok s = (false, settled s.out s.current s.closed)
atomic fresh (some l) true s = (true, settled fresh (some l) (close_old s.current s.closed))
atomic fresh (some l) false s = (false, settled s.out s.current (s.closed ++ l ∷ []))

module _ (K : Keys) (L : Lua) where
  -- The bindings that calls of mono.bind add to some.
  unfoldable pub bound_by : List BindCall → List CfgKeybind → List CfgKeybind
  unfolding l_mono_bind
  bound_by [] binds = binds
  bound_by (call ∷ calls) binds = bound_by calls (l_mono_bind K call binds).1

  -- A store while a file runs.
  abbrev running :
      Config L.Double L.Float → Option ℕ → List ℕ → List CfgKeybind → Store L.Double L.Float
  running out current closed binds = record {
    out = out;
    current = current;
    loading = some binds;
    closed = closed;
  }

  run_binds-bound_by :
      (calls : List BindCall) (out : Config L.Double L.Float) (current : Option ℕ) (closed : List ℕ)
      (binds : List CfgKeybind)
      → run_binds K L calls (running out current closed binds)
        ≡ running out current closed (bound_by calls binds)
  unfolding run_binds mono_bind bound_by
  run_binds-bound_by [] out current closed binds = refl
  run_binds-bound_by (call ∷ calls) out current closed binds =
      run_binds-bound_by calls out current closed (l_mono_bind K call binds).1

  -- If no configuration is being loaded, config_load is one step: if a Lua state is made and the
  -- file runs without an error, the configuration that is read replaces the old one, the new
  -- state is g_L and the old state is closed; otherwise the configuration and g_L stay as they
  -- were and a state that was made is closed. In each case no configuration is being loaded
  -- afterwards. The configuration that is read has the bindings of the file's calls of
  -- mono.bind, added to none.
  pub config_load-atomic :
      (made : Option ℕ) (calls : List BindCall) (ok : Bool) (s : Store L.Double L.Float)
      → s.loading ≡ none
      → config_load K L made calls ok s ≡ atomic (read_config K L (bound_by calls [])) made ok s
  unfolding config_load
  config_load-atomic none calls ok s idle =
      ap (λ (o : Option (List CfgKeybind)). (false, record s { loading = o })) idle
  config_load-atomic (some l) calls true s idle =
      rw (run_binds-bound_by calls s.out (some l) s.closed []) refl
  config_load-atomic (some l) calls false s idle =
      rw (run_binds-bound_by calls s.out (some l) s.closed []) refl
