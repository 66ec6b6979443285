-- ===== src/Config/Errors.antt =====
-- When mono.bind (l_mono_bind in src/parser.c) raises a Lua error.
use monowm.Base.{
  ℕ, ◌≡◌, ◌↔◌, ◌⊎◌, ◌<◌, refl, sym, subst, ◌∙◌, inl, inr, Bool, true, false, none, some, List, [],
  ◌∷◌, ◌++◌, if◌then◌else◌, length, arith, Bool-cases, any_of, leb, ◌==◌, Option,
}
use monowm.Config.Lua.{copied, max_strlen}
use monowm.Config.Combo.{is_bad_combo, tokens, but_last, last_of}
use monowm.Config.Bindings.{
  Keys, CfgKeybind, Ended, BindCall, returned, raised, max_keybinds, or_mods, parse_modifier,
  bind_key, bind_combo, check_args, l_mono_bind,
}

true-ne-false : true ≡ false → ⊥
true-ne-false e = cc

returned-ne-raised : returned ≡ raised → ⊥
returned-ne-raised e = cc

full_room : {n : ℕ} → leb max_keybinds n ≡ true → n < max_keybinds → ⊥
full_room full room = ground arith

not_wrong : (a b : Bool) → a ≡ false → b ≡ false → (a ≡ true) ⊎ (b ≡ true) → ⊥
not_wrong a b e u (inl h) = true-ne-false (sym h ∙ e)
not_wrong a b e u (inr h) = true-ne-false (sym h ∙ u)

if-cases :
    {A : Type 0} (P : A → Type 0) (b : Bool) (x y : A)
    → (b ≡ true → P x)
    → (b ≡ false → P y)
    → P (if b then x else y)
if-cases P true x y h k = h refl
if-cases P false x y h k = k refl

abbrev called : Option (List ℕ) → Option ℕ → Bool → BindCall
called c f b = record { combo = c; callback = f; allocates = b }

module _ (K : Keys) where
  -- A name that is no modifier is among some.
  abbrev pub has_unknown : List (List ℕ) → Bool
  has_unknown names = any_of (λ name. parse_modifier K name == 0) names

  -- The modifiers of a combo, by the text that is copied.
  abbrev pub modifiers : List ℕ → List (List ℕ)
  modifiers combo = but_last (tokens (copied max_strlen combo))

  or_mods-unknown :
      (names : List (List ℕ)) (mods : ℕ) → has_unknown names ≡ true → or_mods K names mods ≡ none
  unfolding or_mods
  or_mods-unknown [] mods h = cc
  or_mods-unknown (name ∷ names) mods h = elim (Bool-cases (parse_modifier K name == 0)) [
    | inl e ↦ rw e refl
    | inr e ↦ rw e (or_mods-unknown names _ (sym (rw e refl) ∙ h))
  ]

  or_mods-known :
      (names : List (List ℕ)) (mods : ℕ)
      → has_unknown names ≡ false
      → (m : ℕ) × (or_mods K names mods ≡ some m)
  unfolding or_mods
  or_mods-known [] mods h = (mods, refl)
  or_mods-known (name ∷ names) mods h = elim (Bool-cases (parse_modifier K name == 0)) [
    | inl e ↦ absurd (true-ne-false (sym (rw e refl) ∙ h))
    | inr e ↦ rw e (or_mods-known names _ (sym (rw e refl) ∙ h))
  ]

  -- What may be wrong with a combo.
  abbrev pub Wrong : List ℕ → Type 0
  Wrong combo = (is_bad_combo combo ≡ true) ⊎ (has_unknown (modifiers combo) ≡ true)

  -- No memory for a binding whose key has a keysym.
  abbrev pub NoMemory : Bool → List ℕ → Type 0
  NoMemory allocates combo =
      ((K.keysym (last_of (tokens (copied max_strlen combo))) == 0) ≡ false) × (allocates ≡ false)

  -- What may be wrong with a call: its arguments, the combo, or that memory runs out.
  abbrev pub Fails : BindCall → Type 0
  Fails call =
      (call.combo ≡ none)
      ⊎ (call.callback ≡ none)
      ⊎ ((combo : List ℕ) × (call.combo ≡ some combo)
          × (Wrong combo ⊎ NoMemory call.allocates combo))

  -- At most one binding is added, at the end, and none by a call that raises.
  abbrev pub Adds : List CfgKeybind → Ended × List CfgKeybind → Type 0
  Adds binds r = (r.1 ≡ binds) ⊎ ((r.0 ≡ returned) × (k : CfgKeybind) × (r.1 ≡ binds ++ k ∷ []))

  -- It raises exactly if `P`.
  abbrev RaisesIf : Type 0 → List CfgKeybind → Ended × List CfgKeybind → Type 0
  RaisesIf P binds r = ((r.0 ≡ raised) ↔ P) × Adds binds r

  -- What a call of mono.bind may come to.
  abbrev pub Outcome : BindCall → List CfgKeybind → Ended × List CfgKeybind → Type 0
  Outcome call binds r =
      ((r.0 ≡ raised) ↔ ((length binds < max_keybinds) × Fails call)) × Adds binds r

  raises : (P : Type 0) (binds : List CfgKeybind) → P → RaisesIf P binds (raised, binds)
  raises P binds p = ((λ e. p, λ q. refl), inl refl)

  no_error :
      (P : Type 0) (binds : List CfgKeybind) (r : Ended × List CfgKeybind)
      → r.0 ≡ returned
      → ¬ P
      → Adds binds r
      → RaisesIf P binds r
  no_error P binds r e fine adds =
      ((λ h. absurd (returned-ne-raised (sym e ∙ h)), λ h. absurd (fine h)), adds)

  fine_unless :
      (b : Bool) (combo : List ℕ)
      → is_bad_combo combo ≡ false
      → has_unknown (modifiers combo) ≡ false
      → ¬ NoMemory b combo
      → ¬ (Wrong combo ⊎ NoMemory b combo)
  fine_unless b combo good u fine (inl w) = not_wrong _ _ good u w
  fine_unless b combo good u fine (inr m) = fine m

  known_mods :
      (b : Bool) (combo : List ℕ) (ref mods : ℕ) (binds : List CfgKeybind)
      → is_bad_combo combo ≡ false
      → has_unknown (modifiers combo) ≡ false
      → RaisesIf (Wrong combo ⊎ NoMemory b combo) binds (
          bind_key K b ref
            (K.keysym (last_of (tokens (copied max_strlen combo))))
            (some mods)
            binds)
  known_mods b combo ref mods binds good u =
      let key = K.keysym (last_of (tokens (copied max_strlen combo))) in
      let P = Wrong combo ⊎ NoMemory b combo in
      if-cases (RaisesIf P binds) (key == 0) (returned, binds) _
        (λ z.
          no_error P binds (returned, binds) refl
            (fine_unless b combo good u (λ m. true-ne-false (sym z ∙ m.0))) (inl refl))
        (λ z.
          if-cases (RaisesIf P binds) b (returned, _) (raised, binds)
            (λ t.
              no_error P binds (returned, _) refl
                (fine_unless b combo good u (λ m. true-ne-false (sym t ∙ m.1)))
                (inr (refl, _, refl)))
            (λ f. raises P binds (inr (z, f))))

  bind_combo-Raises :
      (b : Bool) (combo : List ℕ) (ref : ℕ) (binds : List CfgKeybind)
      → RaisesIf (Wrong combo ⊎ NoMemory b combo) binds (bind_combo K b combo ref binds)
  unfolding bind_combo
  bind_combo-Raises b combo ref binds =
      let P = Wrong combo ⊎ NoMemory b combo in
      if-cases (RaisesIf P binds) (is_bad_combo combo) (raised, binds) _
        (λ bad. raises P binds (inl (inl bad)))
        (λ good. elim (Bool-cases (has_unknown (modifiers combo))) [
          | inl u ↦ rw (or_mods-unknown (modifiers combo) 0 u) (raises P binds (inl (inr u)))
          | inr u ↦
              let (m, e) = or_mods-known (modifiers combo) 0 u in
              rw e (known_mods b combo ref m binds good u)
        ])

  args-Outcome :
      (c : Option (List ℕ)) (f : Option ℕ) (b : Bool) (binds : List CfgKeybind)
      → length binds < max_keybinds
      → Outcome (called c f b) binds (check_args K (called c f b) binds)
  args-Outcome none f b binds room = ((λ e. (room, inl refl), λ q. refl), inl refl)
  args-Outcome (some combo) none b binds room = ((λ e. (room, inr (inl refl)), λ q. refl), inl refl)
  args-Outcome (some combo) (some ref) b binds room =
      let r = bind_combo-Raises b combo ref binds in
      ((λ e. (room, inr (inr (combo, refl, r.0.0 e))), λ q. r.0.1 (from q.1)), r.1)
    where
      from : Fails (called (some combo) (some ref) b) → Wrong combo ⊎ NoMemory b combo
      from (inl n) = absurd cc
      from (inr (inl n)) = absurd cc
      from (inr (inr (c, g, w))) =
          let same : combo ≡ c = cc in subst (λ (x : List ℕ). Wrong x ⊎ NoMemory b x) (sym same) w

  -- While a configuration is being loaded, mono.bind raises an error exactly if there is room
  -- for a binding and its first argument is no text, its second is no function, the combo is
  -- malformed, one of its modifiers is unknown, or memory runs out for a key that has a keysym.
  -- In each case the bindings stay as they were, or it returns and one binding is added at their
  -- end.
  pub l_mono_bind-Outcome :
      (call : BindCall) (binds : List CfgKeybind) → Outcome call binds (l_mono_bind K call binds)
  unfolding l_mono_bind
  l_mono_bind-Outcome call binds =
      if-cases (Outcome call binds) (leb max_keybinds (length binds)) (returned, binds) _
        (λ full. no_error _ binds (returned, binds) refl (λ h. full_room full h.0) (inl refl))
        (λ room. args-Outcome call.combo call.callback call.allocates binds (ground arith))
