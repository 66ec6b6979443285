-- ===== src/Config/Input.antt =====
-- The text options of `input` in src/parser.c, which are read through one buffer, against a reading
-- of each through a buffer of its own.
use Prim.Native.String.{String}
use monowm.Base.{
  ℕ, ◌≡◌, ◌⊎◌, refl, sym, ap, ◌∙◌, inl, inr, Bool, true, not, List, [], ◌∷◌, ◌++◌, arith,
  Bool-cases, ◌||◌, All, any_of,
}
use monowm.Config.Lua.{Lua, bytes, same_bytes, copied, max_strlen, lua_get_string}
use monowm.Config.Sections.{
  scratch_scroll, scratch_accel, scratch_click, scratch_send, parse_input_table, input_with,
}
use monowm.Config.Types.{CfgInput, scroll_of, accel_of, click_of, send_of, tap_of}

-- The choices of each option.
abbrev pub scroll_words : List (List ℕ)
scroll_words = bytes "2fg" ∷ bytes "edge" ∷ bytes "button" ∷ []

abbrev pub accel_words : List (List ℕ)
accel_words = bytes "flat" ∷ bytes "adaptive" ∷ []

abbrev pub click_words : List (List ℕ)
click_words = bytes "clickfinger" ∷ bytes "button_areas" ∷ []

abbrev pub send_words : List (List ℕ)
send_words = bytes "disabled" ∷ bytes "disabled_on_external" ∷ bytes "enabled" ∷ []

abbrev pub tap_words : List (List ℕ)
tap_words = bytes "lmr" ∷ bytes "lrm" ∷ []

-- A text is empty or one of some.
abbrev Among : List (List ℕ) → List ℕ → Type 0
Among [] s = s ≡ []
Among (w ∷ ws) s = (s ≡ w) ⊎ Among ws s

Among-append : (vs ws : List (List ℕ)) (s : List ℕ) → Among ws s → Among (vs ++ ws) s
Among-append [] ws s h = h
Among-append (v ∷ vs) ws s h = inr (Among-append vs ws s h)

same_bytes-eq : (s w : List ℕ) → same_bytes s w ≡ true → s ≡ w
same_bytes-eq [] [] h = refl
same_bytes-eq [] (d ∷ w) h = cc
same_bytes-eq (c ∷ s) [] h = cc
same_bytes-eq (c ∷ s) (d ∷ w) h = ground (arith, h, same_bytes-eq s w)

any_of-Among :
    (vs ws : List (List ℕ)) (s : List ℕ) → any_of (same_bytes s) vs ≡ true → Among (vs ++ ws) s
any_of-Among [] ws s h = cc
any_of-Among (v ∷ vs) ws s h = elim (Bool-cases (same_bytes s v)) [
  | inl e ↦ inl (same_bytes-eq s v e)
  | inr e ↦ inr (any_of-Among vs ws s (sym (rw e refl) ∙ h))
]

-- A reading that makes the same of some texts as of the empty one.
Among-inert :
    {A : Type 0} (f : List ℕ → A) (ws : List (List ℕ)) (s : List ℕ)
    → Among ws s
    → All (λ w. f w ≡ f []) ws
    → f s ≡ f []
Among-inert f [] s h k = ap f h
Among-inert f (w ∷ ws) s (inl e) k = ap f e ∙ k.0
Among-inert f (w ∷ ws) s (inr h) k = Among-inert f ws s h k.1

inert_accel : All (λ w. accel_of w ≡ accel_of []) scroll_words
inert_accel = (refl, (refl, (refl, tt)))

inert_click : All (λ w. click_of w ≡ click_of []) (accel_words ++ scroll_words)
inert_click = (refl, (refl, (refl, (refl, (refl, tt)))))

inert_send : All (λ w. send_of w ≡ send_of []) (click_words ++ accel_words ++ scroll_words)
inert_send = (refl, (refl, (refl, (refl, (refl, (refl, (refl, tt)))))))

inert_tap :
    All (λ w. tap_of w ≡ tap_of []) (send_words ++ click_words ++ accel_words ++ scroll_words)
inert_tap = (refl, (refl, (refl, (refl, (refl, (refl, (refl, (refl, (refl, (refl, tt))))))))))

module _ (L : Lua) where
  -- An option that is a text is one of the choices.
  abbrev pub is_choice : L.Value → String → List (List ℕ) → Bool
  is_choice t key ws =
      not (L.is_string (L.field t key))
      || any_of (same_bytes (copied max_strlen (L.text (L.field t key)))) ws

  pub record IsDocumented (t : L.Value) : Type 0 where
    pub scroll : is_choice t "scroll_method" scroll_words ≡ true
    pub accel : is_choice t "accel_profile" accel_words ≡ true
    pub click : is_choice t "click_method" click_words ≡ true
    pub send : is_choice t "send_events_mode" send_words ≡ true
    pub tap : is_choice t "tap_button_map" tap_words ≡ true

  -- Each option through an empty buffer.
  abbrev pub option : L.Value → String → List ℕ
  option t key = lua_get_string L t key max_strlen []

  pub clean_input : L.Value → CfgInput L.Double
  clean_input t =
      input_with L t (scroll_of (option t "scroll_method")) (accel_of (option t "accel_profile"))
        (click_of (option t "click_method")) (send_of (option t "send_events_mode"))
        (tap_of (option t "tap_button_map"))

  -- The buffer after an option.
  option-Among :
      (t : L.Value) (key : String) (vs ws : List (List ℕ)) (old : List ℕ)
      → is_choice t key vs ≡ true
      → Among ws old
      → Among (vs ++ ws) (lua_get_string L t key max_strlen old)
  unfolding lua_get_string
  option-Among t key vs ws old good h = elim (Bool-cases (L.is_string (L.field t key))) [
    | inl e ↦ rw e (any_of-Among vs ws _ (sym (rw e refl) ∙ good))
    | inr e ↦ rw e (Among-append vs ws old h)
  ]

  -- What an option becomes.
  option-inert :
      {A : Type 0} (f : List ℕ → A) (t : L.Value) (key : String) (ws : List (List ℕ)) (old : List ℕ)
      → Among ws old
      → All (λ w. f w ≡ f []) ws
      → f (lua_get_string L t key max_strlen old) ≡ f (option t key)
  unfolding lua_get_string
  option-inert f t key ws old h k = elim (Bool-cases (L.is_string (L.field t key))) [
    | inl e ↦ rw e refl
    | inr e ↦ rw e (Among-inert f ws old h k)
  ]

  module _ (t : L.Value) (d : IsDocumented t) where
    scroll-Among : Among scroll_words (scratch_scroll L t)
    scroll-Among = option-Among t "scroll_method" scroll_words [] [] d.scroll refl

    accel-Among : Among (accel_words ++ scroll_words) (scratch_accel L t)
    accel-Among = option-Among t "accel_profile" accel_words scroll_words _ d.accel scroll-Among

    click-Among : Among (click_words ++ accel_words ++ scroll_words) (scratch_click L t)
    click-Among =
        option-Among t "click_method" click_words (accel_words ++ scroll_words) _ d.click
          accel-Among

    send-Among : Among (send_words ++ click_words ++ accel_words ++ scroll_words) (scratch_send L t)
    send-Among =
        option-Among t "send_events_mode" send_words (click_words ++ accel_words ++ scroll_words) _
          d.send click-Among

    -- If each of the five text options of the input table that is a text is one of its choices,
    -- reading them through the one buffer that is not cleared gives the same settings as reading
    -- each through an empty buffer of its own.
    pub parse_input_table-clean : parse_input_table L t ≡ clean_input t
    unfolding parse_input_table clean_input
    parse_input_table-clean =
        let accel =
          option-inert accel_of t "accel_profile" scroll_words _ scroll-Among inert_accel in
        let click =
          option-inert click_of t "click_method" (accel_words ++ scroll_words) _ accel-Among
            inert_click in
        let send =
          option-inert send_of t "send_events_mode" (click_words ++ accel_words ++ scroll_words) _
            click-Among inert_send in
        let tap =
          option-inert tap_of t "tap_button_map"
            (send_words ++ click_words ++ accel_words ++ scroll_words) _ send-Among inert_tap in
        λ i. input_with L t (scroll_of (scratch_scroll L t)) (accel i) (click i) (send i) (tap i)
