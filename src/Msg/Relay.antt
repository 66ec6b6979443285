-- ===== src/Msg/Relay.antt =====
-- What the compositor sends of an output (Status/Send) and what monomsg prints of it (Msg/Print).
use monowm.Base.{
  ℕ, zero, suc, ◌+◌, ◌^◌, ◌<◌, ◌≡◌, refl, sym, ap, ◌∙◌, inl, inr, Bool, true, false, ◌&&◌, ◌||◌,
  Option, List, [], ◌∷◌, ◌++◌, if◌then◌else◌, ltb, leb, bit_or, shares, test_bit, test_bit-or,
  test_bit-pow, test_bit-lt, eq_of_test_bit, Bool-cases, arith,
}
use monowm.Wm.State.{Monitor, tagset, tagcount}
use monowm.Status.Collect.{MonitorStatus}
use monowm.Status.Send.{IpcEvent, send_tag, send_tags, state_of}
use monowm.Msg.Print.{
  Flags, Watcher, Said, receive, receive_all, dwl_ipc_output_tag, print_if, gets,
}

pub receive_all-append :
    (F : Flags) (name : Option (List ℕ)) (es fs : List IpcEvent) (s : Watcher)
    → receive_all F name (es ++ fs) s ≡ receive_all F name fs (receive_all F name es s)
unfolding receive_all
receive_all-append F name [] fs s = refl
receive_all-append F name (e ∷ es) fs s = receive_all-append F name es fs (receive F name e s)

-- One of the masks that the events of the tags build, bit by bit.
module _ (F : Flags) (name : Option (List ℕ)) (m : Monitor) (st : MonitorStatus)
    (mask : Watcher → ℕ) (p : ℕ → Bool)
    (step : (i : ℕ) (s : Watcher)
      → mask (receive F name (send_tag m st i) s)
        ≡ (if p i then bit_or (mask s) (2 ^ i) else mask s)) where
  pub mask_bit :
      (n i : ℕ) (s : Watcher) (j : ℕ)
      → test_bit (mask (receive_all F name (send_tags n i m st) s)) j
        ≡ (test_bit (mask s) j || (leb i j && ltb j (i + n) && p j))
  unfolding receive_all send_tags
  mask_bit zero i s j = ground arith
  mask_bit (suc n) i s j =
      mask_bit n (suc i) (receive F name (send_tag m st i) s) j
      ∙ (rw (step i s) (elim (Bool-cases (p i)) [
        | inl e ↦ rw e (
            ground (arith, test_bit-or (mask s) (2 ^ i) j, test_bit-pow i j, λ (e : i ≡ j). ap p e))
        | inr e ↦ rw e (ground (arith, λ (e : i ≡ j). ap p e))
      ]))

active_bit : (a b : Bool) → shares (state_of a b) 1 ≡ a
active_bit true true = refl
active_bit true false = refl
active_bit false true = refl
active_bit false false = refl

urgent_bit : (a b : Bool) → shares (state_of a b) 2 ≡ b
urgent_bit true true = refl
urgent_bit true false = refl
urgent_bit false true = refl
urgent_bit false false = refl

-- What is printed has no part in the masks.
abbrev pub SameMasks : Watcher → Watcher → Type 0
SameMasks s t = (s.occ ≡ t.occ) × (s.seltags ≡ t.seltags) × (s.sel ≡ t.sel) × (s.urg ≡ t.urg)

pub print_if-SameMasks :
    (b : Bool) (name : Option (List ℕ)) (w : Said) (s : Watcher) → SameMasks (print_if b name w s) s
print_if-SameMasks true name w s = (refl, refl, refl, refl)
print_if-SameMasks false name w s = (refl, refl, refl, refl)

module _ (F : Flags) (name : Option (List ℕ)) (m : Monitor) (st : MonitorStatus)
    (on : F.tflag ≡ true) where
  pub seltags_step :
      (i : ℕ) (s : Watcher)
      → (receive F name (send_tag m st i) s).seltags
        ≡ (if shares (tagset m) (2 ^ i) then bit_or s.seltags (2 ^ i) else s.seltags)
  unfolding receive send_tag dwl_ipc_output_tag
  seltags_step i s = rw on ((print_if-SameMasks (gets F.mode) name _ _).1 ∙ rw active_bit refl)

  pub urg_step :
      (i : ℕ) (s : Watcher)
      → (receive F name (send_tag m st i) s).urg
        ≡ (if shares st.urgent (2 ^ i) then bit_or s.urg (2 ^ i) else s.urg)
  unfolding receive send_tag dwl_ipc_output_tag
  urg_step i s = rw on ((print_if-SameMasks (gets F.mode) name _ _).3 ∙ rw urgent_bit refl)

  pub occ_step :
      (i : ℕ) (s : Watcher)
      → (receive F name (send_tag m st i) s).occ
        ≡ (if ltb 0 (st.counts i) then bit_or s.occ (2 ^ i) else s.occ)
  unfolding receive send_tag dwl_ipc_output_tag
  occ_step i s = rw on (print_if-SameMasks (gets F.mode) name _ _).0

  pub sel_step :
      (i : ℕ) (s : Watcher)
      → (receive F name (send_tag m st i) s).sel
        ≡ (if shares st.selected (2 ^ i) then bit_or s.sel (2 ^ i) else s.sel)
  unfolding receive send_tag dwl_ipc_output_tag
  sel_step i s = rw on (print_if-SameMasks (gets F.mode) name _ _).2

-- A mask is known by its first nine bits.
pub nine_bits :
    (a v : ℕ) (p : ℕ → Bool)
    → v < 2 ^ tagcount
    → ((j : ℕ) → test_bit a j ≡ (ltb j tagcount && p j))
    → ((j : ℕ) → j < tagcount → p j ≡ test_bit v j)
    → a ≡ v
nine_bits a v p small bits same = eq_of_test_bit (a + v) a v (omega arith) (omega arith) λ j.
    elim (Bool-cases (ltb j tagcount)) [
      | inl e ↦ bits j ∙ rw e (same j (ground arith))
      | inr e ↦ bits j ∙ rw e (sym (test_bit-lt tagcount v j small (ground arith)))
    ]
