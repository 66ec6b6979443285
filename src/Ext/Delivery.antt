-- ===== src/Ext/Delivery.antt =====
-- The queue of requests in src/workspace.c, outputs that enter a group, and the workspace state.
use monowm.Base.{
  test_bit, test_bit-or, test_bit-pow, test_bit-sub_and, ◌^◌, ℕ, ◌≡◌, refl, ap, ◌∙◌, Bool, true,
  false, Option, none, some, List, [], ◌∷◌, ◌++◌, map, ◌==◌, ==_refl, ==_iff, if◌then◌else◌,
  find_by, arith, Bool-cases, inl, inr,
}
use monowm.Ext.State.{Manager, Workspace, ManagerResource, Group, Env, Request}
use monowm.Ext.Groups.{output_entered, has_output, find_group, group_send_output}
use monowm.Ext.Workspaces.{with_bit, set_state, find_workspace}
use monowm.Ext.Clients.{queue, requests_of, manager_handle_commit, no_requests}

abbrev pub changed {ℓ} : {A : Type ℓ} → (A → A) → Option A → Option A
changed f none = none
changed f (some x) = some (f x)

pub find_by-update {ℓ} :
    {A : Type ℓ} (id : A → ℕ) (f : A → A) (k : ℕ)
    → ((a : A) → id (f a) ≡ id a)
    → (xs : List A)
    → find_by (λ a. id a == k) (map (λ a. if id a == k then f a else a) xs)
      ≡ changed f (find_by (λ a. id a == k) xs)
find_by-update id f k same [] = refl
find_by-update id f k same (y ∷ ys) = elim (Bool-cases (id y == k)) [
  | inl e ↦ rw (e, same y, e) refl
  | inr e ↦ rw (e, e) (find_by-update id f k same ys)
]

commit-requests_of :
    (mgr : ℕ) (s : Manager)
    → (manager_handle_commit mgr s).0 ≡ requests_of (find_by (λ n. n.id == mgr) s.resources)
unfolding manager_handle_commit
commit-requests_of mgr s = refl

queue-find_by :
    (mgr : ℕ) (q : Request) (s : Manager)
    → find_by (λ n. n.id == mgr) (queue mgr q s).resources
      ≡ changed
          (λ n. record n { requests = n.requests ++ q ∷ [] })
          (find_by (λ n. n.id == mgr) s.resources)
unfolding queue
queue-find_by mgr q s = find_by-update (λ n. n.id) _ mgr (λ n. refl) s.resources

commit-find_by :
    (mgr : ℕ) (s : Manager)
    → find_by (λ n. n.id == mgr) (manager_handle_commit mgr s).1.resources
      ≡ changed no_requests (find_by (λ n. n.id == mgr) s.resources)
unfolding manager_handle_commit
commit-find_by mgr s = find_by-update (λ n. n.id) no_requests mgr (λ n. refl) s.resources

-- If a client is bound, a request that is queued for it is handed over by its commit after all
-- requests that were queued before.
pub commit-queue :
    (mgr : ℕ) (q : Request) (s : Manager) (m : ManagerResource)
    → find_by (λ n. n.id == mgr) s.resources ≡ some m
    → (manager_handle_commit mgr (queue mgr q s)).0 ≡ (manager_handle_commit mgr s).0 ++ q ∷ []
commit-queue mgr q s m h = simp (commit-requests_of, queue-find_by, h)

no_requests_left : (o : Option ManagerResource) → requests_of (changed no_requests o) ≡ []
no_requests_left none = refl
no_requests_left (some m) = refl

-- A commit empties the queue: a second commit of the same client directly after it hands over no
-- request.
pub commit-commit :
    (mgr : ℕ) (s : Manager) → (manager_handle_commit mgr (manager_handle_commit mgr s).1).0 ≡ []
commit-commit mgr s = simp (commit-requests_of, commit-find_by, no_requests_left)

entered-find_by :
    (env : Env) (g o : ℕ) (s : Manager)
    → has_output s g o ≡ false
    → find_group (output_entered env g o s) g
      ≡ changed (λ k. record k { outputs = o ∷ k.outputs }) (find_group s g)
unfolding group_send_output output_entered
entered-find_by env g o s e =
    rw (e, output_entered) (find_by-update (λ n. n.id) _ g (λ n. refl) s.groups)

entered_before :
    (env : Env) (g o : ℕ) (s : Manager) → has_output s g o ≡ true → output_entered env g o s ≡ s
unfolding output_entered
entered_before env g o s e = rw (e, output_entered) refl

has_output_now :
    (env : Env) (g o : ℕ) (s : Manager) (h : Group)
    → find_group s g ≡ some h
    → has_output (output_entered env g o s) g o ≡ true
unfolding has_output
has_output_now env g o s h e = elim (Bool-cases (has_output s g o)) [
  | inl f ↦ rw (entered_before env g o s f) f
  | inr f ↦ rw (entered-find_by env g o s f, e) (ground (arith, ==_refl o))
]

-- Where a group exists, an output that entered it is among its outputs, and entering once more
-- changes nothing and sends nothing.
pub output_entered-output_entered :
    (env : Env) (g o : ℕ) (s : Manager) (h : Group)
    → find_group s g ≡ some h
    → (has_output (output_entered env g o s) g o ≡ true)
      × (output_entered env g o (output_entered env g o s) ≡ output_entered env g o s)
output_entered-output_entered env g o s h e =
    let now = has_output_now env g o s h e in
    (now, entered_before env g o (output_entered env g o s) now)

test_bit-with_bit :
    (old i j : ℕ) (b : Bool)
    → test_bit (with_bit old (2 ^ i) b) j ≡ (if i == j then b else test_bit old j)
unfolding with_bit
test_bit-with_bit old i j true = rw (test_bit-or, test_bit-pow) (ground arith)
test_bit-with_bit old i j false = rw (test_bit-sub_and, test_bit-pow) (ground arith)

set_state-find_by :
    (w bit : ℕ) (b : Bool) (s : Manager) (v : Workspace)
    → find_workspace s w ≡ some v
    → (u : Workspace) × (find_workspace (set_state w bit b s) w ≡ some u)
      × (u.state ≡ with_bit v.state bit b)
unfolding set_state
set_state-find_by w bit b s v h = elim (Bool-cases (v.state == with_bit v.state bit b)) [
  | inl e ↦ (v, rw (h, e, set_state) h, (==_iff _ _).0 e)
  | inr e ↦
      let set = λ (u : Workspace). record u { state = with_bit v.state bit b } in
      (
        set v,
        rw (h, e, set_state)
            (find_by-update (λ u. u.id) set w (λ u. refl) s.workspaces ∙ ap (changed set) h),
        refl,
      )
]

-- Where a workspace exists, setting or clearing the state bit at a place changes that bit of its
-- state to the asked value and no other bit.
pub set_state-test_bit :
    (w i : ℕ) (b : Bool) (s : Manager) (v : Workspace)
    → find_workspace s w ≡ some v
    → (u : Workspace) × (find_workspace (set_state w (2 ^ i) b s) w ≡ some u)
      × ((j : ℕ) → test_bit u.state j ≡ (if i == j then b else test_bit v.state j))
set_state-test_bit w i b s v h =
    let (u, found, e) = set_state-find_by w (2 ^ i) b s v h in
    (u, found, λ j. rw e (test_bit-with_bit v.state i j b))
