-- ===== src/Ros.antt =====
-- What the code sees of rclcpp's objects. Addresses are numbers; a null pointer is `none`.
use preemptive_executor.Common.{
  ℕ, Bool, Option, List, [], ◌∷◌, ◌++◌, ◌≡◌, refl, flat_map, foldl, append-nil, append_assoc,
}

-- A SubscriptionBase, ServiceBase, ClientBase, TimerBase or Waitable: its address, and the address
-- that its `get_..._handle()` returns (a waitable has no handle of its own: there it is not read).
pub record Entity : Type 0 where
  pub ptr : ℕ
  pub handle : Option ℕ

-- A pointer that `CallbackGroup::collect_all_ptrs` hands to one of its five callbacks.
pub data Member : Type 0 where
  subscription : Entity → Member
  service : Entity → Member
  client : Entity → Member
  timer : Entity → Member
  waitable : Entity → Member

-- A CallbackGroup: `members` are the pointers that `collect_all_ptrs` visits, in its order.
pub record Group : Type 0 where
  pub id : ℕ
  pub can_be_taken_from : Bool
  pub automatically_add : Bool
  pub associated : Bool
  pub mutually_exclusive : Bool
  pub members : List Member

-- An entry of a `WeakCallbackGroupsToNodesMap`: what `lock()` gives for its two weak pointers.
pub record Entry : Type 0 where
  pub group : Option Group
  pub node : Option ℕ

-- `group->collect_all_ptrs(...)`, the five callbacks by clauses over `Member`.
unfoldable pub collect_all_ptrs {ℓ} : {S : Type ℓ} → (S → Member → S) → List Member → S → S
collect_all_ptrs visit [] s = s
collect_all_ptrs visit (m ∷ ms) s = collect_all_ptrs visit ms (visit s m)

-- A quantity that each visit extends by the same function of the member ends as their sum.
pub collect_all_ptrs-append {ℓ κ} :
    {S : Type ℓ} {A : Type κ} (visit : S → Member → S) (view : S → List A) (own : Member → List A)
    → ((s : S) (m : Member) → view (visit s m) ≡ view s ++ own m)
    → (ms : List Member) (s : S) → view (collect_all_ptrs visit ms s) ≡ view s ++ flat_map own ms
unfolding collect_all_ptrs
collect_all_ptrs-append visit view own step [] s = rw append-nil
collect_all_ptrs-append visit view own step (m ∷ ms) s =
    rw (collect_all_ptrs-append visit view own step ms (visit s m), step s m, append_assoc)

pub foldl-append {ℓ κ} :
    {A : Type ℓ} {S : Type κ} (f : S → A → S) (s : S) (xs ys : List A)
    → foldl f s (xs ++ ys) ≡ foldl f (foldl f s xs) ys
foldl-append f s [] ys = refl
foldl-append f s (x ∷ xs) ys = foldl-append f (f s x) xs ys

-- A part of the state that each visit folds over what it sees of the member.
pub collect_all_ptrs-foldl {ℓ κ μ} :
    {S : Type ℓ} {T : Type κ} {A : Type μ} (visit : S → Member → S) (view : S → T)
    (own : Member → List A) (f : T → A → T)
    → ((s : S) (m : Member) → view (visit s m) ≡ foldl f (view s) (own m))
    → (ms : List Member) (s : S)
    → view (collect_all_ptrs visit ms s) ≡ foldl f (view s) (flat_map own ms)
unfolding collect_all_ptrs
collect_all_ptrs-foldl visit view own f step [] s = refl
collect_all_ptrs-foldl visit view own f step (m ∷ ms) s = rw (
  collect_all_ptrs-foldl visit view own f step ms (visit s m),
  step s m,
  foldl-append f (view s) (own m) (flat_map own ms),
)
