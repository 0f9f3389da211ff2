-- ===== src/Strategy/Ready/Sets.antt =====
-- One callback of `take_ready_handles`: what claiming a handle does to the set and the result.
use preemptive_executor.Common.{
  ℕ, Bool, true, false, ◌&&◌, ◌||◌, ◌≡◌, refl, ◌⊎◌, inl, inr, Option, none, some, List, [], ◌∷◌,
  ◌++◌, arith, foldl, flat_map, contains, erase, Distinct, if◌then◌else◌, ◌==◌, nat_eq, Bool-cases,
  contains-append, contains-erase_ne, contains-erase_self, contains_of_erase, erase-Distinct,
  Distinct-concat, append_assoc,
}
use preemptive_executor.Ros.{Entity}
use preemptive_executor.Strategy.Ready.{is_empty, insert_handle, Claims, claim_handle, claim}

-- The handle stands in the vector.
abbrev pub listed : ℕ → List (Option ℕ) → Bool
listed h [] = false
listed h (none ∷ hs) = listed h hs
listed h (some x ∷ hs) = x == h || listed h hs

abbrev pub handle_of : Option ℕ → List ℕ
handle_of none = []
handle_of (some h) = h ∷ []

-- The handles of entities.
abbrev pub handles_of : List Entity → List ℕ
handles_of = flat_map λ e. handle_of e.handle

abbrev pub Among : Entity → List Entity → Type 0
Among e [] = ⊥
Among e (x ∷ xs) = (e ≡ x) ⊎ Among e xs

insert_handle-Distinct :
    (set : List ℕ) (o : Option ℕ) → Distinct set → Distinct (insert_handle set o)
unfolding insert_handle
insert_handle-Distinct set none d = d
insert_handle-Distinct set (some h) d = ground arith

contains-insert_handle :
    (h : ℕ) (set : List ℕ) (o : Option ℕ)
    → contains h (insert_handle set o) ≡ (contains h set || listed h (o ∷ []))
unfolding insert_handle
contains-insert_handle h set none = ground arith
contains-insert_handle h set (some x) = ground arith

pub inserts-Distinct :
    (set : List ℕ) (hs : List (Option ℕ)) → Distinct set → Distinct (foldl insert_handle set hs)
inserts-Distinct set [] d = d
inserts-Distinct set (o ∷ hs) d =
    inserts-Distinct (insert_handle set o) hs (insert_handle-Distinct set o d)

pub contains-inserts :
    (h : ℕ) (set : List ℕ) (hs : List (Option ℕ))
    → contains h (foldl insert_handle set hs) ≡ (contains h set || listed h hs)
contains-inserts h set [] = ground arith
contains-inserts h set (none ∷ hs) =
    ground
      (arith, contains-inserts h (insert_handle set none) hs, contains-insert_handle h set none)
contains-inserts h set (some x ∷ hs) = ground (
  arith,
  contains-inserts h (insert_handle set (some x)) hs,
  contains-insert_handle h set (some x),
)

-- The handles of `set`, split into those claimed and those that remain.
pub record Splits (set : List ℕ) (c : Claims) : Type 0 where
  pub remaining : Distinct c.remaining
  pub claimed : Distinct (handles_of c.ready)
  pub apart : (h : ℕ) → (contains h c.remaining && contains h (handles_of c.ready)) ≡ false
  pub whole : (h : ℕ) → (contains h c.remaining || contains h (handles_of c.ready)) ≡ contains h set

pub flat_map-append :
    (f : Entity → List ℕ) (xs ys : List Entity)
    → flat_map f (xs ++ ys) ≡ flat_map f xs ++ flat_map f ys
flat_map-append f [] ys = refl
flat_map-append f (x ∷ xs) ys = rw (flat_map-append f xs ys, append_assoc)

pub handles-concat :
    (es : List Entity) (e : Entity) (h : ℕ)
    → e.handle ≡ some h
    → handles_of (es ++ e ∷ []) ≡ handles_of es ++ h ∷ []
handles-concat es e h q = rw (flat_map-append (λ e. handle_of e.handle) es (e ∷ []), q)

-- A handle that remains is claimed.
module _ (set : List ℕ) (e : Entity) (h : ℕ) (c : Claims) (s : Splits set c) (q : e.handle ≡ some h)
    (free : contains h c.remaining ≡ true) where
  open s use {remaining, claimed, apart, whole}

  abbrev taken : Claims
  taken = record { remaining = erase h c.remaining; ready = c.ready ++ e ∷ [] }

  claimed-taken : Distinct (handles_of taken.ready)
  claimed-taken =
      rw (handles-concat c.ready e h q)
        (Distinct-concat h (handles_of c.ready) (ground (arith, apart h)) claimed)

  contains-taken :
      (x : ℕ) → contains x (handles_of taken.ready) ≡ (contains x (handles_of c.ready) || h == x)
  contains-taken x =
      rw (handles-concat c.ready e h q, contains-append x (handles_of c.ready) (h ∷ []))
        (ground arith)

  contains-left :
      (x : ℕ) → contains x taken.remaining ≡ (if h == x then false else contains x c.remaining)
  contains-left x =
      ground (arith, contains-erase_ne x h c.remaining, contains-erase_self h c.remaining remaining)

  taken-Splits : Splits set taken
  taken-Splits = record {
    remaining = erase-Distinct h c.remaining remaining;
    claimed = claimed-taken;
    apart = λ x. ground (arith, contains-taken x, contains-left x, apart x);
    whole = λ x. ground (arith, contains-taken x, contains-left x, whole x, whole h);
  }

pub claim_handle-Splits :
    (set : List ℕ) (e : Entity) (o : Option ℕ) (c : Claims)
    → e.handle ≡ o
    → Splits set c
    → Splits set (claim_handle e o c)
unfolding claim_handle
claim_handle-Splits set e none c q s = s
claim_handle-Splits set e (some h) c q s = elim (Bool-cases (contains h c.remaining)) [
  | inl free ↦ rw free (taken-Splits set e h c s q free)
  | inr gone ↦ rw gone s
]

-- The early return of the callback changes nothing: with no handle left none is claimed.
claim_early :
    (c : Claims) (e : Entity) (o : Option ℕ) (l : List ℕ)
    → c.remaining ≡ l
    → (if is_empty l then c else claim_handle e o c) ≡ claim_handle e o c
unfolding claim_handle
claim_early c e none [] q = refl
claim_early c e none (x ∷ l) q = refl
claim_early c e (some h) [] q = ground arith
claim_early c e (some h) (x ∷ l) q = refl

pub claim-claim_handle : (c : Claims) (e : Entity) → claim c e ≡ claim_handle e e.handle c
unfolding claim
claim-claim_handle c e = claim_early c e e.handle c.remaining refl

pub claim_handle-gone :
    (e : Entity) (h : ℕ) (c : Claims)
    → Distinct c.remaining
    → contains h (claim_handle e (some h) c).remaining ≡ false
unfolding claim_handle
claim_handle-gone e h c d = ground (arith, contains-erase_self h c.remaining d)

pub claim-shrinks :
    (e : Entity) (o : Option ℕ) (h : ℕ) (c : Claims)
    → contains h c.remaining ≡ false
    → contains h (claim_handle e o c).remaining ≡ false
unfolding claim_handle
claim-shrinks e none h c n = n
claim-shrinks e (some x) h c n = ground (arith, contains_of_erase h x c.remaining)

-- No handle is claimed that is neither claimed before nor the entity's own.
pub claim_handle-claimed :
    (e : Entity) (o : Option ℕ) (h : ℕ) (c : Claims)
    → e.handle ≡ o
    → contains h (handles_of (claim_handle e o c).ready) ≡ true
    → (contains h (handles_of c.ready) || contains h (handle_of o)) ≡ true
unfolding claim_handle
claim_handle-claimed e none h c q m = ground arith
claim_handle-claimed e (some x) h c q m =
    ground (arith, handles-concat c.ready e x q, contains-append h (handles_of c.ready) (x ∷ []))
