-- ===== src/Strategy/Ready/Loop.antt =====
-- All callbacks of one kind in a row.
use preemptive_executor.Common.{
  ℕ, true, false, ◌&&◌, ◌||◌, ◌≡◌, refl, subst, inl, inr, Option, none, some, List, [], ◌∷◌, arith,
  foldl, contains, Distinct, All, All-append, nat_eq, Bool-cases, contains-append,
}
use preemptive_executor.Ros.{Entity}
use preemptive_executor.Strategy.Ready.{handle_set, Claims, claim_handle, claim}
use preemptive_executor.Strategy.Ready.Sets.{
  listed, handle_of, handles_of, Among, Splits, claim_handle-Splits, claim-claim_handle,
  claim_handle-gone, claim-shrinks, claim_handle-claimed, inserts-Distinct, contains-inserts,
}

-- The loop over all entities of one kind.
abbrev pub claim_all : List Entity → Claims → Claims
claim_all es c = foldl claim c es

claim_all-Splits :
    (set : List ℕ) (es : List Entity) (c : Claims) → Splits set c → Splits set (claim_all es c)
claim_all-Splits set [] c s = s
claim_all-Splits set (e ∷ es) c s =
    claim_all-Splits set es (claim c e)
      (rw (claim-claim_handle c e) (claim_handle-Splits set e e.handle c refl s))

claim_all-shrinks :
    (h : ℕ) (es : List Entity) (c : Claims)
    → contains h c.remaining ≡ false
    → contains h (claim_all es c).remaining ≡ false
claim_all-shrinks h [] c n = n
claim_all-shrinks h (e ∷ es) c n =
    claim_all-shrinks h es (claim c e)
      (rw (claim-claim_handle c e) (claim-shrinks e e.handle h c n))

claim-gone :
    (h : ℕ) (e : Entity) (o : Option ℕ) (c : Claims)
    → Distinct c.remaining
    → contains h (handle_of o) ≡ true
    → contains h (claim_handle e o c).remaining ≡ false
claim-gone h e none c d m = cc
claim-gone h e (some x) c d m =
    let q : x ≡ h = ground arith in
    subst (λ y. contains y (claim_handle e (some x) c).remaining ≡ false) q
      (claim_handle-gone e x c d)

claim_all-gone :
    (set : List ℕ) (h : ℕ) (es : List Entity) (c : Claims)
    → Splits set c
    → contains h (handles_of es) ≡ true
    → contains h (claim_all es c).remaining ≡ false
claim_all-gone set h [] c s m = cc
claim_all-gone set h (e ∷ es) c s m = elim (Bool-cases (contains h (handle_of e.handle))) [
  | inl own ↦
      claim_all-shrinks h es (claim c e)
        (rw (claim-claim_handle c e) (claim-gone h e e.handle c s.remaining own))
  | inr other ↦
      claim_all-gone set h es (claim c e)
        (rw (claim-claim_handle c e) (claim_handle-Splits set e e.handle c refl s))
        (ground (arith, contains-append h (handle_of e.handle) (handles_of es)))
]

claim_all-claimed :
    (h : ℕ) (es : List Entity) (c : Claims)
    → contains h (handles_of (claim_all es c).ready) ≡ true
    → (contains h (handles_of c.ready) || contains h (handles_of es)) ≡ true
claim_all-claimed h [] c m = ground arith
claim_all-claimed h (e ∷ es) c m = ground (
  arith,
  claim_all-claimed h es (claim c e) m,
  claim-claim_handle c e,
  claim_handle-claimed e e.handle h c refl,
  contains-append h (handle_of e.handle) (handles_of es),
)

claim_handle-All {ℓ} :
    (P : Entity → Type ℓ) (e : Entity) (o : Option ℕ) (c : Claims)
    → P e
    → All P c.ready
    → All P (claim_handle e o c).ready
unfolding claim_handle
claim_handle-All P e none c p a = a
claim_handle-All P e (some h) c p a = ground (arith, All-append P c.ready (e ∷ []) a (p, tt))

claim_all-All {ℓ} :
    (P : Entity → Type ℓ) (es : List Entity) (c : Claims)
    → All P es
    → All P c.ready
    → All P (claim_all es c).ready
claim_all-All P [] c p a = a
claim_all-All P (e ∷ es) c p a =
    claim_all-All P es (claim c e) p.1
      (rw (claim-claim_handle c e) (claim_handle-All P e e.handle c p.0 a))

All-map {ℓ κ} :
    {P : Entity → Type ℓ} {Q : Entity → Type κ} (xs : List Entity)
    → ((x : Entity) → P x → Q x)
    → All P xs
    → All Q xs
All-map [] f a = tt
All-map (x ∷ xs) f a = (f x a.0, All-map xs f a.1)

All-Among : (xs : List Entity) → All (λ e. Among e xs) xs
All-Among [] = tt
All-Among (x ∷ xs) = (inl refl, All-map xs (λ e m. inr m) (All-Among xs))

-- `ready` are entities of `es`, one for each handle that stands in the vector `hs` and belongs to
-- an entity of `es`, and no other.
pub record Exactly (hs : List (Option ℕ)) (es ready : List Entity) : Type 0 where
  pub among : All (λ e. Among e es) ready
  pub once : Distinct (handles_of ready)
  pub exact : (h : ℕ) → contains h (handles_of ready) ≡ (listed h hs && contains h (handles_of es))

abbrev pub begun : List (Option ℕ) → Claims
begun hs = record { remaining = handle_set hs; ready = [] }

contains-handle_set : (h : ℕ) (hs : List (Option ℕ)) → contains h (handle_set hs) ≡ listed h hs
unfolding handle_set
contains-handle_set h hs = contains-inserts h [] hs

begun-Splits : (hs : List (Option ℕ)) → Splits (handle_set hs) (begun hs)
unfolding handle_set
begun-Splits hs = record {
  remaining = inserts-Distinct [] hs tt;
  claimed = tt;
  apart = λ h. ground arith;
  whole = λ h. ground arith;
}

pub claim_all-Exactly :
    (hs : List (Option ℕ)) (es : List Entity) → Exactly hs es (claim_all es (begun hs)).ready
claim_all-Exactly hs es = record {
  among = claim_all-All (λ e. Among e es) es (begun hs) (All-Among es) tt;
  once = split.claimed;
  exact = λ h. elim (Bool-cases (contains h (handles_of es))) [
    | inl seen ↦ ground (
      arith,
      split.whole h,
      contains-handle_set h hs,
      claim_all-gone (handle_set hs) h es (begun hs) (begun-Splits hs) seen,
    )
    | inr unseen ↦ ground (arith, claim_all-claimed h es (begun hs))
  ];
}
  where
    split : Splits (handle_set hs) (claim_all es (begun hs))
    split = claim_all-Splits (handle_set hs) es (begun hs) (begun-Splits hs)

pub claim_all-nothing : (es : List Entity) (c : Claims) → c.remaining ≡ [] → claim_all es c ≡ c
unfolding claim
claim_all-nothing [] c q = refl
claim_all-nothing (e ∷ es) c q =
    let same : claim c e ≡ c = ground arith in rw same (claim_all-nothing es c q)
