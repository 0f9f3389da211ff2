-- ===== src/Executor/Populate/Sorted.antt =====
-- The bundles that `populate_ready_queues` (src/preemptive_executor.cpp) makes, and how its map
-- groups them.
use preemptive_executor.Common.{
  ℕ, ◌+◌, ◌≡◌, refl, Option, none, some, List, [], ◌∷◌, ◌++◌, lookup, ◌==◌, nat_eq, Outcome, ok,
  err, arith, Bool-cases, inl, inr, ap, subst,
}
use preemptive_executor.Common.Action.{resume}
use preemptive_executor.Ros.{Entity}
use preemptive_executor.Bundles.{Middleware, Bundle, get_raw_handle}
use preemptive_executor.Executor.Populate.{
  Bundles, Sorting, Take, find_group, emplace_bundle, file_bundle, place, place_all,
}

module _ (mw : Middleware) where
  abbrev pub with_group : Bundle mw → Option ℕ → List (ℕ × Bundle mw)
  with_group b none = []
  with_group b (some t) = (t, b) ∷ []

  -- A bundle and the thread group that its handle has in the timing information, if the take has
  -- returned one.
  abbrev pub filed : List (ℕ × ℕ) → Outcome (Option (Bundle mw)) → List (ℕ × Bundle mw)
  filed hs (err x) = []
  filed hs (ok none) = []
  filed hs (ok (some b)) = with_group b (lookup (get_raw_handle mw b) hs)

  -- What taking the entities one after the other gives, each bundle with its thread group.
  abbrev pub taken :
      List (ℕ × ℕ) → Take mw → List Entity → mw.World → List (ℕ × Bundle mw) × mw.World
  taken hs take [] w = ([], w)
  taken hs take (e ∷ es) w =
      let (o, w₁) = take e.ptr w in let (rest, w₂) = taken hs take es w₁ in (filed hs o ++ rest, w₂)

  -- A measure of a bundle for a group, summed over bundles in a row and over the map.
  module _ (f : ℕ → Bundle mw → ℕ) where
    abbrev pub weigh : List (ℕ × Bundle mw) → ℕ
    weigh [] = 0
    weigh ((t, b) ∷ rest) = f t b + weigh rest

    abbrev pub weigh_bundles : ℕ → List (Bundle mw) → ℕ
    weigh_bundles t [] = 0
    weigh_bundles t (b ∷ bs) = f t b + weigh_bundles t bs

    abbrev pub weigh_entry : ℕ × List (Bundle mw) → ℕ
    weigh_entry (t, bs) = weigh_bundles t bs

    abbrev pub total : Bundles mw → ℕ
    total [] = 0
    total (e ∷ m) = weigh_entry e + total m

    pub weigh-append : (xs ys : List (ℕ × Bundle mw)) → weigh (xs ++ ys) ≡ weigh xs + weigh ys
    weigh-append [] ys = omega arith
    weigh-append ((t, b) ∷ xs) ys = omega (arith, weigh-append xs ys)

    weigh_bundles-concat :
        (t : ℕ) (b : Bundle mw) (bs : List (Bundle mw))
        → weigh_bundles t (bs ++ b ∷ []) ≡ weigh_bundles t bs + f t b
    weigh_bundles-concat t b [] = omega arith
    weigh_bundles-concat t b (c ∷ bs) = omega (arith, weigh_bundles-concat t b bs)

    total-emplace_bundle :
        (t : ℕ) (b : Bundle mw) (m : Bundles mw) → total (emplace_bundle mw t b m) ≡ total m + f t b
    unfolding emplace_bundle
    total-emplace_bundle t b [] = omega arith
    total-emplace_bundle t b ((j, bs) ∷ m) = elim (Bool-cases (j == t)) [
      | inl same ↦ rw same (
          omega
            (arith, weigh_bundles-concat j b bs, ap (λ k. f k b) ((nat_eq.same_iff j t).0 same)))
      | inr other ↦ rw other (omega (arith, total-emplace_bundle t b m))
    ]

    -- A routine that returns has added these bundles to the map, and left rclcpp in this state.
    unfoldable pub Adds :
        List (ℕ × Bundle mw) → mw.World → Sorting mw → Outcome (Unit {0}) × Sorting mw → Type 0
    Adds new w s (err x, t) = Unit
    Adds new w s (ok u, t) =
        (total t.bundles_by_tgid ≡ total s.bundles_by_tgid + weigh new) × (t.world ≡ w)

    dropped-Adds :
        (missing : Outcome (Unit {0})) (w : mw.World) (s : Sorting mw)
        → s.world ≡ w
        → Adds [] w s (missing, s)
    unfolding Adds
    dropped-Adds (ok u) w s h = (omega arith, h)
    dropped-Adds (err x) w s h = tt

    then-Adds :
        (xs ys : List (ℕ × Bundle mw)) (w : mw.World) (s t : Sorting mw)
        (out : Outcome (Unit {0}) × Sorting mw)
        → total t.bundles_by_tgid ≡ total s.bundles_by_tgid + weigh xs
        → Adds ys w t out
        → Adds (xs ++ ys) w s out
    unfolding Adds
    then-Adds xs ys w s t (err x, z) a c = tt
    then-Adds xs ys w s t (ok u, z) a c = (omega (arith, a, c.0, weigh-append xs ys), c.1)

    pub resume-Adds :
        (xs ys : List (ℕ × Bundle mw)) (v w : mw.World) (s : Sorting mw)
        (r : Outcome (Unit {0}) × Sorting mw) (k : Sorting mw → Outcome (Unit {0}) × Sorting mw)
        → Adds xs v s r
        → ((t : Sorting mw) → t.world ≡ v → Adds ys w t (k t))
        → Adds (xs ++ ys) w s (resume (λ _. k) r)
    unfolding Adds
    resume-Adds xs ys v w s (err x, t) k a b = tt
    resume-Adds xs ys v w s (ok u, t) k a b = then-Adds xs ys w s t (k t) a.0 (b t a.1)

    module _ (hs : List (ℕ × ℕ)) (missing : Outcome (Unit {0})) where
      file_bundle-Adds :
          (b : Bundle mw) (o : Option ℕ) (w : mw.World) (s : Sorting mw)
          → s.world ≡ w
          → Adds (with_group b o) w s (file_bundle mw missing b (ok o) s)
      unfolding file_bundle Adds
      file_bundle-Adds b (some t) w s h =
          (omega (arith, total-emplace_bundle t b s.bundles_by_tgid), h)
      file_bundle-Adds b none w s h = dropped-Adds missing w s h

      place-Adds :
          (s : Sorting mw) (r : Outcome (Option (Bundle mw)) × mw.World)
          → Adds (filed hs r.0) r.1 s (place mw (some hs) missing s r)
      unfolding place find_group Adds
      place-Adds s (err x, w) = tt
      place-Adds s (ok none, w) = (omega arith, refl)
      place-Adds s (ok (some b), w) =
          file_bundle-Adds b (lookup (get_raw_handle mw b) hs) w (record s { world = w }) refl

      pub place_all-Adds :
          (take : Take mw) (es : List Entity) (s : Sorting mw)
          → Adds
              (taken hs take es s.world).0
              (taken hs take es s.world).1
              s
              (place_all mw (some hs) missing take es s)
      unfolding place_all Adds
      place_all-Adds take [] s = (omega arith, refl)
      place_all-Adds take (e ∷ es) s =
          let (o, v) = take e.ptr s.world in
          resume-Adds (filed hs o) (taken hs take es v).0 v (taken hs take es v).1 s
            (place mw (some hs) missing s (o, v)) (λ t. place_all mw (some hs) missing take es t)
            (place-Adds s (o, v))
            λ t same.
              subst
                (λ u.
                  Adds (taken hs take es u).0 (taken hs take es u).1 t
                    (place_all mw (some hs) missing take es t))
                same (place_all-Adds take es t)
