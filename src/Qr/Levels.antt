-- ===== src/Qr/Levels.antt =====
-- encode.go and logo.go: the levels of error correction, and the one that a logo needs. A scale and a
-- budget are fractions, written in millionths.
use qurator.Common.{
  ℕ, ◌≤◌, ◌<◌, ◌≡◌, ◌⊎◌, refl, ap, sym, inl, inr, Bool, true, false, not, Option, none, some, List,
  [], ◌∷◌, Result, ok, err, drop, leb, Bool-cases, Option-cases, if◌then◌else◌, arith,
}
use mathlib.Core.Path.{subst}
use qurator.Domain.{EcLevel, ec_unset, ec_low, ec_medium, ec_quartile, ec_high, ec_other}

abbrev pub level_order : List EcLevel
level_order = ec_low ∷ ec_medium ∷ ec_quartile ∷ ec_high ∷ []

-- levelRank, one more than in the source, so that its -1 is 0
unfoldable pub level_rank : EcLevel → ℕ
level_rank ec_low = 1
level_rank ec_medium = 2
level_rank ec_quartile = 3
level_rank ec_high = 4
level_rank ec_unset = 0
level_rank (ec_other t) = 0

-- LogoBudget; a level that the map lacks has none
unfoldable pub logo_budget : EcLevel → ℕ
logo_budget ec_low = 50000
logo_budget ec_medium = 120000
logo_budget ec_quartile = 200000
logo_budget ec_high = 250000
logo_budget ec_unset = 0
logo_budget (ec_other t) = 0

-- LogoTooLargeError
pub record LogoTooLarge : Type 0 where
  pub scale : ℕ
  pub max_scale : ℕ
  pub level : EcLevel

unfoldable pub first_fitting : ℕ → List EcLevel → Option EcLevel
unfolding logo_budget
first_fitting scale [] = none
first_fitting scale (l ∷ ls) =
    let rest = first_fitting scale ls in if leb scale (logo_budget l) then some l else rest

unfoldable pub resolve_logo_level : EcLevel → ℕ → Bool → Result LogoTooLarge EcLevel
unfolding first_fitting logo_budget level_rank
resolve_logo_level requested scale auto_raise =
    if leb scale (logo_budget requested)
    then ok requested
    else if not auto_raise
    then err (record { scale = scale; max_scale = logo_budget requested; level = requested })
    else elim (first_fitting scale (drop (level_rank requested) level_order)) [
      | some l ↦ ok l
      | none ↦ err (record { scale = scale; max_scale = logo_budget ec_high; level = ec_high })
    ]

-- What the level for a logo is: the requested one where the logo fits its budget. Otherwise, with
-- automatic raising, the lowest level above it that the logo fits; and an error where there is none,
-- or where raising was not asked for. The error holds the budget that the logo exceeds.
pub record LevelFor (requested : EcLevel) (scale : ℕ) (auto_raise : Bool)
    (r : Result LogoTooLarge EcLevel) : Type 0 where
  pub kept : scale ≤ logo_budget requested → r ≡ ok requested
  pub chosen :
      (l : EcLevel)
      → r ≡ ok l
      → (scale ≤ logo_budget l)
        × ((l ≡ requested)
            ⊎ ((auto_raise ≡ true)
                × (level_rank requested < level_rank l)
                × ((k : EcLevel)
                    → level_rank requested < level_rank k
                    → scale ≤ logo_budget k
                    → level_rank l ≤ level_rank k)))
  pub refused :
      (e : LogoTooLarge)
      → r ≡ err e
      → (e.max_scale < scale)
        × (e.scale ≡ scale)
        × ((auto_raise ≡ false)
            ⊎ ((k : EcLevel) → level_rank requested < level_rank k → logo_budget k < scale))

-- The levels have their ranks, and a larger budget at each.
budget_of_rank :
    (l : EcLevel)
    → ((level_rank l ≡ 0) × (logo_budget l ≡ 0))
      ⊎ ((level_rank l ≡ 1) × (logo_budget l ≡ 50000))
      ⊎ ((level_rank l ≡ 2) × (logo_budget l ≡ 120000))
      ⊎ ((level_rank l ≡ 3) × (logo_budget l ≡ 200000))
      ⊎ ((level_rank l ≡ 4) × (logo_budget l ≡ 250000))
unfolding level_rank logo_budget
budget_of_rank ec_low = ground arith
budget_of_rank ec_medium = ground arith
budget_of_rank ec_quartile = ground arith
budget_of_rank ec_high = ground arith
budget_of_rank ec_unset = ground arith
budget_of_rank (ec_other t) = ground arith

-- the level by what the scale fits
raised :
    (requested l : EcLevel) (scale : ℕ)
    → 0 < level_rank requested
    → logo_budget requested < scale
    → first_fitting scale (drop (level_rank requested) level_order) ≡ some l
    → (scale ≤ logo_budget l)
      × (level_rank requested < level_rank l)
      × ((k : EcLevel)
          → level_rank requested < level_rank k
          → scale ≤ logo_budget k
          → level_rank l ≤ level_rank k)
unfolding first_fitting level_rank
raised ec_low l scale p n h =
    (ground arith, ground arith, λ k a b. ground (arith, budget_of_rank k))
raised ec_medium l scale p n h =
    (ground arith, ground arith, λ k a b. ground (arith, budget_of_rank k))
raised ec_quartile l scale p n h =
    (ground arith, ground arith, λ k a b. ground (arith, budget_of_rank k))
raised ec_high l scale p n h = absurd (ground arith)
raised ec_unset l scale p n h = absurd (omega arith)
raised (ec_other t) l scale p n h = absurd (omega arith)

unraised :
    (requested : EcLevel) (scale : ℕ)
    → 0 < level_rank requested
    → logo_budget requested < scale
    → first_fitting scale (drop (level_rank requested) level_order) ≡ none
    → (logo_budget ec_high < scale)
      × ((k : EcLevel) → level_rank requested < level_rank k → logo_budget k < scale)
unfolding first_fitting level_rank
unraised ec_low scale p n h = (ground arith, λ k a. ground (arith, budget_of_rank k))
unraised ec_medium scale p n h = (ground arith, λ k a. ground (arith, budget_of_rank k))
unraised ec_quartile scale p n h = (ground arith, λ k a. ground (arith, budget_of_rank k))
unraised ec_high scale p n h = (ground arith, λ k a. ground (arith, budget_of_rank k))
unraised ec_unset scale p n h = absurd (omega arith)
unraised (ec_other t) scale p n h = absurd (omega arith)

resolved_kept :
    (requested : EcLevel) (scale : ℕ) (auto_raise : Bool)
    → scale ≤ logo_budget requested
    → resolve_logo_level requested scale auto_raise ≡ ok requested
unfolding resolve_logo_level
resolved_kept requested scale auto_raise h = ground arith

resolved_refused :
    (requested : EcLevel) (scale : ℕ)
    → logo_budget requested < scale
    → resolve_logo_level requested scale false
      ≡ err (record { scale = scale; max_scale = logo_budget requested; level = requested })
unfolding resolve_logo_level
resolved_refused requested scale h = ground arith

resolved_raised :
    (requested : EcLevel) (scale : ℕ)
    → logo_budget requested < scale
    → resolve_logo_level requested scale true
      ≡ elim (first_fitting scale (drop (level_rank requested) level_order)) [
        | some l ↦ ok l
        | none ↦ err (record { scale = scale; max_scale = logo_budget ec_high; level = ec_high })
      ]
unfolding resolve_logo_level
resolved_raised requested scale h = ground arith

kept-LevelFor :
    (requested : EcLevel) (scale : ℕ) (auto_raise : Bool)
    → scale ≤ logo_budget requested
    → LevelFor requested scale auto_raise (ok requested)
kept-LevelFor requested scale auto_raise h = record {
  kept = λ _. refl;
  chosen = λ l q. let e : requested ≡ l = cc in (omega (arith, h, ap logo_budget e), inl (sym e));
  refused = λ e q. absurd (ground arith);
}

refused-LevelFor :
    (requested level : EcLevel) (scale : ℕ) (auto_raise : Bool)
    → logo_budget requested < scale
    → logo_budget level < scale
    → (auto_raise ≡ false)
      ⊎ ((k : EcLevel) → level_rank requested < level_rank k → logo_budget k < scale)
    → LevelFor requested scale auto_raise
        (err (record { scale = scale; max_scale = logo_budget level; level = level }))
refused-LevelFor requested level scale auto_raise h g why = record {
  kept = λ l. absurd (omega arith);
  chosen = λ l q. absurd (ground arith);
  refused = λ e q. (ground arith, ground arith, why);
}

raised-LevelFor :
    (requested l : EcLevel) (scale : ℕ)
    → logo_budget requested < scale
    → scale ≤ logo_budget l
    → level_rank requested < level_rank l
    → ((k : EcLevel)
        → level_rank requested < level_rank k
        → scale ≤ logo_budget k
        → level_rank l ≤ level_rank k)
    → LevelFor requested scale true (ok l)
raised-LevelFor requested l scale n f r least = record {
  kept = λ h. absurd (omega arith);
  chosen = λ k q.
      let e : l ≡ k = cc in
      subst
        (λ (k : EcLevel).
          (scale ≤ logo_budget k)
          × ((k ≡ requested)
              ⊎ ((true ≡ true)
                  × (level_rank requested < level_rank k)
                  × ((j : EcLevel)
                      → level_rank requested < level_rank j
                      → scale ≤ logo_budget j
                      → level_rank k ≤ level_rank j))))
        e (f, inr (refl, r, least));
  refused = λ e q. absurd (ground arith);
}

above :
    (requested : EcLevel) (scale : ℕ) (auto_raise : Bool)
    → 0 < level_rank requested
    → logo_budget requested < scale
    → LevelFor requested scale auto_raise (resolve_logo_level requested scale auto_raise)
above requested scale false p n =
    rw (resolved_refused requested scale n)
      (refused-LevelFor requested requested scale false n n (inl refl))
above requested scale true p n =
    elim (Option-cases (first_fitting scale (drop (level_rank requested) level_order))) [
      | inl q ↦
          let (g, all) = unraised requested scale p n q in
          rw (resolved_raised requested scale n, q)
            (refused-LevelFor requested ec_high scale true n g (inr all))
      | inr (l, q) ↦
          let (f, r, least) = raised requested l scale p n q in
          rw (resolved_raised requested scale n, q) (raised-LevelFor requested l scale n f r least)
    ]

-- For a level that there is, resolveLogoLevel keeps it if the logo fits its budget. Otherwise it
-- gives the lowest level above that the logo fits, if raising is allowed and there is one; and fails
-- if not, with a budget that the logo exceeds.
pub resolve_logo_level-LevelFor :
    (requested : EcLevel) (scale : ℕ) (auto_raise : Bool)
    → 0 < level_rank requested
    → LevelFor requested scale auto_raise (resolve_logo_level requested scale auto_raise)
resolve_logo_level-LevelFor requested scale auto_raise p =
    elim (Bool-cases (leb scale (logo_budget requested))) [
      | inl f ↦
          rw (resolved_kept requested scale auto_raise (ground arith))
            (kept-LevelFor requested scale auto_raise (ground arith))
      | inr f ↦ above requested scale auto_raise p (ground arith)
    ]
