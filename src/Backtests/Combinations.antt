-- ===== src/Backtests/Combinations.antt =====
-- The combinations of the grid of a parameter sweep.
use Prim.Native.String.{String}
use atrade.Prelude.{
  ℕ, zero, suc, ◌*◌, ◌≤◌, ◌≡◌, refl, ◌==◌, ◌||◌, List, [], ◌∷◌, map, length, length-append, Option,
  none, some, if◌then◌else◌, ltb, arith, All, All-map, All-append,
}
use atrade.Backtests.Grid.{
  StrategyParameter, GridEntry, ParameterValue, ParameterValues, needs_parameters, named_twice,
  too_many_runs, Grid, problem, made, Numbers, max_sweep_runs, max_sweep_parameters, get_parameter,
  has_duplicate, and_values, count_runs, extend_all, combine, values_of, values_by_name, limit_runs,
  make_grid,
}
use atrade.Backtests.GridValues.{
  IsGridValue, make_values-AreGridValues, no_grid, of_made, passed_check, length-map,
}

-- Two results without a problem.
and_values-made :
    {A : Type 0} (g : Grid A) (rest : Grid (List A)) (all : List A)
    → and_values g rest ≡ made all
    → (a : A) × (as' : List A) × (g ≡ made a) × (rest ≡ made as') × (made (a ∷ as') ≡ made all)
and_values-made (problem p) rest all h = absurd (no_grid p all h)
and_values-made (made a) (problem p) all h = absurd (no_grid p all h)
and_values-made (made a) (made xs) all h = (a, xs, refl, refl, h)

product_pos : (a b : ℕ) → 1 ≤ a → 1 ≤ b → 1 ≤ a * b
product_pos (suc a) (suc b) h k = grind arith
product_pos zero b h k = absurd (omega arith)
product_pos (suc a) zero h k = absurd (omega arith)

module _ {F : Type 0} (numbers : Numbers F) where
  -- A combination names the entries in their order, each with a value of the type of its parameter.
  abbrev pub IsCombination : List StrategyParameter → List GridEntry → ParameterValues F → Type 0
  IsCombination parameters [] [] = Unit
  IsCombination parameters [] (v ∷ c) = ⊥
  IsCombination parameters (entry ∷ entries) [] = ⊥
  IsCombination parameters (entry ∷ entries) (v ∷ c) =
      (v.0 ≡ entry.name)
      × ((p : StrategyParameter) × (get_parameter entry.name parameters ≡ some p)
          × IsGridValue numbers entry p.type v.1)
      × IsCombination parameters entries c

  -- A value of the parameter that the entry names.
  abbrev IsValueOf : List StrategyParameter → GridEntry → ParameterValue F → Type 0
  IsValueOf parameters entry v =
      (p : StrategyParameter) × (get_parameter entry.name parameters ≡ some p)
      × IsGridValue numbers entry p.type v

  -- The values of each entry.
  abbrev AreAllGridValues :
      List StrategyParameter → List GridEntry → List (List (ParameterValue F)) → Type 0
  AreAllGridValues parameters [] [] = Unit
  AreAllGridValues parameters [] (v ∷ values) = ⊥
  AreAllGridValues parameters (entry ∷ entries) [] = ⊥
  AreAllGridValues parameters (entry ∷ entries) (v ∷ values) =
      ((1 ≤ length v) × All (IsValueOf parameters entry) v)
      × AreAllGridValues parameters entries values

  values_of-AreValues :
      (parameters : List StrategyParameter) (entry : GridEntry) (o : Option StrategyParameter)
      (values : List (ParameterValue F))
      → get_parameter entry.name parameters ≡ o
      → values_of numbers entry o ≡ made values
      → (1 ≤ length values) × All (IsValueOf parameters entry) values
  values_of-AreValues parameters entry none values e h = absurd (no_grid _ values h)
  values_of-AreValues parameters entry (some p) values e h =
      let (some_values, all) = make_values-AreGridValues numbers entry p.type values h in
      (some_values, All-map values (λ v ok. (p, e, ok)) all)

  values_by_name-AreAllGridValues :
      (entries : List GridEntry) (parameters : List StrategyParameter)
      (values : List (List (ParameterValue F)))
      → values_by_name numbers entries parameters ≡ made values
      → AreAllGridValues parameters entries values
  unfolding values_by_name
  values_by_name-AreAllGridValues [] parameters values h =
      of_made (AreAllGridValues parameters []) h tt
  values_by_name-AreAllGridValues (entry ∷ entries) parameters values h =
      let (v, vs, e1, e2, e3) =
        and_values-made (values_of numbers entry (get_parameter entry.name parameters))
          (values_by_name numbers entries parameters) values h in
      of_made (AreAllGridValues parameters (entry ∷ entries)) e3 (
        values_of-AreValues parameters entry (get_parameter entry.name parameters) v refl e1,
        values_by_name-AreAllGridValues entries parameters vs e2,
      )

  All-map_cons :
      (parameters : List StrategyParameter) (entry : GridEntry) (entries : List GridEntry)
      (v : ParameterValue F) (cs : List (ParameterValues F))
      → IsValueOf parameters entry v
      → All (IsCombination parameters entries) cs
      → All (IsCombination parameters (entry ∷ entries)) (map (λ c. (entry.name, v) ∷ c) cs)
  All-map_cons parameters entry entries v [] ok h = tt
  All-map_cons parameters entry entries v (c ∷ cs) ok h =
      ((refl, ok, h.0), All-map_cons parameters entry entries v cs ok h.1)

  All-extend_all :
      (parameters : List StrategyParameter) (entry : GridEntry) (entries : List GridEntry)
      (values : List (ParameterValue F)) (cs : List (ParameterValues F))
      → All (IsValueOf parameters entry) values
      → All (IsCombination parameters entries) cs
      → All (IsCombination parameters (entry ∷ entries)) (extend_all entry.name values cs)
  unfolding extend_all
  All-extend_all parameters entry entries [] cs ok h = tt
  All-extend_all parameters entry entries (v ∷ values) cs ok h =
      All-append (IsCombination parameters (entry ∷ entries)) (map (λ c. (entry.name, v) ∷ c) cs)
        (extend_all entry.name values cs) (All-map_cons parameters entry entries v cs ok.0 h)
        (All-extend_all parameters entry entries values cs ok.1 h)

  combine-IsCombination :
      (parameters : List StrategyParameter) (entries : List GridEntry)
      (values : List (List (ParameterValue F)))
      → AreAllGridValues parameters entries values
      → All (IsCombination parameters entries) (combine entries values)
  unfolding combine
  combine-IsCombination parameters [] [] h = (tt, tt)
  combine-IsCombination parameters [] (v ∷ values) h = absurd h
  combine-IsCombination parameters (entry ∷ entries) [] h = absurd h
  combine-IsCombination parameters (entry ∷ entries) (v ∷ values) h =
      All-extend_all parameters entry entries v (combine entries values) h.0.1
        (combine-IsCombination parameters entries values h.1)

  length-extend_all :
      (name : String) (values : List (ParameterValue F)) (cs : List (ParameterValues F))
      → length (extend_all name values cs) ≡ length values * length cs
  unfolding extend_all
  length-extend_all name [] cs = omega arith
  length-extend_all name (v ∷ values) cs =
      rw
        (
          length-append (map (λ c. (name, v) ∷ c) cs) (extend_all name values cs),
          length-map (λ (c : ParameterValues F). (name, v) ∷ c) cs,
          length-extend_all name values cs,
        )
        (grind arith)

  -- As many combinations as the product of the counts of the values, 1 at least.
  length-combine :
      (parameters : List StrategyParameter) (entries : List GridEntry)
      (values : List (List (ParameterValue F)))
      → AreAllGridValues parameters entries values
      → (length (combine entries values) ≡ count_runs values) × (1 ≤ count_runs values)
  unfolding combine count_runs
  length-combine parameters [] [] h = (refl, omega arith)
  length-combine parameters [] (v ∷ values) h = absurd h
  length-combine parameters (entry ∷ entries) [] h = absurd h
  length-combine parameters (entry ∷ entries) (v ∷ values) h =
      let (count, some_runs) = length-combine parameters entries values h.1 in
      (
        rw (length-extend_all entry.name v (combine entries values), count) refl,
        product_pos (length v) (count_runs values) h.0.0 some_runs,
      )

  -- The grid of a sweep has 1 to 200 combinations. Each of them gives each entry of the grid, in the order
  -- of the entries, a value of the type of its parameter: a bool for an entry without numbers, an int
  -- between the start and the end that is the start and a multiple of the step, or a float that is the
  -- rounding of such a number.
  pub make_grid-IsCombination :
      (entries : List GridEntry) (parameters : List StrategyParameter)
      (grid : List (ParameterValues F))
      → make_grid numbers entries parameters ≡ made grid
      → (1 ≤ length grid)
        × (length grid ≤ max_sweep_runs)
        × All (IsCombination parameters entries) grid
  unfolding make_grid
  make_grid-IsCombination entries parameters grid h =
      let all = values_by_name numbers entries parameters in
      let limited = limit_runs entries all in
      let named = if has_duplicate entries then problem named_twice else limited in
      let (few, h1) =
        passed_check (length entries == 0 || ltb max_sweep_parameters (length entries))
          needs_parameters named grid h in
      let (once, h2) = passed_check (has_duplicate entries) named_twice limited grid h1 in
      go all refl h2
    where
      go :
          (g : Grid (List (List (ParameterValue F))))
          → values_by_name numbers entries parameters ≡ g
          → limit_runs entries g ≡ made grid
          → (1 ≤ length grid)
            × (length grid ≤ max_sweep_runs)
            × All (IsCombination parameters entries) grid
      go (problem p) e h = absurd (no_grid p grid h)
      go (made values) e h =
          let (few, h') =
            passed_check (ltb max_sweep_runs (count_runs values))
              (too_many_runs (count_runs values)) (made (combine entries values)) grid h in
          let ok = values_by_name-AreAllGridValues entries parameters values e in
          of_made
            (λ g.
              (1 ≤ length g)
              × (length g ≤ max_sweep_runs)
              × All (IsCombination parameters entries) g)
            h'
            (rw (length-combine parameters entries values ok).0 (
              (length-combine parameters entries values ok).1,
              ground arith,
              combine-IsCombination parameters entries values ok,
            ))
