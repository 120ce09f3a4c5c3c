-- ===== src/Workflow/Analysed.antt =====
-- What a run of `Analyze` may leave.
use gb_522_a16g.Base.{ℕ, ◌≡◌, refl, ◌⊎◌, String, List, true, ◌==◌, Result, ok}
use gb_522_a16g.Float.{Float64}
use gb_522_a16g.Constants.{CaseStatus}
use gb_522_a16g.Algorithm.Compare.{Difference}
use gb_522_a16g.Model.{LocalizationCase, AnalyzeCaseRequest}
use gb_522_a16g.Store.{Tables, Engine}
use gb_522_a16g.Repository.Query.{first}
use gb_522_a16g.Service.Case.Values.{analysis_parameters}
use gb_522_a16g.Workflow.Defs.{start, failure, completion}
use gb_522_a16g.Workflow.Writes.{Written}
use gb_522_a16g.Workflow.Compared.{Compared}
use gb_522_a16g.Workflow.Bodies.{Released}

module _ {F : Type 0} ⦃fl : Float64 F⦄ where
  -- Nothing was written, or only the release of a lease: of a case that was last written longer than
  -- ten minutes before the time of the release.
  abbrev pub Prepared : Engine F → ℕ → Tables F → Tables F → Type 0
  Prepared engine id t u = (u ≡ t) ⊎ Released engine id t true u

  -- The lease of the case was taken.
  abbrev pub Taken : Engine F → ℕ → LocalizationCase F → Tables F → Tables F → Type 0
  Taken engine id item t v =
      (u : Tables F) × Prepared engine id t u
      × (first (λ (c : LocalizationCase F). c.id == id) u.cases ≡ ok item)
      × Written (start id item.version) u v

  abbrev pub Begun : Engine F → ℕ → Tables F → Tables F → Type 0
  Begun engine id t v = (item : LocalizationCase F) × Taken engine id item t v

  -- The analysis failed and the case went back to the draft state.
  abbrev pub Failed : Engine F → ℕ → Tables F → Tables F → Type 0
  Failed engine id t t' =
      (v : Tables F) × (message : String) × Begun engine id t v × Written (failure id message) v t'

  -- The differences of the case's two traces, as their events stood under the lease, were saved for
  -- review.
  abbrev pub Completed : Engine F → ℕ → AnalyzeCaseRequest F → Tables F → Tables F → Type 0
  Completed engine id request t t' =
      (v : Tables F) × (item : LocalizationCase F) × (differences : List (Difference F)) × Taken
        engine id item t v
      × Compared item (analysis_parameters request item) v differences
      × Written (completion id differences (analysis_parameters request item)) v t'

  abbrev pub IsNoValue : Result (LocalizationCase F) → Type 0
  IsNoValue r = (c : LocalizationCase F) → ¬ (r ≡ ok c)

  -- A value is returned only once the analysis is saved.
  abbrev pub Analysed :
      Engine F
      → ℕ
      → AnalyzeCaseRequest F
      → Tables F
      → Result (LocalizationCase F)
      → Tables F
      → Type 0
  Analysed engine id request t r t' =
      Completed engine id request t t'
      ⊎ (IsNoValue r × (Prepared engine id t t' ⊎ (Begun engine id t t' ⊎ Failed engine id t t')))

  -- What the first part of `Analyze` leaves.
  abbrev pub Ready : Engine F → ℕ → Tables F → LocalizationCase F → Tables F → Type 0
  Ready engine id t c t' =
      Prepared engine id t t'
      × (first (λ (x : LocalizationCase F). x.id == id) t'.cases ≡ ok c)
      × (c.id ≡ id)

  -- The parameters do not hang on the status and the version.
  pub parameters_lem :
      (request : AnalyzeCaseRequest F) (item : LocalizationCase F) (status : CaseStatus)
      (version : ℕ)
      → analysis_parameters request (record item { case_status = status; version = version })
        ≡ analysis_parameters request item
  unfolding analysis_parameters
  parameters_lem request item status version = refl
