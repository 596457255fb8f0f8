-- ===== src/Client/Configs.antt =====
-- client/configs.rs. What the config crate makes of its sources is a parameter, and so are ratios (f64).
use native.Mathlib.Nat.{div-eq_of_lt, div-eq-sub-div}
use id2203_project.Common.Settings.{file, environment, Loaded, Loader, Variables}
use id2203_project.Base.{
  true, [], ◌∷◌, ltb, ℕ, ◌*◌, ◌/◌, ◌<◌, ◌≤◌, String, id_key, ◌≡◌, Option, none, some, List, arith,
  ◌==◌, if◌then◌else◌, ◌↔◌, Bool-cases, inl, inr,
}

-- A signed number of milliseconds.
pub data ℤ : Type 0 where
  pos negsuc : ℕ → ℤ

pub record RequestInterval (Ratio : Type 0) : Type 0 where
  pub duration_sec : ℕ
  pub requests_per_sec : ℕ
  pub read_ratio : Ratio

pub record ClientConfig (Ratio : Type 0) : Type 0 where
  pub location : String
  pub server_id : ℕ
  pub server_address : String
  pub requests : List (RequestInterval Ratio)
  pub sync_time : Option ℤ
  pub summary_filepath : String
  pub output_filepath : String

module _ {Ratio : Type 0} where
  abbrev pub get_read_ratio : RequestInterval Ratio → Ratio
  get_read_ratio r = r.read_ratio

  -- In milliseconds.
  abbrev pub get_interval_duration : RequestInterval Ratio → ℕ
  get_interval_duration r = r.duration_sec * 1000

  -- In milliseconds; `none` is the failed assertion.
  unfoldable pub get_request_delay : RequestInterval Ratio → Option ℕ
  get_request_delay r =
      if r.requests_per_sec == 0
      then some (999999 * 1000)
      else let delay_ms = 1000 / r.requests_per_sec in if delay_ms == 0 then none else some delay_ms

  -- The delay between requests is always positive, and the assertion fails exactly for more than a
  -- thousand requests in a second.
  pub get_request_delay_lem :
      (r : RequestInterval Ratio)
      → ((get_request_delay r ≡ none) ↔ (1000 < r.requests_per_sec))
        × ((delay : ℕ) → get_request_delay r ≡ some delay → 0 < delay)
  unfolding get_request_delay
  get_request_delay_lem r = elim (Bool-cases (ltb 0 r.requests_per_sec)) [
    | inl some_requests ↦
        let positive : 0 < r.requests_per_sec = ground arith in
        elim (Bool-cases (ltb 1000 r.requests_per_sec)) [
          | inl many ↦
              let lt : 1000 < r.requests_per_sec = ground arith in
              let whole = div-eq_of_lt lt in
              ((λ e. lt, λ h. ground (arith, whole)), λ delay e. ground (arith, whole, e))
          | inr few ↦
              let le : r.requests_per_sec ≤ 1000 = ground arith in
              let whole = div-eq-sub-div positive le in
              (
                (λ e. absurd (ground (arith, whole, e)), λ h. absurd (omega arith)),
                λ delay e. ground (arith, whole, e),
              )
        ]
    | inr no_requests ↦ (
      (λ e. absurd (ground (arith, e)), λ h. absurd (ground arith)),
      λ delay e. ground (arith, e),
    )
  ]

  -- The configuration from the file that the environment names and from its variables; nothing is the
  -- panic when the file is not named.
  unfoldable pub new :
      {E : Type 0}
      → Variables
      → Loader E (ClientConfig Ratio)
      → Option (Loaded E (ClientConfig Ratio))
  new var load = elim (var "CONFIG_FILE") [
    | none ↦ none
    | some config_file ↦ some (load (file config_file ∷ environment "OMNIPAXOS" true none [] ∷ []))
  ]

  new-panics :
      {E : Type 0} (var : Variables) (load : Loader E (ClientConfig Ratio))
      → (new var load ≡ none) ↔ (var "CONFIG_FILE" ≡ none)
  unfolding new
  new-panics var load = ground arith
