-- ===== src/Config/Loading/Accepted.antt =====
-- What load_and_validate_config returns.
use event_lead_ops_agent.Prelude.{
  String, ◌≡◌, refl, ap, subst, ◌∙◌, ◌⊎◌, inl, inr, Bool, true, false, ◌==◌, Result, ok, err,
  value_error, unok, ==→eq, >>=-eq_ok, >>-eq_ok, if◌then◌else◌,
}
use event_lead_ops_agent.Texts.{Unicode}
use event_lead_ops_agent.Config.{Value, null, boolean, integer, other, text, list, mapping, Entries}
use event_lead_ops_agent.Config.Business.{Zone, validate_business}
use event_lead_ops_agent.Config.Business.Offers.{ValidBusiness, validate_business-ValidBusiness}
use event_lead_ops_agent.Config.Platforms.{validate_platforms}
use event_lead_ops_agent.Config.Platforms.Gates.{ValidPlatforms, validate_platforms-ValidPlatforms}
use event_lead_ops_agent.Config.Scoring.{validate_scoring}
use event_lead_ops_agent.Config.Scoring.Bounds.{ValidScoring, validate_scoring-ValidScoring}
use event_lead_ops_agent.Config.Schedules.{validate_schedules}
use event_lead_ops_agent.Config.Schedules.Jobs.{ValidSchedules, validate_schedules-ValidSchedules}
use event_lead_ops_agent.Config.Loading.{
  expect_mapping, load_yaml, validate, load_and_validate_config,
}

-- One of the four kinds, with what its validator guarantees.
abbrev pub Accepted : Unicode → (String → Zone) → String → Entries → Type 0
Accepted u zone_info kind config =
    ((kind ≡ "business") × ValidBusiness zone_info config)
    ⊎ (((kind ≡ "platforms") × ValidPlatforms u config)
        ⊎ (((kind ≡ "scoring") × ValidScoring config)
            ⊎ ((kind ≡ "schedules") × ValidSchedules u zone_info config)))

module _ (u : Unicode) (zone_info : String → Zone) where
  Accepted-validate :
      (kind : String) (config : Entries)
      → validate u zone_info kind config ≡ ok tt
      → Accepted u zone_info kind config
  unfolding validate
  Accepted-validate kind config e =
      choose (kind == "business") (kind == "platforms") (kind == "scoring") (kind == "schedules")
        refl refl refl refl e
    where
      choose :
          (b p s j : Bool)
          → (kind == "business") ≡ b
          → (kind == "platforms") ≡ p
          → (kind == "scoring") ≡ s
          → (kind == "schedules") ≡ j
          → (if b
              then validate_business zone_info config
              else if p
              then validate_platforms u config
              else if s
              then validate_scoring config
              else if j
              then validate_schedules u zone_info config
              else err (value_error "unknown config kind: "))
            ≡ ok tt
          → Accepted u zone_info kind config
      choose true p s j is_b is_p is_s is_j e =
          inl (==→eq kind _ is_b, validate_business-ValidBusiness zone_info config e)
      choose false true s j is_b is_p is_s is_j e =
          inr (inl (==→eq kind _ is_p, validate_platforms-ValidPlatforms u config e))
      choose false false true j is_b is_p is_s is_j e =
          inr (inr (inl (==→eq kind _ is_s, validate_scoring-ValidScoring config e)))
      choose false false false true is_b is_p is_s is_j e =
          inr
            (inr (inr (==→eq kind _ is_j, validate_schedules-ValidSchedules u zone_info config e)))
      choose false false false false is_b is_p is_s is_j e = absurd cc

expect_mapping-eq_ok :
    (v : Value) (entries : Entries) → expect_mapping v ≡ ok entries → v ≡ mapping entries
expect_mapping-eq_ok (mapping found) entries e = ap mapping (unok e)
expect_mapping-eq_ok null entries e = cc
expect_mapping-eq_ok (boolean b) entries e = cc
expect_mapping-eq_ok (integer n) entries e = cc
expect_mapping-eq_ok (other s) entries e = cc
expect_mapping-eq_ok (text s) entries e = cc
expect_mapping-eq_ok (list vs) entries e = cc

-- A configuration that load_and_validate_config returns is the mapping that the file holds, and its
-- kind is one of business, platforms, scoring and schedules, of which it has all that the kind's
-- validator guarantees.
pub load_and_validate_config-Accepted :
    (u : Unicode) (zone_info : String → Zone) (safe_load : String → Result Value)
    (path kind : String) (config : Entries)
    → load_and_validate_config u zone_info safe_load path kind ≡ ok config
    → (safe_load path ≡ ok (mapping config)) × Accepted u zone_info kind config
unfolding load_and_validate_config load_yaml
load_and_validate_config-Accepted u zone_info safe_load path kind config e =
    let (loaded, l, e1) = >>=-eq_ok (load_yaml safe_load path) _ e in
    let (valid, done) = >>-eq_ok (validate u zone_info kind loaded) _ e1 in
    let (v, read, is_mapping) = >>=-eq_ok (safe_load path) _ l in
    subst (λ c. (safe_load path ≡ ok (mapping c)) × Accepted u zone_info kind c) (unok done)
      (
        read ∙ ap ok (expect_mapping-eq_ok v loaded is_mapping),
        Accepted-validate u zone_info kind loaded valid,
      )
