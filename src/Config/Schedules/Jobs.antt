-- ===== src/Config/Schedules/Jobs.antt =====
-- What a schedules configuration that _validate_schedules accepts guarantees.
use event_lead_ops_agent.Prelude.{
  ℕ, suc, String, ◌≡◌, refl, sym, subst, true, false, not, ◌&&◌, ◌==◌, ◌+++◌, List, [], ◌∷◌, ok,
  arith, >>=-eq_ok, >>-eq_ok, ensure-eq_ok, ensure-eq_true, &&-both,
}
use event_lead_ops_agent.Host.{decimal}
use event_lead_ops_agent.Texts.{chars, Unicode, split_words}
use event_lead_ops_agent.Config.{
  Value, null, boolean, integer, other, text, list, mapping, Entries, get, is_one_of, as_mapping,
}
use event_lead_ops_agent.Config.Laws.{as_mapping-eq_ok}
use event_lead_ops_agent.Config.Business.Offers.{
  not-true, FilledList, as_filled_list-eq_ok, check_zone-eq_ok,
}
use event_lead_ops_agent.Config.Cron.{cron_ranges, validate_cron}
use event_lead_ops_agent.Config.Cron.Ranges.{Fields, validate_cron-Fields}
use event_lead_ops_agent.Config.Platforms.{member}
use event_lead_ops_agent.Config.Platforms.Gates.{IsOneOf, member-eq_true}
use event_lead_ops_agent.Config.Business.{Zone, found, check_zone, text_of, as_filled_list}
use event_lead_ops_agent.Config.Schedules.{
  is_text_value, is_nonempty_text, validate_job, validate_jobs, validate_schedules,
}

-- A job with an ID that no earlier job has.
pub record ValidJob (u : Unicode) (job : Entries) (earlier : List String) : Type 0 where
  pub id : String
  pub given_id : get "id" job ≡ text id
  pub filled : (id == "") ≡ false
  pub new : is_one_of id earlier ≡ false
  pub schedule : String
  pub given_schedule : get "schedule" job ≡ text schedule
  pub cron : Fields u (split_words (chars schedule)) cron_ranges
  pub mode : IsOneOf ("observe" ∷ "draft" ∷ []) (get "mode" job)

abbrev pub ValidJobs : Unicode → List Value → List String → Type 0
ValidJobs u [] earlier = Unit
ValidJobs u (v ∷ jobs) earlier =
    (job : Entries) × (v ≡ mapping job)
    × ((valid : ValidJob u job earlier) × ValidJobs u jobs (valid.id ∷ earlier))

is_text_value→eq : (v : Value) → is_text_value v ≡ true → v ≡ text (text_of v)
is_text_value→eq (text s) e = refl
is_text_value→eq null e = cc
is_text_value→eq (boolean b) e = cc
is_text_value→eq (integer n) e = cc
is_text_value→eq (other s) e = cc
is_text_value→eq (list vs) e = cc
is_text_value→eq (mapping entries) e = cc

is_nonempty_text→eq :
    (v : Value) → is_nonempty_text v ≡ true → (v ≡ text (text_of v)) × ((text_of v == "") ≡ false)
is_nonempty_text→eq (text s) e = (refl, ground arith)
is_nonempty_text→eq null e = absurd cc
is_nonempty_text→eq (boolean b) e = absurd cc
is_nonempty_text→eq (integer n) e = absurd cc
is_nonempty_text→eq (other s) e = absurd cc
is_nonempty_text→eq (list vs) e = absurd cc
is_nonempty_text→eq (mapping entries) e = absurd cc

module _ (u : Unicode) where
  ValidJob-validate_job :
      (index : ℕ) (job : Entries) (earlier : List String)
      → validate_job u index job earlier ≡ ok tt
      → (valid : ValidJob u job earlier) × (valid.id ≡ text_of (get "id" job))
  unfolding validate_job
  ValidJob-validate_job index job earlier e =
      let id = get "id" job in
      let schedule = get "schedule" job in
      let (identified, e1) =
        ensure-eq_ok (is_nonempty_text id && not (is_one_of (text_of id) earlier)) _ _ e in
      let (scheduled, e2) = ensure-eq_ok (is_nonempty_text schedule) _ _ e1 in
      let (cron, e3) =
        >>-eq_ok
          (validate_cron u (chars (text_of schedule))
            ("jobs[" +++ (decimal index +++ "].schedule")))
          _ e2 in
      let (is_mode, m, e4) = >>=-eq_ok (member (get "mode" job) ("observe" ∷ "draft" ∷ [])) _ e3 in
      let (filled, new) = &&-both _ _ identified in
      let (is_id, some_id) = is_nonempty_text→eq id filled in
      (
        record {
          id = text_of id;
          given_id = is_id;
          filled = some_id;
          new = not-true _ new;
          schedule = text_of schedule;
          given_schedule = (is_nonempty_text→eq schedule scheduled).0;
          cron = validate_cron-Fields u _ _ cron;
          mode = member-eq_true _ _ m (ensure-eq_true is_mode _ e4);
        },
        refl,
      )

  ValidJobs-validate_jobs :
      (index : ℕ) (jobs : List Value) (earlier : List String)
      → validate_jobs u index jobs earlier ≡ ok tt
      → ValidJobs u jobs earlier
  unfolding validate_jobs
  ValidJobs-validate_jobs index [] earlier e = tt
  ValidJobs-validate_jobs index (v ∷ jobs) earlier e =
      let (job, j, e1) = >>=-eq_ok (as_mapping v ("jobs[" +++ (decimal index +++ "]"))) _ e in
      let (checked, e2) = >>-eq_ok (validate_job u index job earlier) _ e1 in
      let (valid, same) = ValidJob-validate_job index job earlier checked in
      (
        job,
        as_mapping-eq_ok _ _ job j,
        (
          valid,
          subst (λ id. ValidJobs u jobs (id ∷ earlier)) (sym same)
              (ValidJobs-validate_jobs (suc index) jobs (text_of (get "id" job) ∷ earlier) e2),
        ),
      )

abbrev pub ValidSchedules : Unicode → (String → Zone) → Entries → Type 0
ValidSchedules u zone_info config =
    ((timezone : String) × (get "timezone" config ≡ text timezone) × (zone_info timezone ≡ found))
    × ((jobs : List Value) × FilledList (get "jobs" config) jobs × ValidJobs u jobs [])

-- A schedules configuration that _validate_schedules accepts names a timezone that ZoneInfo finds
-- and has a list of one or more jobs. Every job has a nonempty ID that no earlier job has, a cron
-- expression of five fields in their ranges, and the mode observe or draft.
pub validate_schedules-ValidSchedules :
    (u : Unicode) (zone_info : String → Zone) (config : Entries)
    → validate_schedules u zone_info config ≡ ok tt
    → ValidSchedules u zone_info config
unfolding validate_schedules
validate_schedules-ValidSchedules u zone_info config e =
    let timezone = get "timezone" config in
    let (is_text, e1) = ensure-eq_ok (is_text_value timezone) _ _ e in
    let (zone, e2) =
      >>-eq_ok (check_zone (zone_info (text_of timezone)) "timezone must be a valid IANA timezone")
        _ e1 in
    let (jobs, j, e3) =
      >>=-eq_ok (as_filled_list (get "jobs" config) "jobs must be a non-empty list") _ e2 in
    (
      (text_of timezone, is_text_value→eq _ is_text, check_zone-eq_ok _ _ zone),
      (jobs, as_filled_list-eq_ok _ _ jobs j, ValidJobs-validate_jobs u 0 jobs [] e3),
    )
