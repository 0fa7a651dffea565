-- ===== src/Registry/Policies.antt =====
-- Recorded source policies, and the lookups of them (record_source_policy of db.py).
use event_lead_ops_agent.Prelude.{
  String, ◌≡◌, refl, sym, ap, ◌∙◌, Bool, true, false, ◌&&◌, some, List, [], ◌∷◌, ok, arith, ◌==◌,
  eq_iff, find, update_where, if◌then◌else◌, ◌≤◌, nat_eq, leb, ensure-eq_ok, raise_if-eq_ok, unok,
  Bool-cases, inl, inr,
}
use event_lead_ops_agent.Schema.{PolicyRow, Db}
use event_lead_ops_agent.Schema.Constraints.{exists}
use event_lead_ops_agent.Transaction.{concluded-eq_ok}
use event_lead_ops_agent.Executions.Begin.{policy_of}
use event_lead_ops_agent.Registry.{
  upsert, policy_key, record_source_policy_body, record_source_policy,
}

module _ (row : PolicyRow) where
  abbrev changed : PolicyRow → PolicyRow
  changed r = record r {
    mode = row.mode;
    certification_ttl_hours = row.certification_ttl_hours;
    execution_timeout_minutes = row.execution_timeout_minutes;
    updated_at = row.updated_at;
  }

  abbrev is_for : String → String → PolicyRow → Bool
  is_for s a r = r.source == s && r.account_alias == a

  updated_others :
      (rows : List PolicyRow) (s a : String)
      → (row.source == s && row.account_alias == a) ≡ false
      → find (is_for s a) (update_where (policy_key row.source row.account_alias) changed rows)
        ≡ find (is_for s a) rows
  unfolding find update_where
  updated_others [] s a ne = refl
  updated_others (x ∷ rows) s a ne = ground (
    arith,
    eq_iff x.source row.source,
    eq_iff x.account_alias row.account_alias,
    eq_iff x.source s,
    eq_iff x.account_alias a,
    eq_iff row.source s,
    eq_iff row.account_alias a,
    updated_others rows s a,
  )

  changed_row :
      (x : PolicyRow)
      → x.source ≡ row.source
      → x.account_alias ≡ row.account_alias
      → changed x ≡ row
  changed_row x es ea = λ i. record row { source = es i; account_alias = ea i }

  first_found :
      (y : PolicyRow) (rest : List PolicyRow)
      → is_for row.source row.account_alias y ≡ true
      → y ≡ row
      → find (is_for row.source row.account_alias) (y ∷ rest) ≡ some row
  unfolding find
  first_found y rest e is_row = rw e (ap some is_row)

  same_names :
      (s a : String)
      → (row.source == s && row.account_alias == a) ≡ true
      → ◌≡◌ {A = String × String} (row.source, row.account_alias) (s, a)
  same_names s a same = λ i. (eq_s i, eq_a i)
    where
      eq_s : row.source ≡ s
      eq_s = ground (arith, eq_iff row.source s)

      eq_a : row.account_alias ≡ a
      eq_a = ground (arith, eq_iff row.account_alias a)

  updated_self :
      (rows : List PolicyRow)
      → exists (policy_key row.source row.account_alias) rows ≡ true
      → find
          (is_for row.source row.account_alias)
          (update_where (policy_key row.source row.account_alias) changed rows)
        ≡ some row
  unfolding find update_where
  updated_self [] e = cc
  updated_self (x ∷ rows) e = elim (Bool-cases (policy_key row.source row.account_alias x)) [
    | inl same ↦
        let is_row =
          changed_row x (ground (arith, eq_iff x.source row.source))
            (ground (arith, eq_iff x.account_alias row.account_alias)) in
        rw same (first_found (changed x) _ same is_row)
    | inr other ↦ rw other (rw other (updated_self rows (ground arith)))
  ]

  put_same :
      (rows : List PolicyRow) (s a : String)
      → (row.source == s && row.account_alias == a) ≡ true
      → find (is_for s a) (upsert (policy_key row.source row.account_alias) changed row rows)
        ≡ some row
  unfolding upsert find
  put_same rows s a same =
      elim (Bool-cases (exists (policy_key row.source row.account_alias) rows)) [
        | inl there ↦ rw there (
            ap
              (λ (t : String × String).
                find (is_for t.0 t.1)
                  (update_where (policy_key row.source row.account_alias) changed rows))
              (sym (same_names s a same))
            ∙ updated_self rows there)
        | inr free ↦ rw free (rw same refl)
      ]

  -- The row that the statement leaves under a source and an account.
  put_policy :
      (rows : List PolicyRow) (s a : String)
      → find (is_for s a) (upsert (policy_key row.source row.account_alias) changed row rows)
        ≡ (if row.source == s && row.account_alias == a then some row else find (is_for s a) rows)
  unfolding upsert find
  put_policy rows s a = elim (Bool-cases (row.source == s && row.account_alias == a)) [
    | inl same ↦ rw same (put_same rows s a same)
    | inr other ↦ elim (Bool-cases (exists (policy_key row.source row.account_alias) rows)) [
      | inl there ↦ rw there (rw other (updated_others rows s a other))
      | inr free ↦ rw free (rw other refl)
    ]
  ]

  -- Where record_source_policy returns, its durations are within bounds, and the policy that is
  -- read for a source and an account is the recorded one for its own source and account, and for
  -- every other the one from before.
  pub record_source_policy_lookup :
      (db : Db) (s a : String)
      → (record_source_policy row db).0 ≡ ok tt
      → (1 ≤ row.certification_ttl_hours)
        × (row.certification_ttl_hours ≤ 24)
        × (1 ≤ row.execution_timeout_minutes)
        × (policy_of s a (record_source_policy row db).1
            ≡ (if row.source == s && row.account_alias == a then some row else policy_of s a db))
  unfolding record_source_policy record_source_policy_body
  record_source_policy_lookup db s a e =
      let done = concluded-eq_ok db (record_source_policy_body row db) e in
      let (ttl, e1) =
        ensure-eq_ok (leb 1 row.certification_ttl_hours && leb row.certification_ttl_hours 24) _ _
          done in
      let (timeout, e2) = raise_if-eq_ok (nat_eq row.execution_timeout_minutes 0) _ _ e1 in
      (
        ground arith,
        ground arith,
        ground arith,
        ap (λ (d : Db). policy_of s a d) (ap (λ t. t.1) (sym (unok e2)))
            ∙ put_policy db.source_policies s a,
      )
