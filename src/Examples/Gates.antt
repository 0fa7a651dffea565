-- ===== src/Examples/Gates.antt =====
-- Tests of the gates of policy.py and of the profile lock.
use event_lead_ops_agent.Prelude.{◌≡◌, ◌↔◌, ◌⊎◌, refl, none, ok, err, policy_violation}
use event_lead_ops_agent.Models.{observe, draft, approved_write, healthy}
use event_lead_ops_agent.Policy.{assert_read_allowed}
use event_lead_ops_agent.Examples.{payload, host, sighting, profile_lock, envelope}
use event_lead_ops_agent.Json.{canonical_json}
use event_lead_ops_agent.Host.{decimal}
use event_lead_ops_agent.Policy.{payload_hash, assert_write_allowed}
use event_lead_ops_agent.ProfileLock.{
  attest, assert_owned, lease_marker_matches, kernel_owner_matches, same_private_file,
}
use event_lead_ops_agent.Policy.Gates.{MayWrite, assert_read_allowed_iff, assert_write_allowed_iff}
use event_lead_ops_agent.ProfileLock.Attestation.{Owns, attest_iff}

assert_read_allowed_iff_example :
    (assert_read_allowed draft healthy ≡ ok tt)
    ↔ ((healthy ≡ healthy) × ((draft ≡ observe) ⊎ ((draft ≡ draft) ⊎ (draft ≡ approved_write))))
assert_read_allowed_iff_example = assert_read_allowed_iff draft healthy

assert_write_allowed_iff_example :
    (assert_write_allowed host approved_write healthy "p1" payload envelope none 12 ≡ ok tt)
    ↔ MayWrite host approved_write healthy "p1" payload envelope none 12
assert_write_allowed_iff_example =
    assert_write_allowed_iff host approved_write healthy "p1" payload envelope none 12

write_passes :
    assert_write_allowed host approved_write healthy "p1" payload envelope none 12 ≡ ok tt
unfolding assert_write_allowed payload_hash canonical_json
write_passes = refl

write_expires :
    assert_write_allowed host approved_write healthy "p1" payload envelope none 1800000000
    ≡ err (policy_violation "approval expired")
unfolding assert_write_allowed
write_expires = refl

attest_iff_example :
    (attest host profile_lock "/profiles/main" none sighting sighting ≡ ok "lease")
    ↔ Owns host profile_lock "/profiles/main" none sighting sighting "lease"
attest_iff_example = attest_iff host profile_lock "/profiles/main" none sighting sighting "lease"

lock_attested : attest host profile_lock "/profiles/main" none sighting sighting ≡ ok "lease"
unfolding decimal assert_owned lease_marker_matches kernel_owner_matches same_private_file
lock_attested = refl
